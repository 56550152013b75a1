-- ===== src/Raft/Cluster/Firm.antt =====
-- What the steps outside elections do to a leader's role and term.
use cs.Prelude.{
  ℕ, ◌<◌, ◌≡◌, ◌≢◌, ◌⊎◌, inl, inr, Bool-cases, true, false, Option, none, some, ltb, not, ◌||◌,
  List, sym, ◌∙◌, arith,
}
use cs.Raft.State.{
  Raft, Role, AppendEntriesArgs, AppendEntriesReply, RequestVoteArgs, RequestVoteReply, Intn,
  is_leader, is_candidate, killed, kill, turn_follower,
}
use cs.Raft.Vote.{request_vote}
use cs.Raft.Vote.Grant.{request_vote-IsGranted}
use cs.Raft.Append.{append_entries, step_down}
use cs.Raft.Append.Answer.{
  append_entries-dead, append_entries-stale, append_entries-current, step_down_fields,
}
use cs.Raft.Leader.{start, heart_beat_reply, handle_leader}
use cs.Raft.Election.{check_election_timeout, vote_reply}
use cs.Raft.Cluster.{
  Handles, denies, ignores, loses, is_denied, hears, beats, election_fires, heart_beat_fires, dies,
  Ballot,
}
use cs.Raft.Cluster.Handled.{Same, record_success-Same, record_failure-Same, check_prev-Same}
use cs.Raft.Cluster.Fair.{IsFair}
use cs.Raft.Cluster.Counted.{timeout_fields}

module _ {C : Type 0} where
  -- The peer is past the term, or leads it.
  abbrev pub After : ℕ → Raft C → Type 0
  After t rf = (t < rf.current_term) ⊎ ((t ≡ rf.current_term) × (rf.state ≡ Role.leader))

  pub record Firm (rf rf' : Raft C) : Type 0 where
    pub stays : (t : ℕ) → After t rf → After t rf'

  Same-Firm : (rf rf' : Raft C) → Same rf rf' → Firm rf rf'
  Same-Firm rf rf' s = record {
    stays = λ t after. elim after [
      | inl past ↦ inl (omega (arith, s.3))
      | inr (now, leads) ↦ inr (now ∙ sym s.3, s.2 ∙ leads)
    ];
  }

  later-Firm : (rf rf' : Raft C) → rf.current_term < rf'.current_term → Firm rf rf'
  later-Firm rf rf' h = record {
    stays = λ t after. elim after [
      | inl past ↦ inl (omega arith)
      | inr (now, leads) ↦ inl (omega arith)
    ];
  }

  denied-Firm :
      (intn : Intn) (args : RequestVoteArgs) (rf rf' : Raft C) (reply : RequestVoteReply)
      → request_vote intn args rf ≡ some (rf', reply)
      → reply.vote_granted ≡ false
      → Firm rf rf'
  unfolding request_vote
  denied-Firm intn args rf rf' reply h no_vote = elim (Bool-cases (killed rf)) [
    | inl dead ↦ Same-Firm rf rf' (ground arith)
    | inr alive ↦ elim (Bool-cases (ltb rf.current_term args.term)) [
      | inl newer ↦ later-Firm rf rf' (ground arith)
      | inr same ↦ Same-Firm rf rf' (ground arith)
    ]
  ]

  heart_beat_reply-Firm :
      (intn : Intn) (peer : ℕ) (reply : Option AppendEntriesReply) (rf rf' : Raft C)
      → heart_beat_reply intn peer reply rf ≡ some rf'
      → Firm rf rf'
  unfolding heart_beat_reply turn_follower
  heart_beat_reply-Firm intn peer none rf rf' h = Same-Firm rf rf' (ground arith)
  heart_beat_reply-Firm intn peer (some reply) rf rf' h =
      elim (Bool-cases (killed rf || not (is_leader rf.state))) [
        | inl off ↦ Same-Firm rf rf' (ground arith)
        | inr on ↦ elim (Bool-cases (ltb rf.current_term reply.term)) [
          | inl newer ↦ later-Firm rf rf' (ground arith)
          | inr current ↦
              Same-Firm rf rf'
                (ground (arith, record_success-Same peer rf rf', record_failure-Same peer rf rf'))
        ]
      ]

  is_denied-Firm :
      (intn : Intn) (term n : ℕ) (rf : Raft C)
      → Firm rf (vote_reply intn (some (record { term = term; vote_granted = false })) n rf).0
  unfolding vote_reply turn_follower
  is_denied-Firm intn term n rf = elim (Bool-cases (killed rf || not (is_candidate rf.state))) [
    | inl off ↦ Same-Firm rf _ (ground arith)
    | inr on ↦ elim (Bool-cases (ltb rf.current_term term)) [
      | inl newer ↦ later-Firm rf _ (ground arith)
      | inr current ↦ Same-Firm rf _ (ground arith)
    ]
  ]

  pub start-Firm : (command : Option C) (rf : Raft C) → Firm rf (start command rf).0
  unfolding start
  start-Firm command rf = Same-Firm rf _ (ground arith)

  pub Handles-Firm : {rf rf' : Raft C} → Handles rf rf' → Firm rf rf'
  unfolding vote_reply handle_leader kill
  Handles-Firm (denies intn args {rf} {rf'} {reply} h no_vote) =
      denied-Firm intn args rf rf' reply h no_vote
  Handles-Firm (ignores command {rf} off) = start-Firm command rf
  Handles-Firm (loses intn n {rf}) = Same-Firm rf _ (ground arith)
  Handles-Firm (is_denied intn term n {rf}) = is_denied-Firm intn term n rf
  Handles-Firm (hears intn peer reply {rf} {rf'} h) = heart_beat_reply-Firm intn peer reply rf rf' h
  Handles-Firm (beats {rf}) = Same-Firm rf _ (ground arith)
  Handles-Firm (election_fires {rf}) = Same-Firm rf _ (ground arith)
  Handles-Firm (heart_beat_fires {rf}) = Same-Firm rf _ (ground arith)
  Handles-Firm (dies {rf}) = Same-Firm rf _ (ground arith)

  -- A leader gives its vote away only for a later term.
  pub grants-later :
      (n i : ℕ) (intn : Intn) (args : RequestVoteArgs) (rf rf' : Raft C) (reply : RequestVoteReply)
      (voters : List ℕ) (bs : List Ballot)
      → IsFair n i rf voters bs
      → args.candidate_id ≢ i
      → request_vote intn args rf ≡ some (rf', reply)
      → reply.vote_granted ≡ true
      → (t : ℕ) → After t rf
      → t < args.term
  grants-later n i intn args rf rf' reply voters bs f other h granted t (inl past) =
      let g = request_vote-IsGranted intn args rf rf' reply h granted in omega (arith, g.current)
  grants-later n i intn args rf rf' reply voters bs f other h granted t (inr (now, leads)) =
      let g = request_vote-IsGranted intn args rf rf' reply h granted in
      let own = f.own (λ e. ground (arith, e, leads)) in ground (arith, g.free, own)

  pub timeout-Firm :
      (intn : Intn) (rf rf' : Raft C) → check_election_timeout intn rf ≡ (rf', true) → Firm rf rf'
  timeout-Firm intn rf rf' h =
      let fields = timeout_fields intn rf rf' h in later-Firm rf rf' (omega (arith, fields.2))

  -- A heartbeat of another term.
  pub append_entries-Firm :
      (intn : Intn) (args : AppendEntriesArgs C) (rf rf' : Raft C) (reply : AppendEntriesReply)
      → append_entries intn args rf ≡ some (rf', reply)
      → args.term ≢ rf.current_term
      → Firm rf rf'
  append_entries-Firm intn args rf rf' reply h ne = elim (Bool-cases (killed rf)) [
    | inl dead ↦ Same-Firm rf rf' (ground (arith, append_entries-dead intn args rf dead))
    | inr alive ↦ elim (Bool-cases (ltb args.term rf.current_term)) [
      | inl stale ↦ Same-Firm rf rf' (ground (arith, append_entries-stale intn args rf alive stale))
      | inr current ↦
          let down = step_down_fields intn args rf current in
          let same =
            check_prev-Same args args.prev_log_index (step_down intn args rf) rf' reply
              (sym (append_entries-current intn args rf alive current) ∙ h) in
          let newer : rf.current_term < args.term = ground (arith, ne, current) in
          later-Firm rf rf' (omega (arith, newer, same.3, down.0))
    ]
  ]
