-- ===== src/Raft/Cluster/Handled.antt =====
-- What the steps outside elections do to a peer's role, term and vote.
use cs.Prelude.{
  ℕ, ◌≤◌, ◌≡◌, ◌⊎◌, inl, inr, Bool-cases, false, Option, none, some, ltb, not, ◌||◌, sym, ◌∙◌,
  arith,
}
use cs.Prelude.Int.{ℤ, pos, negsuc}
use cs.Raft.State.{
  Raft, Role, AppendEntriesArgs, AppendEntriesReply, RequestVoteArgs, RequestVoteReply, Intn,
  is_leader, is_candidate, killed, kill, turn_follower,
}
use cs.Raft.Apply.{applymsg}
use cs.Raft.Vote.{request_vote}
use cs.Raft.Append.{append_entries, check_prev, accept, take_over, step_down}
use cs.Raft.Append.Answer.{append_entries-dead, append_entries-stale, append_entries-current}
use cs.Raft.Leader.{start, heart_beat_reply, record_success, record_failure, handle_leader}
use cs.Raft.Election.{vote_reply}
use cs.Raft.Cluster.{
  Handles, denies, ignores, loses, is_denied, hears, beats, election_fires, heart_beat_fires, dies,
}

module _ {C : Type 0} where
  -- The peer follows afterwards, or it has its role, its term and its vote as before; and a follower
  -- keeps its vote within its term.
  pub record Calm (rf rf' : Raft C) : Type 0 where
    pub same_peers : rf'.peers ≡ rf.peers
    pub same_me : rf'.me ≡ rf.me
    pub grows : rf.current_term ≤ rf'.current_term
    pub role :
        (rf'.state ≡ Role.follower)
        ⊎ ((rf'.state ≡ rf.state)
            × (rf'.current_term ≡ rf.current_term)
            × (rf'.voted_for ≡ rf.voted_for))
    pub keeps :
        (c : ℕ)
        → rf.state ≡ Role.follower
        → rf'.current_term ≡ rf.current_term
        → rf.voted_for ≡ some c
        → rf'.voted_for ≡ some c

  -- All of these fields are as before.
  abbrev pub Same : Raft C → Raft C → Type 0
  Same rf rf' =
      (rf'.peers ≡ rf.peers)
      × (rf'.me ≡ rf.me)
      × (rf'.state ≡ rf.state)
      × (rf'.current_term ≡ rf.current_term)
      × (rf'.voted_for ≡ rf.voted_for)

  Same-Calm : (rf rf' : Raft C) → Same rf rf' → Calm rf rf'
  Same-Calm rf rf' s = record {
    same_peers = s.0;
    same_me = s.1;
    grows = omega arith;
    role = inr (s.2, s.3, s.4);
    keeps = λ c f e v. s.4 ∙ v;
  }

  applymsg-Same : (rf rf' : Raft C) → applymsg rf ≡ some rf' → Same rf rf'
  unfolding applymsg
  applymsg-Same rf rf' h = ground arith

  pub check_prev-Same :
      (args : AppendEntriesArgs C) (i : ℤ) (rf rf' : Raft C) (reply : AppendEntriesReply)
      → check_prev args i rf ≡ some (rf', reply)
      → Same rf rf'
  unfolding check_prev accept
  check_prev-Same args (negsuc n) rf rf' reply h = ground arith
  check_prev-Same args (pos prev) rf rf' reply h =
      ground (arith, applymsg-Same (take_over args prev rf) rf')

  step_down-Calm :
      (intn : Intn) (args : AppendEntriesArgs C) (rf rf' : Raft C)
      → ltb args.term rf.current_term ≡ false
      → Same (step_down intn args rf) rf'
      → Calm rf rf'
  unfolding step_down
  step_down-Calm intn args rf rf' h s = record {
    same_peers = ground arith;
    same_me = ground arith;
    grows = ground arith;
    role = inl (ground arith);
    keeps = λ c f e v. ground arith;
  }

  pub append_entries-Calm :
      (intn : Intn) (args : AppendEntriesArgs C) (rf rf' : Raft C) (reply : AppendEntriesReply)
      → append_entries intn args rf ≡ some (rf', reply)
      → Calm rf rf'
  append_entries-Calm intn args rf rf' reply h = elim (Bool-cases (killed rf)) [
    | inl dead ↦ Same-Calm rf rf' (ground (arith, append_entries-dead intn args rf dead))
    | inr alive ↦ elim (Bool-cases (ltb args.term rf.current_term)) [
      | inl stale ↦ Same-Calm rf rf' (ground (arith, append_entries-stale intn args rf alive stale))
      | inr current ↦ step_down-Calm intn args rf rf' current (
          check_prev-Same args args.prev_log_index (step_down intn args rf) rf' reply
            (sym (append_entries-current intn args rf alive current) ∙ h))
    ]
  ]

  pub request_vote-Calm :
      (intn : Intn) (args : RequestVoteArgs) (rf rf' : Raft C) (reply : RequestVoteReply)
      → request_vote intn args rf ≡ some (rf', reply)
      → reply.vote_granted ≡ false
      → Calm rf rf'
  unfolding request_vote
  request_vote-Calm intn args rf rf' reply h no_vote = record {
    same_peers = ground arith;
    same_me = ground arith;
    grows = ground arith;
    role = elim (Bool-cases (killed rf)) [
      | inl dead ↦ inr (ground arith)
      | inr alive ↦ elim (Bool-cases (ltb rf.current_term args.term)) [
        | inl newer ↦ inl (ground arith)
        | inr same ↦ inr (ground arith)
      ]
    ];
    keeps = λ c f e v. ground arith;
  }

  pub record_success-Same :
      (peer : ℕ) (rf rf' : Raft C) → record_success peer rf ≡ some rf' → Same rf rf'
  unfolding record_success
  record_success-Same peer rf rf' h = applymsg-Same _ rf' h

  pub record_failure-Same :
      (peer : ℕ) (rf rf' : Raft C) → record_failure peer rf ≡ some rf' → Same rf rf'
  unfolding record_failure
  record_failure-Same peer rf rf' h = ground arith

  -- The branches of a reply that came.
  heart_beat_reply-Calm :
      (intn : Intn) (peer : ℕ) (reply : Option AppendEntriesReply) (rf rf' : Raft C)
      → heart_beat_reply intn peer reply rf ≡ some rf'
      → Calm rf rf'
  unfolding heart_beat_reply turn_follower
  heart_beat_reply-Calm intn peer none rf rf' h = Same-Calm rf rf' (ground arith)
  heart_beat_reply-Calm intn peer (some reply) rf rf' h =
      elim (Bool-cases (killed rf || not (is_leader rf.state))) [
        | inl off ↦ Same-Calm rf rf' (ground arith)
        | inr on ↦ elim (Bool-cases (ltb rf.current_term reply.term)) [
          | inl newer ↦ record {
            same_peers = ground arith;
            same_me = ground arith;
            grows = ground arith;
            role = inl (ground arith);
            keeps = λ c f e v. ground arith;
          }
          | inr current ↦
              Same-Calm rf rf'
                (ground (arith, record_success-Same peer rf rf', record_failure-Same peer rf rf'))
        ]
      ]

  is_denied-Calm :
      (intn : Intn) (term n : ℕ) (rf : Raft C)
      → Calm rf (vote_reply intn (some (record { term = term; vote_granted = false })) n rf).0
  unfolding vote_reply turn_follower
  is_denied-Calm intn term n rf = elim (Bool-cases (killed rf || not (is_candidate rf.state))) [
    | inl off ↦ Same-Calm rf _ (ground arith)
    | inr on ↦ elim (Bool-cases (ltb rf.current_term term)) [
      | inl newer ↦ record {
        same_peers = ground arith;
        same_me = ground arith;
        grows = ground arith;
        role = inl (ground arith);
        keeps = λ c f e v. ground arith;
      }
      | inr current ↦ Same-Calm rf _ (ground arith)
    ]
  ]

  pub start-Calm : (command : Option C) (rf : Raft C) → Calm rf (start command rf).0
  unfolding start
  start-Calm command rf = Same-Calm rf _ (ground arith)

  pub Handles-Calm : {rf rf' : Raft C} → Handles rf rf' → Calm rf rf'
  unfolding start vote_reply handle_leader kill
  Handles-Calm (denies intn args {rf} {rf'} {reply} h no_vote) =
      request_vote-Calm intn args rf rf' reply h no_vote
  Handles-Calm (ignores command {rf} off) = Same-Calm rf _ (ground arith)
  Handles-Calm (loses intn n {rf}) = Same-Calm rf _ (ground arith)
  Handles-Calm (is_denied intn term n {rf}) = is_denied-Calm intn term n rf
  Handles-Calm (hears intn peer reply {rf} {rf'} h) = heart_beat_reply-Calm intn peer reply rf rf' h
  Handles-Calm (beats {rf}) = Same-Calm rf _ (ground arith)
  Handles-Calm (election_fires {rf}) = Same-Calm rf _ (ground arith)
  Handles-Calm (heart_beat_fires {rf}) = Same-Calm rf _ (ground arith)
  Handles-Calm (dies {rf}) = Same-Calm rf _ (ground arith)
