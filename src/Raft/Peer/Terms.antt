-- ===== src/Raft/Peer/Terms.antt =====
-- What the steps of a peer do to its term and its vote.
use cs.Prelude.{ℕ, ◌≤◌, ◌≡◌, true, false, some, Option, none, ltb, Bool-cases, inl, inr, arith}
use cs.Prelude.Int.{ℤ, pos, negsuc}
use cs.Raft.State.{
  revive, Raft, Intn, AppendEntriesArgs, AppendEntriesReply, RequestVoteArgs, RequestVoteReply,
  is_follower, killed, kill, turn_follower,
}
use cs.Raft.Apply.Order.{applymsg-frame}
use cs.Raft.Vote.{request_vote}
use cs.Raft.Append.{append_entries, append_entries_locked, check_prev, accept, take_over, step_down}
use cs.Raft.Append.Answer.{append_entries-dead}
use cs.Raft.Leader.{
  start, heart_beat_reply, heart_beat_locked, record_success, record_failure, handle_leader,
}
use cs.Raft.Election.{check_election_timeout, vote_reply}
use cs.Raft.Peer.{
  Step, votes, votes_late, appends, appends_late, starts, times_out, times_out_late, counts, leads,
  restarts, hears, hears_late, beats, beats_late, takes_tick, election_fires, heart_beat_fires,
  dies,
}

module _ {C : Type 0} where
  -- What a step does to the term and the vote.
  abbrev pub TermStep : Raft C → Raft C → Type 0
  TermStep rf rf' =
      (rf.current_term ≤ rf'.current_term)
      × ((c : ℕ)
          → is_follower rf.state ≡ true
          → rf'.current_term ≡ rf.current_term
          → rf.voted_for ≡ some c
          → rf'.voted_for ≡ some c)

  TermStep-refl : (rf : Raft C) → TermStep rf rf
  TermStep-refl rf = (omega arith, λ c f e v. v)

  request_vote-terms :
      (intn : Intn) (args : RequestVoteArgs) (rf rf' : Raft C) (reply : RequestVoteReply)
      → request_vote intn args rf ≡ some (rf', reply)
      → TermStep rf rf'
  unfolding request_vote
  request_vote-terms intn args rf rf' reply h = (ground arith, λ c f e v. ground arith)

  pub check_prev-frame :
      (args : AppendEntriesArgs C) (i : ℤ) (rf rf' : Raft C) (reply : AppendEntriesReply)
      → check_prev args i rf ≡ some (rf', reply)
      → (rf'.current_term ≡ rf.current_term) × (rf'.voted_for ≡ rf.voted_for)
  unfolding check_prev accept
  check_prev-frame args (negsuc n) rf rf' reply h = ground arith
  check_prev-frame args (pos prev) rf rf' reply h =
      ground (arith, applymsg-frame (take_over args prev rf) rf')

  step_down-terms :
      (intn : Intn) (args : AppendEntriesArgs C) (rf : Raft C)
      → ltb args.term rf.current_term ≡ false
      → TermStep rf (step_down intn args rf)
  unfolding step_down
  step_down-terms intn args rf h = (ground arith, λ c f e v. ground arith)

  append_entries_locked-terms :
      (intn : Intn) (args : AppendEntriesArgs C) (rf rf' : Raft C) (reply : AppendEntriesReply)
      → append_entries_locked intn args rf ≡ some (rf', reply)
      → TermStep rf rf'
  append_entries_locked-terms intn args rf rf' reply h =
      elim (Bool-cases (ltb args.term rf.current_term)) [
        | inl stale ↦ let same : rf' ≡ rf = ground arith in rw same (TermStep-refl rf)
        | inr current ↦
            let down = step_down-terms intn args rf current in
            let frame =
              check_prev-frame args args.prev_log_index (step_down intn args rf) rf' reply
                (ground arith) in
            rw (frame.0, frame.1) down
      ]

  append_entries-terms :
      (intn : Intn) (args : AppendEntriesArgs C) (rf rf' : Raft C) (reply : AppendEntriesReply)
      → append_entries intn args rf ≡ some (rf', reply)
      → TermStep rf rf'
  unfolding append_entries
  append_entries-terms intn args rf rf' reply h = elim (Bool-cases (killed rf)) [
    | inl dead ↦
        let same : rf' ≡ rf = ground (arith, append_entries-dead intn args rf dead) in
        rw same (TermStep-refl rf)
    | inr alive ↦ append_entries_locked-terms intn args rf rf' reply (rw alive at h)
  ]

  record_success-frame :
      (peer : ℕ) (rf rf' : Raft C)
      → record_success peer rf ≡ some rf'
      → (rf'.current_term ≡ rf.current_term) × (rf'.voted_for ≡ rf.voted_for)
  unfolding record_success
  record_success-frame peer rf rf' h = let frame = applymsg-frame _ rf' h in (frame.0, frame.1)

  record_failure-frame :
      (peer : ℕ) (rf rf' : Raft C)
      → record_failure peer rf ≡ some rf'
      → (rf'.current_term ≡ rf.current_term) × (rf'.voted_for ≡ rf.voted_for)
  unfolding record_failure
  record_failure-frame peer rf rf' h = ground arith

  heart_beat_locked-terms :
      (intn : Intn) (peer : ℕ) (reply : AppendEntriesReply) (rf rf' : Raft C)
      → heart_beat_locked intn peer reply rf ≡ some rf'
      → TermStep rf rf'
  unfolding turn_follower
  heart_beat_locked-terms intn peer reply rf rf' h = (
    ground (arith, record_success-frame peer rf rf', record_failure-frame peer rf rf'),
    λ c f e v. ground (arith, record_success-frame peer rf rf', record_failure-frame peer rf rf'),
  )

  heart_beat_reply-terms :
      (intn : Intn) (peer : ℕ) (reply : Option AppendEntriesReply) (rf rf' : Raft C)
      → heart_beat_reply intn peer reply rf ≡ some rf'
      → TermStep rf rf'
  unfolding heart_beat_reply
  heart_beat_reply-terms intn peer none rf rf' h = (ground arith, λ c f e v. ground arith)
  heart_beat_reply-terms intn peer (some reply) rf rf' h = elim (Bool-cases (killed rf)) [
    | inl dead ↦ let same : rf' ≡ rf = ground arith in rw same (TermStep-refl rf)
    | inr alive ↦ heart_beat_locked-terms intn peer reply rf rf' (rw alive at h)
  ]

  -- No step of the peer, whatever the request, lowers the term, and a step that a follower takes
  -- within a term neither takes back nor changes its vote; where no election is started in a term of
  -- 2 ^ 63 - 1 or more.
  pub Step-terms : {rf rf' : Raft C} → Step rf rf' → TermStep rf rf'
  unfolding start check_election_timeout vote_reply handle_leader kill
  Step-terms (votes intn args {rf} {rf'} {reply} h) = request_vote-terms intn args rf rf' reply h
  Step-terms (votes_late intn args {rf} {rf'} {reply} dead h) =
      request_vote-terms intn args (revive rf) rf' reply h
  Step-terms (appends intn args {rf} {rf'} {reply} h) =
      append_entries-terms intn args rf rf' reply h
  Step-terms (appends_late intn args {rf} {rf'} {reply} dead h) =
      append_entries_locked-terms intn args rf rf' reply h
  Step-terms (starts command) = ground arith
  Step-terms (times_out intn small) = (ground arith, λ c f e v. ground arith)
  Step-terms (times_out_late intn dead small) = (ground arith, λ c f e v. ground arith)
  Step-terms (counts intn none n) = ground arith
  Step-terms (counts intn (some reply) n) = (ground arith, λ c f e v. ground arith)
  Step-terms leads = ground arith
  Step-terms restarts = ground arith
  Step-terms (hears intn peer reply {rf} {rf'} h) = heart_beat_reply-terms intn peer reply rf rf' h
  Step-terms (hears_late intn peer reply {rf} {rf'} dead h) =
      heart_beat_locked-terms intn peer reply rf rf' h
  Step-terms beats = ground arith
  Step-terms (beats_late dead) = ground arith
  Step-terms takes_tick = ground arith
  Step-terms election_fires = ground arith
  Step-terms heart_beat_fires = ground arith
  Step-terms dies = ground arith
