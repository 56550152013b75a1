-- ===== src/Raft/Election.antt =====
-- mp2/src/raft/raft.go: the candidate's side, `checkElectionTimeout`, `startElection` and
-- `sendvote`. The votes of one election are counted in a variable of its own, `voteNum`.
use cs.Prelude.{
  ℕ, ◌+◌, ◌-◌, ◌/◌, Bool, true, false, Option, none, some, length, ltb, not, ◌||◌, ◌&&◌,
  if◌then◌else◌,
}
use cs.Raft.State.{
  Raft, RequestVoteArgs, RequestVoteReply, Intn, Role, is_candidate, killed, last_entry,
  turn_follower, turn_candidate,
}

module _ {C : Type 0} where
  -- The request that `startElection` sends to every other peer, and the first `voteNum`.
  unfoldable pub start_election : Raft C → Option (Option (RequestVoteArgs × ℕ))
  start_election rf = if killed rf then some none else elim (last_entry rf.log) [
    | none ↦ none
    | some last ↦ some (
        some (
          record {
            term = rf.current_term;
            candidate_id = rf.me;
            last_log_index = length rf.log - 1;
            last_log_term = last.term;
          },
          1,
        ))
  ]

  -- A tick of the election timer makes the peer a candidate. The result says whether the call
  -- goes on to `startElection`, which takes the lock again: a step of its own.
  unfoldable pub check_election_timeout : Intn → Raft C → Raft C × Bool
  unfolding turn_candidate
  check_election_timeout intn rf =
      if killed rf || not rf.election_timer.tick then (rf, false) else (
        turn_candidate intn
            (record rf { election_timer = record rf.election_timer { tick = false } }),
        true,
      )

  -- A granted vote, counted; with a majority the peer leads, and the call goes on to
  -- `TurnLeader`, which takes the lock again: a step of its own.
  unfoldable pub count_vote : ℕ → Raft C → Raft C × ℕ × Bool
  count_vote votes rf =
      if ltb (rf.peers / 2) (votes + 1)
      then (record rf { state = Role.leader }, votes + 1, true)
      else (rf, votes + 1, false)

  -- What `sendvote` does after its call, with the count of its election; `none` for a call that
  -- failed.
  unfoldable pub vote_reply : Intn → Option RequestVoteReply → ℕ → Raft C → Raft C × ℕ × Bool
  unfolding turn_follower count_vote
  vote_reply intn none votes rf = (rf, votes, false)
  vote_reply intn (some reply) votes rf =
      if killed rf || not (is_candidate rf.state)
      then (rf, votes, false)
      else (let rf' =
            if ltb rf.current_term reply.term then turn_follower intn reply.term none rf else rf in
          if reply.vote_granted && is_candidate rf'.state
          then count_vote votes rf'
          else (rf', votes, false))
