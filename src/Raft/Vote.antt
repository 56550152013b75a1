-- ===== src/Raft/Vote.antt =====
-- mp2/src/raft/raft.go `RequestVote`: the answer to a candidate.

pub mod Grant
use cs.Prelude.{
  ◌+◌, Bool, true, false, Option, none, some, List, length, ltb, leb, ◌==◌, ◌&&◌, ◌||◌, not,
  if◌then◌else◌,
}
use cs.Raft.State.{
  Raft, LogEntry, RequestVoteArgs, RequestVoteReply, Intn, is_follower, is_null, is_some_eq,
  last_entry, killed, turn_follower, reset_timer, random_timeout_val, election_timeout_min,
  election_timeout_max,
}

-- The zero value that the caller passes in.
abbrev pub no_vote : RequestVoteReply
no_vote = record { term = 0; vote_granted = false }

module _ {C : Type 0} where
  -- The first test: an older term, or a vote already given to another in this term.
  abbrev pub refuses : RequestVoteArgs → Raft C → Bool
  refuses args rf =
      ltb args.term rf.current_term
      || ((args.term == rf.current_term)
          && (not (is_null rf.voted_for) && not (is_some_eq rf.voted_for args.candidate_id)))

  -- A newer term is taken over before the vote is considered.
  unfoldable pub catch_up : Intn → RequestVoteArgs → Raft C → Raft C
  unfolding turn_follower
  catch_up intn args rf =
      if ltb rf.current_term args.term
      then (let rf' = record rf { current_term = args.term; voted_for = none } in
          if is_follower rf.state then rf' else turn_follower intn args.term none rf')
      else rf

  -- The candidate's log ends at least as late as one that ends in `last`.
  abbrev pub up_to_date : RequestVoteArgs → LogEntry C → List (LogEntry C) → Bool
  up_to_date args last log =
      ltb last.term args.last_log_term
      || ((last.term == args.last_log_term) && leb (length log) (args.last_log_index + 1))

  abbrev pub may_vote : RequestVoteArgs → Raft C → Bool
  may_vote args rf = is_null rf.voted_for || is_some_eq rf.voted_for args.candidate_id

  -- The vote itself, once the term is settled and the peer is free to vote for the candidate.
  unfoldable pub vote : Intn → RequestVoteArgs → LogEntry C → Raft C → Raft C × RequestVoteReply
  vote intn args last rf =
      if up_to_date args last rf.log
      then (
        record rf {
          voted_for = some args.candidate_id;
          election_timer =
              reset_timer rf.election_timer
                (random_timeout_val intn election_timeout_min election_timeout_max);
        },
        record { term = rf.current_term; vote_granted = true },
      )
      else (rf, record { term = rf.current_term; vote_granted = false })

  unfoldable pub request_vote : Intn → RequestVoteArgs → Raft C → Option (Raft C × RequestVoteReply)
  unfolding catch_up vote
  request_vote intn args rf =
      if killed rf
      then some (rf, no_vote)
      else if refuses args rf
      then some (rf, record { term = rf.current_term; vote_granted = false })
      else elim (may_vote args (catch_up intn args rf)) [
        | false ↦ some (
          catch_up intn args rf,
          record { term = (catch_up intn args rf).current_term; vote_granted = false },
        )
        | true ↦ elim (last_entry rf.log) [
          | none ↦ none
          | some last ↦ some (vote intn args last (catch_up intn args rf))
        ]
      ]
