-- ===== src/Raft/Vote/Grant.antt =====
-- When `RequestVote` grants a vote.
use cs.Prelude.{◌≤◌, ◌<◌, ◌≡◌, ◌⊎◌, ◌+◌, length, true, none, some, Option-cases, inl, inr, arith}
use cs.Raft.State.{Raft, LogEntry, RequestVoteArgs, RequestVoteReply, Intn, last_entry}
use cs.Raft.Vote.{request_vote}

module _ {C : Type 0} where
  -- What a granted vote says of the peer before and after.
  pub record IsGranted (args : RequestVoteArgs) (rf rf' : Raft C) (reply : RequestVoteReply)
      : Type 0 where
    pub last : LogEntry C
    pub last_found : last_entry rf.log ≡ some last
    pub current : rf.current_term ≤ args.term
    pub free :
        (rf.current_term < args.term)
        ⊎ ((rf.voted_for ≡ none) ⊎ (rf.voted_for ≡ some args.candidate_id))
    pub recent :
        (last.term < args.last_log_term)
        ⊎ ((last.term ≡ args.last_log_term) × (length rf.log ≤ args.last_log_index + 1))
    pub voted : rf'.voted_for ≡ some args.candidate_id
    pub term_taken : rf'.current_term ≡ args.term
    pub term_sent : reply.term ≡ args.term
    pub log_kept : rf'.log ≡ rf.log

  -- A vote is granted only in a term that is not behind the peer's, to a candidate whose log ends
  -- at least as late as the peer's, and only if the peer has no vote out to another one in that
  -- term; then the peer is in that term with its vote out to the candidate, and its log is as before.
  pub request_vote-IsGranted :
      (intn : Intn) (args : RequestVoteArgs) (rf rf' : Raft C) (reply : RequestVoteReply)
      → request_vote intn args rf ≡ some (rf', reply)
      → reply.vote_granted ≡ true
      → IsGranted args rf rf' reply
  unfolding request_vote
  request_vote-IsGranted intn args rf rf' reply h yes_vote =
      elim (Option-cases (last_entry rf.log)) [
        | inl empty ↦ absurd (ground arith)
        | inr (last, found) ↦ record {
          last = last;
          last_found = found;
          current = ground arith;
          free = ground arith;
          recent = ground arith;
          voted = ground arith;
          term_taken = ground arith;
          term_sent = ground arith;
          log_kept = ground arith;
        }
      ]
