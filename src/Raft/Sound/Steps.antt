-- ===== src/Raft/Sound/Steps.antt =====
-- The invariant across the critical sections of a peer that apply nothing.
use cs.Prelude.{
  ℕ, ◌≡◌, refl, Option, none, some, arith, Bool-cases, inl, inr, sym, ◌∙◌, ap, length-set,
  length-append, length-replicate, take-drop_one_append,
}
use cs.Raft.State.{
  Raft, RequestVoteArgs, RequestVoteReply, Intn, is_leader, make, kill, lead, restart_heart_beat,
}
use cs.Raft.Apply.Order.{announce}
use cs.Raft.Vote.{request_vote}
use cs.Raft.Leader.{start, handle_leader}
use cs.Raft.Election.{check_election_timeout, vote_reply}
use cs.Raft.Sound.Defs.{IsKept}

module _ {C : Type 0} where
  pub make-IsKept : (intn : Intn) (peers me : ℕ) → IsKept (make {C = C} intn peers me)
  unfolding make announce
  make-IsKept intn peers me = record {
    inside = omega arith;
    behind = omega arith;
    sent = refl;
    caught_up = λ alive. refl;
    next_length = length-replicate peers _;
    match_length = length-replicate peers _;
  }

  pub kill-IsKept : {rf : Raft C} → IsKept rf → IsKept (kill rf)
  unfolding kill
  kill-IsKept k = record {
    inside = k.inside;
    behind = k.behind;
    sent = k.sent;
    caught_up = λ alive. ground arith;
    next_length = k.next_length;
    match_length = k.match_length;
  }

  pub lead-IsKept : {rf : Raft C} → IsKept rf → IsKept (lead rf)
  lead-IsKept {rf} k = record {
    inside = k.inside;
    behind = k.behind;
    sent = k.sent;
    caught_up = k.caught_up;
    next_length = length-replicate rf.peers _;
    match_length = length-replicate rf.peers _;
  }

  pub restart_heart_beat-IsKept : {rf : Raft C} → IsKept rf → IsKept (restart_heart_beat rf)
  restart_heart_beat-IsKept k = ground arith

  pub check_election_timeout-IsKept :
      (intn : Intn) {rf : Raft C} → IsKept rf → IsKept (check_election_timeout intn rf).0
  unfolding check_election_timeout
  check_election_timeout-IsKept intn k = ground arith

  pub vote_reply-IsKept :
      (intn : Intn) (reply : Option RequestVoteReply) (votes : ℕ) {rf : Raft C}
      → IsKept rf
      → IsKept (vote_reply intn reply votes rf).0
  unfolding vote_reply
  vote_reply-IsKept intn none votes k = k
  vote_reply-IsKept intn (some reply) votes k = ground arith

  pub request_vote-IsKept :
      (intn : Intn) (args : RequestVoteArgs) {rf rf' : Raft C} {reply : RequestVoteReply}
      → IsKept rf
      → request_vote intn args rf ≡ some (rf', reply)
      → IsKept rf'
  unfolding request_vote
  request_vote-IsKept intn args k h = ground arith

  pub handle_leader-IsKept : {rf : Raft C} → IsKept rf → IsKept (handle_leader rf)
  unfolding handle_leader
  handle_leader-IsKept k = ground arith

  pub start-IsKept : (command : Option C) {rf : Raft C} → IsKept rf → IsKept (start command rf).0
  unfolding start
  start-IsKept command {rf} k = elim (Bool-cases (is_leader rf.state)) [
    | inl leads ↦ rw leads (record {
      inside = omega (arith, length-append rf.log _, k.inside);
      behind = k.behind;
      sent =
          k.sent ∙ ap (announce 1) (sym (take-drop_one_append rf.last_applied rf.log _ k.inside));
      caught_up = k.caught_up;
      next_length = length-set rf.next_index rf.me _ ∙ k.next_length;
      match_length = length-set rf.match_index rf.me _ ∙ k.match_length;
    })
    | inr follows ↦ rw follows k
  ]
