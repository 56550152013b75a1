-- ===== src/Raft/Peer/Votes.antt =====
-- The votes of a peer that stays a follower between them.
use cs.Prelude.{ℕ, ◌≤◌, ◌≡◌, true, some, arith}
use cs.Raft.State.{Raft, RequestVoteArgs, RequestVoteReply, Intn, is_follower}
use cs.Raft.Vote.{request_vote}
use cs.Raft.Vote.Grant.{request_vote-IsGranted}
use cs.Raft.Peer.{Step}
use cs.Raft.Peer.Terms.{Step-terms}

module _ {C : Type 0} where
  -- Any steps of the peer, each taken as a follower.
  pub data Follows (rf : Raft C) : Raft C → Type 0 where
    stays : Follows rf rf
    steps :
        {rf' rf'' : Raft C}
        → Follows rf rf'
        → is_follower rf'.state ≡ true
        → Step rf' rf''
        → Follows rf rf''

  Follows-term : {rf rf' : Raft C} → Follows rf rf' → rf.current_term ≤ rf'.current_term
  Follows-term stays = omega arith
  Follows-term (steps f follower st) = omega (arith, Follows-term f, (Step-terms st).0)

  Follows-vote :
      {rf rf' : Raft C} (c : ℕ)
      → Follows rf rf'
      → rf'.current_term ≡ rf.current_term
      → rf.voted_for ≡ some c
      → rf'.voted_for ≡ some c
  Follows-vote c stays e v = v
  Follows-vote c (steps f follower st) e v =
      let before = Follows-term f in
      let (grows, keeps) = Step-terms st in
      keeps c follower (omega arith) (Follows-vote c f (omega arith) v)

  -- A peer that grants two votes of one term, and takes any steps as a follower between them,
  -- whatever it is sent, grants both to the same candidate; where no election is started in a term
  -- of 2 ^ 63 - 1 or more, and its two calls of RequestVote have no Kill within them.
  pub one_vote_per_term :
      (intn intn' : Intn) (a b : RequestVoteArgs) (rf rf₁ rf₂ rf₃ : Raft C)
      (first second : RequestVoteReply)
      → request_vote intn a rf ≡ some (rf₁, first)
      → first.vote_granted ≡ true
      → Follows rf₁ rf₂
      → request_vote intn' b rf₂ ≡ some (rf₃, second)
      → second.vote_granted ≡ true
      → a.term ≡ b.term
      → a.candidate_id ≡ b.candidate_id
  one_vote_per_term intn intn' a b rf rf₁ rf₂ rf₃ first second h g f h' g' same =
      let before = request_vote-IsGranted intn a rf rf₁ first h g in
      let after = request_vote-IsGranted intn' b rf₂ rf₃ second h' g' in
      let grows = Follows-term f in
      let term : rf₂.current_term ≡ rf₁.current_term =
        omega (arith, before.term_taken, after.current) in
      let kept = Follows-vote a.candidate_id f term before.voted in
      ground (arith, after.free, before.term_taken)
