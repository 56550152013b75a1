-- ===== src/Raft/Peer/Invariant.antt =====
-- The invariant over the steps of a peer.
use cs.Prelude.{ℕ, arith, Bool-cases, inl, inr, ◌≡◌, none, some, subst, sym, Option}
use cs.Raft.State.{Raft, Intn, AppendEntriesArgs, AppendEntriesReply, killed}
use cs.Raft.Append.{append_entries}
use cs.Raft.Append.Answer.{append_entries-dead}
use cs.Raft.Leader.{heart_beat_reply}
use cs.Raft.Sound.Defs.{IsKept, IsKept-IsSound, IsSound-IsKept}
use cs.Raft.Sound.Steps.{
  make-IsKept, kill-IsKept, lead-IsKept, restart_heart_beat-IsKept, check_election_timeout-IsKept,
  vote_reply-IsKept, request_vote-IsKept, handle_leader-IsKept, start-IsKept,
}
use cs.Raft.Sound.Handlers.{heart_beat_reply-IsSound, append_entries-IsSound, RespectsCommitted}
use cs.Raft.Sound.Late.{
  request_vote-late, check_election_timeout-late, handle_leader-late, append_entries-late,
  heart_beat_reply-late,
}
use cs.Raft.Peer.{
  Step, votes, votes_late, appends, appends_late, starts, times_out, times_out_late, counts, leads,
  restarts, hears, hears_late, beats, beats_late, takes_tick, election_fires, heart_beat_fires,
  dies, StepRespects, Reach, made, next,
}

module _ {C : Type 0} where
  append_entries-IsKept :
      (intn : Intn) (args : AppendEntriesArgs C) {rf rf' : Raft C} {reply : AppendEntriesReply}
      → RespectsCommitted args rf
      → IsKept rf
      → append_entries intn args rf ≡ some (rf', reply)
      → IsKept rf'
  append_entries-IsKept intn args {rf} {rf'} respects k h = elim (Bool-cases (killed rf)) [
    | inl dead ↦
        let same : rf' ≡ rf = ground (arith, append_entries-dead intn args rf dead) in
        subst IsKept (sym same) k
    | inr alive ↦
        IsSound-IsKept (append_entries-IsSound intn args respects (IsKept-IsSound alive k) h)
  ]

  heart_beat_reply-IsKept :
      (intn : Intn) (peer : ℕ) (reply : Option AppendEntriesReply) {rf rf' : Raft C}
      → IsKept rf
      → heart_beat_reply intn peer reply rf ≡ some rf'
      → IsKept rf'
  unfolding heart_beat_reply
  heart_beat_reply-IsKept intn peer none {rf} {rf'} k h =
      let same : rf' ≡ rf = ground arith in subst IsKept (sym same) k
  heart_beat_reply-IsKept intn peer (some reply) {rf} {rf'} k h = elim (Bool-cases (killed rf)) [
    | inl dead ↦ let same : rf' ≡ rf = ground arith in subst IsKept (sym same) k
    | inr alive ↦
        IsSound-IsKept (heart_beat_reply-IsSound intn peer (some reply) (IsKept-IsSound alive k) h)
  ]

  pub Step-IsKept : {rf rf' : Raft C} (st : Step rf rf') → StepRespects st → IsKept rf → IsKept rf'
  Step-IsKept (votes intn args h) r k = request_vote-IsKept intn args k h
  Step-IsKept (votes_late intn args dead h) r k = request_vote-late intn args k h
  Step-IsKept (appends intn args h) r k = append_entries-IsKept intn args r k h
  Step-IsKept (appends_late intn args dead h) r k = append_entries-late intn args dead r k h
  Step-IsKept (starts command) r k = start-IsKept command k
  Step-IsKept (times_out intn small) r k = check_election_timeout-IsKept intn k
  Step-IsKept (times_out_late intn dead small) r k = check_election_timeout-late intn k
  Step-IsKept (counts intn reply n) r k = vote_reply-IsKept intn reply n k
  Step-IsKept leads r k = lead-IsKept k
  Step-IsKept restarts r k = restart_heart_beat-IsKept k
  Step-IsKept (hears intn peer reply h) r k = heart_beat_reply-IsKept intn peer reply k h
  Step-IsKept (hears_late intn peer reply dead h) r k =
      heart_beat_reply-late intn peer reply dead k h
  Step-IsKept beats r k = handle_leader-IsKept k
  Step-IsKept (beats_late dead) r k = handle_leader-late k
  Step-IsKept takes_tick r k = ground arith
  Step-IsKept election_fires r k = ground arith
  Step-IsKept heart_beat_fires r k = ground arith
  Step-IsKept dies r k = kill-IsKept k

  -- In every state that a peer reaches by its steps, where no AppendEntries request contradicts what
  -- the peer has committed and no election is started in a term of 2 ^ 63 - 1 or more: the last
  -- applied position lies in the log and is at most the commit index, the service has been sent
  -- exactly the entries up to it, each once and in the order of the log, and as long as the peer is
  -- not killed it is the commit index.
  pub Reach-IsKept : {intn : Intn} {peers me : ℕ} {rf : Raft C} → Reach intn peers me rf → IsKept rf
  Reach-IsKept {intn} {peers} {me} made = make-IsKept intn peers me
  Reach-IsKept (next r st respects) = Step-IsKept st respects (Reach-IsKept r)
