-- ===== src/Raft/Peer.antt =====
-- One peer of mp2/src/raft as a transition system: each critical section of raft.go is a step, and
-- the messages, replies, ticks and random numbers that it meets are chosen by the environment.
-- `startElection` changes nothing; the two parts of `TurnLeader`, under the lock and after it, are
-- steps that may come at any time. `Kill` takes no lock: where it lands between a handler's look at
-- `killed` and what follows, the rest of the handler is a step of its own, a late one. No election
-- is started in the last term that an `int` holds. A panic ends the process and has no step.
pub mod Invariant
pub mod Terms
pub mod Votes
use cs.Prelude.{ℕ, ◌+◌, ◌<◌, ◌^◌, Bool, true, false, Option, some, ◌≡◌}
use cs.Raft.State.{
  Raft, AppendEntriesArgs, AppendEntriesReply, RequestVoteArgs, RequestVoteReply, Intn, killed,
  make, kill, revive, lead, restart_heart_beat,
}
use cs.Raft.Vote.{request_vote}
use cs.Raft.Append.{append_entries, append_entries_locked}
use cs.Raft.Leader.{start, heart_beat_reply, heart_beat_locked, handle_leader}
use cs.Raft.Election.{check_election_timeout, vote_reply}
use cs.Raft.Sound.Handlers.{RespectsCommitted}

-- A timer that runs out sends a tick.
abbrev pub fire_election : {C : Type 0} → Raft C → Raft C
fire_election rf = record rf {
  election_timer = record rf.election_timer { running = false; tick = true };
}

abbrev pub fire_heart_beat : {C : Type 0} → Raft C → Raft C
fire_heart_beat rf = record rf {
  heart_beat_timer = record rf.heart_beat_timer { running = false; tick = true };
}

-- `handleLeader` receives its tick; `restarts` is also the end of this call, with no lock between.
abbrev pub take_tick : {C : Type 0} → Raft C → Raft C
take_tick rf = record rf { heart_beat_timer = record rf.heart_beat_timer { tick = false } }

pub data Step {C : Type 0} : Raft C → Raft C → Type 0 where
  votes :
      (intn : Intn) (args : RequestVoteArgs) {rf rf' : Raft C} {reply : RequestVoteReply}
      → request_vote intn args rf ≡ some (rf', reply)
      → Step rf rf'
  votes_late :
      (intn : Intn) (args : RequestVoteArgs) {rf rf' : Raft C} {reply : RequestVoteReply}
      → killed rf ≡ true
      → request_vote intn args (revive rf) ≡ some (rf', reply)
      → Step rf (kill rf')
  appends :
      (intn : Intn) (args : AppendEntriesArgs C) {rf rf' : Raft C} {reply : AppendEntriesReply}
      → append_entries intn args rf ≡ some (rf', reply)
      → Step rf rf'
  appends_late :
      (intn : Intn) (args : AppendEntriesArgs C) {rf rf' : Raft C} {reply : AppendEntriesReply}
      → killed rf ≡ true
      → append_entries_locked intn args rf ≡ some (rf', reply)
      → Step rf rf'
  starts : (command : Option C) {rf : Raft C} → Step rf (start command rf).0
  times_out :
      (intn : Intn) {rf : Raft C}
      → rf.current_term + 1 < 2 ^ 63
      → Step rf (check_election_timeout intn rf).0
  times_out_late :
      (intn : Intn) {rf : Raft C}
      → killed rf ≡ true
      → rf.current_term + 1 < 2 ^ 63
      → Step rf (kill (check_election_timeout intn (revive rf)).0)
  counts :
      (intn : Intn) (reply : Option RequestVoteReply) (n : ℕ) {rf : Raft C}
      → Step rf (vote_reply intn reply n rf).0
  leads : {rf : Raft C} → Step rf (lead rf)
  restarts : {rf : Raft C} → Step rf (restart_heart_beat rf)
  hears :
      (intn : Intn) (peer : ℕ) (reply : Option AppendEntriesReply) {rf rf' : Raft C}
      → heart_beat_reply intn peer reply rf ≡ some rf'
      → Step rf rf'
  hears_late :
      (intn : Intn) (peer : ℕ) (reply : AppendEntriesReply) {rf rf' : Raft C}
      → killed rf ≡ true
      → heart_beat_locked intn peer reply rf ≡ some rf'
      → Step rf rf'
  beats : {rf : Raft C} → Step rf (handle_leader rf)
  beats_late : {rf : Raft C} → killed rf ≡ true → Step rf (kill (handle_leader (revive rf)))
  takes_tick : {rf : Raft C} → Step rf (take_tick rf)
  election_fires : {rf : Raft C} → Step rf (fire_election rf)
  heart_beat_fires : {rf : Raft C} → Step rf (fire_heart_beat rf)
  dies : {rf : Raft C} → Step rf (kill rf)

-- An `AppendEntries` request that contradicts nothing that the peer has committed.
abbrev pub StepRespects : {C : Type 0} {rf rf' : Raft C} → Step rf rf' → Type 0
StepRespects (appends intn args {rf} h) = RespectsCommitted args rf
StepRespects (appends_late intn args {rf} dead h) = RespectsCommitted args rf
StepRespects _ = Unit

-- The states that a peer can reach from `make` by such requests and any other steps.
pub data Reach {C : Type 0} (intn : Intn) (peers me : ℕ) : Raft C → Type 0 where
  made : Reach intn peers me (make intn peers me)
  next :
      {rf rf' : Raft C}
      → Reach intn peers me rf
      → (st : Step rf rf') → StepRespects st
      → Reach intn peers me rf'
