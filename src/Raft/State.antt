-- ===== src/Raft/State.antt =====
-- mp2/src/raft/raft.go: the peer's data, its timers and its changes of role.
-- Peer numbers, log positions and terms are `ℕ`; a term that outgrows the code's `int` is not
-- modelled. `nextIndex` and `PrevLogIndex`, which the code also decrements, are `ℤ`. A panic is `none`.
use cs.Prelude.{
  ℕ, ◌+◌, ◌-◌, Bool, true, false, Option, none, some, List, [], ◌∷◌, length, get_elem?, replicate,
  ◌==◌, if◌then◌else◌,
}
use cs.Prelude.Int.{ℤ, pos, negsuc}

-- `state`: LEADER, CANDIDATE and FOLLOWER.
pub data Role : Type 0 where
  leader candidate follower : Role

abbrev pub is_leader : Role → Bool
is_leader Role.leader = true
is_leader _ = false

abbrev pub is_candidate : Role → Bool
is_candidate Role.candidate = true
is_candidate _ = false

abbrev pub is_follower : Role → Bool
is_follower Role.follower = true
is_follower _ = false

-- A `time.Timer`: whether it runs, whether a tick waits in its channel, and its duration in ms.
pub record Timer : Type 0 where
  pub running : Bool
  pub tick : Bool
  pub duration : ℕ

abbrev pub election_timeout_max : ℕ
election_timeout_max = 400

abbrev pub election_timeout_min : ℕ
election_timeout_min = 200

abbrev pub heartbeat_interval : ℕ
heartbeat_interval = 150

abbrev pub new_timer : ℕ → Timer
new_timer d = record { running = true; tick = false; duration = d }

-- `rand.Intn`, as the value that it returns for each bound in this call of a handler.
abbrev pub Intn : Type 0
Intn = ℕ → ℕ

abbrev pub random_timeout_val : Intn → ℕ → ℕ → ℕ
random_timeout_val intn lo hi = lo + intn (hi - lo)

-- `Timer.Stop` leaves a tick that has been sent where it is.
abbrev pub stop : Timer → Timer
stop t = record t { running = false }

-- Stop, drain the channel if the timer had fired, and start again.
abbrev pub reset_timer : Timer → ℕ → Timer
reset_timer t d = record {
  running = true;
  tick = if t.running then t.tick else false;
  duration = d;
}

-- `Command` is an `interface{}`, with `none` for its nil.
pub record LogEntry (C : Type 0) : Type 0 where
  pub term : ℕ
  pub command : Option C

pub record ApplyMsg (C : Type 0) : Type 0 where
  pub command_valid : Bool
  pub command : Option C
  pub command_index : ℕ

-- `peers` is the number of peers, `voted_for` has `none` for NULL, and `apply_msg_ch` holds the
-- messages that were sent on the channel so far.
pub record Raft (C : Type 0) : Type 0 where
  pub peers : ℕ
  pub me : ℕ
  pub dead : ℕ
  pub state : Role
  pub current_term : ℕ
  pub voted_for : Option ℕ
  pub log : List (LogEntry C)
  pub commit_index : ℕ
  pub last_applied : ℕ
  pub next_index : List ℤ
  pub match_index : List ℕ
  pub apply_msg_ch : List (ApplyMsg C)
  pub election_timer : Timer
  pub heart_beat_timer : Timer

pub record RequestVoteArgs : Type 0 where
  pub term : ℕ
  pub candidate_id : ℕ
  pub last_log_index : ℕ
  pub last_log_term : ℕ

pub record RequestVoteReply : Type 0 where
  pub term : ℕ
  pub vote_granted : Bool

pub record AppendEntriesArgs (C : Type 0) : Type 0 where
  pub term : ℕ
  pub leader_id : ℕ
  pub prev_log_index : ℤ
  pub prev_log_term : ℕ
  pub entries : List (LogEntry C)
  pub leader_commit : ℕ

pub record AppendEntriesReply : Type 0 where
  pub term : ℕ
  pub success : Bool

-- Reading a slice at an `int`: a negative position panics, as one past the end does.
abbrev pub index? {ℓ} : {A : Type ℓ} → List A → ℤ → Option A
index? xs (pos n) = get_elem? xs n
index? xs (negsuc n) = none

-- The last entry; the log of a peer that `make` returned is never empty.
abbrev pub last_entry {ℓ} : {A : Type ℓ} → List A → Option A
last_entry [] = none
last_entry (x ∷ []) = some x
last_entry (x ∷ y ∷ ys) = last_entry (y ∷ ys)

-- One decision on a number, or NULL.
abbrev pub is_some_eq : Option ℕ → ℕ → Bool
is_some_eq none n = false
is_some_eq (some m) n = m == n

abbrev pub is_null : Option ℕ → Bool
is_null none = true
is_null (some m) = false

module _ {C : Type 0} where
  unfoldable pub get_state : Raft C → ℕ × Bool
  get_state rf = (rf.current_term, is_leader rf.state)

  unfoldable pub kill : Raft C → Raft C
  kill rf = record rf { dead = 1 }

  -- The peer before `kill`: what a handler acts on whose only look at `killed` came before it.
  abbrev pub revive : Raft C → Raft C
  revive rf = record rf { dead = 0 }

  abbrev pub killed : Raft C → Bool
  killed rf = rf.dead == 1

  unfoldable pub turn_follower : Intn → ℕ → Option ℕ → Raft C → Raft C
  turn_follower intn term vote_for rf = record rf {
    state = Role.follower;
    current_term = term;
    voted_for = vote_for;
    heart_beat_timer = stop rf.heart_beat_timer;
    election_timer =
        reset_timer rf.election_timer
          (random_timeout_val intn election_timeout_min election_timeout_max);
  }

  unfoldable pub turn_candidate : Intn → Raft C → Raft C
  turn_candidate intn rf = record rf {
    state = Role.candidate;
    current_term = rf.current_term + 1;
    voted_for = some rf.me;
    heart_beat_timer = stop rf.heart_beat_timer;
    election_timer =
        reset_timer rf.election_timer
          (random_timeout_val intn election_timeout_min election_timeout_max);
  }

  -- The part of `TurnLeader` under the lock.
  abbrev pub lead : Raft C → Raft C
  lead rf = record rf {
    state = Role.leader;
    election_timer = stop rf.election_timer;
    next_index = replicate rf.peers (pos (length rf.log));
    match_index = replicate rf.peers 0;
  }

  -- The end of `TurnLeader`, after the lock was released.
  abbrev pub restart_heart_beat : Raft C → Raft C
  restart_heart_beat rf = record rf {
    heart_beat_timer = reset_timer rf.heart_beat_timer heartbeat_interval;
  }

  -- A whole call, with no other step between its two parts. The heartbeats that it starts are
  -- `heart_beat_args` of each other peer.
  unfoldable pub turn_leader : Raft C → Raft C
  turn_leader rf = restart_heart_beat (lead rf)

  -- `Make`, for `peers` ends.
  unfoldable pub make : Intn → ℕ → ℕ → Raft C
  make intn peers me = record {
    peers = peers;
    me = me;
    dead = 0;
    state = Role.follower;
    current_term = 0;
    voted_for = none;
    log = record { term = 0; command = none } ∷ [];
    commit_index = 0;
    last_applied = 0;
    next_index = replicate peers (pos 1);
    match_index = replicate peers 0;
    apply_msg_ch = [];
    election_timer = new_timer (random_timeout_val intn election_timeout_min election_timeout_max);
    heart_beat_timer = new_timer heartbeat_interval;
  }
