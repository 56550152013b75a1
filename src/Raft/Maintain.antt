-- ===== src/Raft/Maintain.antt =====
-- mp2/src/raft/raft.go `maintain`: the loop that runs a peer's timeouts, and where it waits. While
-- it waits in `handleLeader`, the peer still answers messages.
pub mod Waits
use cs.Prelude.{ℕ, Bool, true, false, Option, some, ◌≡◌, if◌then◌else◌}
use cs.Raft.State.{
  Raft, AppendEntriesArgs, AppendEntriesReply, RequestVoteArgs, RequestVoteReply, Intn, is_leader,
  is_follower, killed, reset_timer, heartbeat_interval,
}
use cs.Raft.Vote.{request_vote}
use cs.Raft.Append.{append_entries}
use cs.Raft.Leader.{heart_beat_reply}
use cs.Raft.Election.{check_election_timeout}
use cs.Raft.Peer.{
  Step, times_out, times_out_late, leads, restarts, beats, beats_late, takes_tick, heart_beat_fires,
}

-- At the head of the loop, in the `select` of `handleLeader`, or behind the loop.
pub data Place : Type 0 where
  head in_handle_leader ended : Place

module _ {C : Type 0} where
  -- What the loop does next. In `handleLeader` it goes on only with a tick.
  unfoldable pub maintain : Intn → Place → Raft C → Place × Raft C
  maintain intn Place.head rf =
      if killed rf
      then (Place.ended, rf)
      else if is_leader rf.state
      then (Place.in_handle_leader, rf)
      else (Place.head, (check_election_timeout intn rf).0)
  maintain intn Place.in_handle_leader rf =
      if rf.heart_beat_timer.tick
      then (
        Place.head,
        record rf {
          heart_beat_timer =
              reset_timer (record rf.heart_beat_timer { tick = false }) heartbeat_interval;
        },
      )
      else (Place.in_handle_leader, rf)
  maintain intn Place.ended rf = (Place.ended, rf)

  -- A leader becomes a follower: by a vote request, by another leader's heartbeat, or by a reply to
  -- its own.
  pub data StepsDown (intn : Intn) (rf : Raft C) : Raft C → Type 0 where
    asked :
        (args : RequestVoteArgs) {rf' : Raft C} {reply : RequestVoteReply}
        → request_vote intn args rf ≡ some (rf', reply)
        → is_follower rf'.state ≡ true
        → StepsDown intn rf rf'
    told :
        (args : AppendEntriesArgs C) {rf' : Raft C} {reply : AppendEntriesReply}
        → append_entries intn args rf ≡ some (rf', reply)
        → is_follower rf'.state ≡ true
        → StepsDown intn rf rf'
    answered :
        (peer : ℕ) (reply : Option AppendEntriesReply) {rf' : Raft C}
        → heart_beat_reply intn peer reply rf ≡ some rf'
        → is_follower rf'.state ≡ true
        → StepsDown intn rf rf'

  -- What may happen to a peer while its loop waits: all steps but those that the loop itself takes
  -- and the two of `TurnLeader`. The heartbeat timer ticks only if it runs.
  abbrev pub Allowed : {rf rf' : Raft C} → Step rf rf' → Type 0
  Allowed (times_out intn small) = ⊥
  Allowed (times_out_late intn dead small) = ⊥
  Allowed leads = ⊥
  Allowed restarts = ⊥
  Allowed beats = ⊥
  Allowed (beats_late dead) = ⊥
  Allowed takes_tick = ⊥
  Allowed (heart_beat_fires {rf}) = rf.heart_beat_timer.running ≡ true
  Allowed _ = Unit

  pub data Meanwhile (rf : Raft C) : Raft C → Type 0 where
    at_once : Meanwhile rf rf
    then_ :
        {rf' rf'' : Raft C}
        → Meanwhile rf rf'
        → (st : Step rf' rf'') → Allowed st
        → Meanwhile rf rf''
