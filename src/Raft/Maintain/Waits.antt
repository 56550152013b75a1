-- ===== src/Raft/Maintain/Waits.antt =====
-- A leader that steps down while its loop waits for the next heartbeat.
use cs.Prelude.{
  true, ℕ, ◌≡◌, refl, false, Option, none, some, ltb, Bool-cases, inl, inr, sym, ◌∙◌, arith,
}
use cs.Prelude.Int.{ℤ, pos, negsuc}
use cs.Raft.State.{
  Raft, Role, is_follower, revive, AppendEntriesArgs, AppendEntriesReply, RequestVoteArgs,
  RequestVoteReply, Intn, killed, kill, turn_follower,
}
use cs.Raft.Apply.{applymsg}
use cs.Raft.Vote.{request_vote}
use cs.Raft.Append.{append_entries, append_entries_locked, check_prev, accept, take_over, step_down}
use cs.Raft.Append.Answer.{append_entries-dead, append_entries-stale, append_entries-current}
use cs.Raft.Leader.{start, record_success, record_failure, heart_beat_reply, heart_beat_locked}
use cs.Raft.Election.{vote_reply}
use cs.Raft.Maintain.{
  Place, maintain, StepsDown, asked, told, answered, Allowed, Meanwhile, at_once, then_,
}
use cs.Raft.Peer.{
  Step, votes, votes_late, appends, appends_late, starts, times_out, times_out_late, counts, leads,
  restarts, hears, hears_late, beats, beats_late, takes_tick, election_fires, heart_beat_fires,
  dies,
}

module _ {C : Type 0} where
  -- A follower whose heartbeat timer is stopped and has sent no tick.
  abbrev Quiet : Raft C → Type 0
  Quiet rf =
      (rf.state ≡ Role.follower)
      × (rf.heart_beat_timer.running ≡ false)
      × (rf.heart_beat_timer.tick ≡ false)

  applymsg-Quiet : (rf rf' : Raft C) → applymsg rf ≡ some rf' → Quiet rf → Quiet rf'
  unfolding applymsg
  applymsg-Quiet rf rf' h q = ground arith

  check_prev-Quiet :
      (args : AppendEntriesArgs C) (i : ℤ) (rf rf' : Raft C) (reply : AppendEntriesReply)
      → check_prev args i rf ≡ some (rf', reply)
      → Quiet rf
      → Quiet rf'
  unfolding check_prev accept
  check_prev-Quiet args (negsuc n) rf rf' reply h q = ground arith
  check_prev-Quiet args (pos prev) rf rf' reply h q =
      ground (arith, applymsg-Quiet (take_over args prev rf) rf')

  step_down-Quiet :
      (intn : Intn) (args : AppendEntriesArgs C) (rf : Raft C)
      → Quiet rf
      → Quiet (step_down intn args rf)
  unfolding step_down
  step_down-Quiet intn args rf q = ground arith

  append_entries_locked-Quiet :
      (intn : Intn) (args : AppendEntriesArgs C) (rf rf' : Raft C) (reply : AppendEntriesReply)
      → append_entries_locked intn args rf ≡ some (rf', reply)
      → Quiet rf
      → Quiet rf'
  append_entries_locked-Quiet intn args rf rf' reply h q =
      elim (Bool-cases (ltb args.term rf.current_term)) [
        | inl stale ↦ ground arith
        | inr current ↦
            check_prev-Quiet args args.prev_log_index (step_down intn args rf) rf' reply
              (rw current at h) (step_down-Quiet intn args rf q)
      ]

  append_entries-Quiet :
      (intn : Intn) (args : AppendEntriesArgs C) (rf rf' : Raft C) (reply : AppendEntriesReply)
      → append_entries intn args rf ≡ some (rf', reply)
      → Quiet rf
      → Quiet rf'
  unfolding append_entries
  append_entries-Quiet intn args rf rf' reply h q = elim (Bool-cases (killed rf)) [
    | inl dead ↦ ground (arith, append_entries-dead intn args rf dead)
    | inr alive ↦ append_entries_locked-Quiet intn args rf rf' reply (rw alive at h) q
  ]

  request_vote-Quiet :
      (intn : Intn) (args : RequestVoteArgs) (rf rf' : Raft C) (reply : RequestVoteReply)
      → request_vote intn args rf ≡ some (rf', reply)
      → Quiet rf
      → Quiet rf'
  unfolding request_vote
  request_vote-Quiet intn args rf rf' reply h q = ground arith

  heart_beat_reply-Quiet :
      (intn : Intn) (peer : ℕ) (reply : Option AppendEntriesReply) (rf rf' : Raft C)
      → heart_beat_reply intn peer reply rf ≡ some rf'
      → Quiet rf
      → Quiet rf'
  unfolding heart_beat_reply
  heart_beat_reply-Quiet intn peer none rf rf' h q = ground arith
  heart_beat_reply-Quiet intn peer (some reply) rf rf' h q = ground arith

  heart_beat_locked-Quiet :
      (intn : Intn) (peer : ℕ) (reply : AppendEntriesReply) (rf rf' : Raft C)
      → heart_beat_locked intn peer reply rf ≡ some rf'
      → Quiet rf
      → Quiet rf'
  heart_beat_locked-Quiet intn peer reply rf rf' h q = ground arith

  Step-Quiet : {rf rf' : Raft C} (st : Step rf rf') → Allowed st → Quiet rf → Quiet rf'
  unfolding start vote_reply kill
  Step-Quiet (votes intn args {rf} {rf'} {reply} h) a q =
      request_vote-Quiet intn args rf rf' reply h q
  Step-Quiet (votes_late intn args {rf} {rf'} {reply} dead h) a q =
      request_vote-Quiet intn args (revive rf) rf' reply h q
  Step-Quiet (appends intn args {rf} {rf'} {reply} h) a q =
      append_entries-Quiet intn args rf rf' reply h q
  Step-Quiet (appends_late intn args {rf} {rf'} {reply} dead h) a q =
      append_entries_locked-Quiet intn args rf rf' reply h q
  Step-Quiet (starts command) a q = ground arith
  Step-Quiet (times_out intn small) a q = absurd a
  Step-Quiet (times_out_late intn dead small) a q = absurd a
  Step-Quiet (counts intn none n) a q = q
  Step-Quiet (counts intn (some reply) n) a q = ground arith
  Step-Quiet leads a q = absurd a
  Step-Quiet restarts a q = absurd a
  Step-Quiet (hears intn peer reply {rf} {rf'} h) a q =
      heart_beat_reply-Quiet intn peer reply rf rf' h q
  Step-Quiet (hears_late intn peer reply {rf} {rf'} dead h) a q =
      heart_beat_locked-Quiet intn peer reply rf rf' h q
  Step-Quiet beats a q = absurd a
  Step-Quiet (beats_late dead) a q = absurd a
  Step-Quiet takes_tick a q = absurd a
  Step-Quiet election_fires a q = ground arith
  Step-Quiet heart_beat_fires a q = ground arith
  Step-Quiet dies a q = ground arith

  Meanwhile-Quiet : {rf rf' : Raft C} → Meanwhile rf rf' → Quiet rf → Quiet rf'
  Meanwhile-Quiet at_once q = q
  Meanwhile-Quiet (then_ m st allowed) q = Step-Quiet st allowed (Meanwhile-Quiet m q)

  request_vote-demoted :
      (intn : Intn) (args : RequestVoteArgs) (rf rf' : Raft C) (reply : RequestVoteReply)
      → rf.state ≡ Role.leader
      → rf.heart_beat_timer.tick ≡ false
      → request_vote intn args rf ≡ some (rf', reply)
      → is_follower rf'.state ≡ true
      → Quiet rf'
  unfolding request_vote
  request_vote-demoted intn args rf rf' reply led untick h down = ground arith

  step_down-demoted :
      (intn : Intn) (args : AppendEntriesArgs C) (rf : Raft C)
      → rf.state ≡ Role.leader
      → rf.heart_beat_timer.tick ≡ false
      → Quiet (step_down intn args rf)
  unfolding step_down
  step_down-demoted intn args rf led untick = ground arith

  append_entries-demoted :
      (intn : Intn) (args : AppendEntriesArgs C) (rf rf' : Raft C) (reply : AppendEntriesReply)
      → rf.state ≡ Role.leader
      → rf.heart_beat_timer.tick ≡ false
      → append_entries intn args rf ≡ some (rf', reply)
      → is_follower rf'.state ≡ true
      → Quiet rf'
  append_entries-demoted intn args rf rf' reply led untick h down = elim (Bool-cases (killed rf)) [
    | inl dead ↦ ground (arith, append_entries-dead intn args rf dead)
    | inr alive ↦ elim (Bool-cases (ltb args.term rf.current_term)) [
      | inl stale ↦ ground (arith, append_entries-stale intn args rf alive stale)
      | inr current ↦
          check_prev-Quiet args args.prev_log_index (step_down intn args rf) rf' reply
            (sym (append_entries-current intn args rf alive current) ∙ h)
            (step_down-demoted intn args rf led untick)
    ]
  ]

  applymsg-state : (rf rf' : Raft C) → applymsg rf ≡ some rf' → rf'.state ≡ rf.state
  unfolding applymsg
  applymsg-state rf rf' h = ground arith

  record_success-state :
      (peer : ℕ) (rf rf' : Raft C) → record_success peer rf ≡ some rf' → rf'.state ≡ rf.state
  unfolding record_success
  record_success-state peer rf rf' h = applymsg-state _ rf' h

  record_failure-state :
      (peer : ℕ) (rf rf' : Raft C) → record_failure peer rf ≡ some rf' → rf'.state ≡ rf.state
  unfolding record_failure
  record_failure-state peer rf rf' h = ground arith

  heart_beat_reply-demoted :
      (intn : Intn) (peer : ℕ) (reply : Option AppendEntriesReply) (rf rf' : Raft C)
      → rf.state ≡ Role.leader
      → rf.heart_beat_timer.tick ≡ false
      → heart_beat_reply intn peer reply rf ≡ some rf'
      → is_follower rf'.state ≡ true
      → Quiet rf'
  unfolding heart_beat_reply turn_follower
  heart_beat_reply-demoted intn peer none rf rf' led untick h down = ground arith
  heart_beat_reply-demoted intn peer (some reply) rf rf' led untick h down =
      ground (arith, record_success-state peer rf rf', record_failure-state peer rf rf')

  StepsDown-Quiet :
      (intn : Intn) (rf rf' : Raft C)
      → rf.state ≡ Role.leader
      → rf.heart_beat_timer.tick ≡ false
      → StepsDown intn rf rf'
      → Quiet rf'
  StepsDown-Quiet intn rf rf' led untick (asked args {reply = reply} h down) =
      request_vote-demoted intn args rf rf' reply led untick h down
  StepsDown-Quiet intn rf rf' led untick (told args {reply = reply} h down) =
      append_entries-demoted intn args rf rf' reply led untick h down
  StepsDown-Quiet intn rf rf' led untick (answered peer reply h down) =
      heart_beat_reply-demoted intn peer reply rf rf' led untick h down

  -- A leader becomes a follower, by a vote request, another leader's heartbeat or a reply to its
  -- own, while its loop waits in `handleLeader` for a tick that has not been sent. Then, whatever
  -- messages, replies, ticks and kills follow, and unless a `TurnLeader` is still to take the lock
  -- or, after it, to restart the heartbeat timer, it stays a follower and the loop waits for ever:
  -- it never looks at the election timer again.
  pub maintain-waits :
      (intn intn' : Intn) (rf rf' rf'' : Raft C)
      → rf.state ≡ Role.leader
      → rf.heart_beat_timer.tick ≡ false
      → StepsDown intn rf rf'
      → Meanwhile rf' rf''
      → (rf''.state ≡ Role.follower)
        × (maintain intn' Place.in_handle_leader rf'' ≡ (Place.in_handle_leader, rf''))
  unfolding maintain
  maintain-waits intn intn' rf rf' rf'' led untick down m =
      let q = Meanwhile-Quiet m (StepsDown-Quiet intn rf rf' led untick down) in (q.0, rw q.2 refl)
