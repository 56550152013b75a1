-- ===== src/Raft/Races.antt =====
-- Orders of raft.go's critical sections that its locks allow.
use cs.Prelude.{
  ℕ, suc, ◌+◌, ◌-◌, ◌/◌, ◌<◌, ◌≤◌, ◌≡◌, true, false, Option, none, some, ltb, length, get_elem?,
  arith, sym, ◌∙◌, get_elem?-set_self, length-append, length-set, [], ◌∷◌,
}
use cs.Raft.State.{
  Raft, Role, AppendEntriesArgs, AppendEntriesReply, RequestVoteArgs, RequestVoteReply, Intn,
  killed, turn_leader,
}
use cs.Raft.Apply.Order.{applymsg-frame}
use cs.Raft.Vote.{request_vote}
use cs.Raft.Append.{step_down, append_entries}
use cs.Raft.Append.Answer.{append_entries-current}
use cs.Raft.Leader.{start, record_success, heart_beat_reply}
use cs.Raft.Election.{check_election_timeout, vote_reply}
use cs.Raft.Peer.{fire_election}
use cs.Raft.Peer.Terms.{check_prev-frame}

module _ {C : Type 0} where
  -- A live candidate that lacks one vote for a majority when its election times out again: a vote
  -- of the first election that arrives then makes it the leader of a later term than the one the
  -- vote was given in.
  pub stale_vote_leads :
      (intn : Intn) (votes : ℕ) (rf : Raft C)
      → killed rf ≡ false
      → rf.peers / 2 < votes + 1
      → let first = (check_election_timeout intn (fire_election rf)).0 in
        let second = (check_election_timeout intn (fire_election first)).0 in
        let late : RequestVoteReply = record { term = first.current_term; vote_granted = true } in
        let (after, n, leads) = vote_reply intn (some late) votes second in
        (first.current_term < after.current_term) × (after.state ≡ Role.leader) × (leads ≡ true)
  unfolding check_election_timeout vote_reply
  stale_vote_leads intn votes rf alive most = ground arith

  step_down-forgets :
      (intn : Intn) (args : AppendEntriesArgs C) (rf : Raft C)
      → rf.state ≡ Role.candidate
      → args.term ≡ rf.current_term
      → ((step_down intn args rf).voted_for ≡ none)
        × ((step_down intn args rf).current_term ≡ rf.current_term)
  unfolding step_down
  step_down-forgets intn args rf candidate same = ground arith

  -- A live candidate that hears from a leader of its own term, and does not panic, has no vote
  -- recorded for that term any more.
  pub append_entries-forgets_vote :
      (intn : Intn) (args : AppendEntriesArgs C) (rf rf' : Raft C) (reply : AppendEntriesReply)
      → killed rf ≡ false
      → rf.state ≡ Role.candidate
      → args.term ≡ rf.current_term
      → append_entries intn args rf ≡ some (rf', reply)
      → (rf'.voted_for ≡ none) × (rf'.current_term ≡ rf.current_term)
  append_entries-forgets_vote intn args rf rf' reply alive candidate same h =
      let current : ltb args.term rf.current_term ≡ false = ground arith in
      let down = step_down-forgets intn args rf candidate same in
      let frame =
        check_prev-frame args args.prev_log_index (step_down intn args rf) rf' reply
          (sym (append_entries-current intn args rf alive current) ∙ h) in
      (frame.1 ∙ down.0, frame.0 ∙ down.1)

  -- A live peer that was just elected and then answers a vote request of a newer term is a
  -- follower of that term; `TurnLeader`, which still follows, makes it the leader of that newer
  -- term.
  pub turn_leader-newer_term :
      (intn : Intn) (args : RequestVoteArgs) (rf rf' : Raft C) (reply : RequestVoteReply)
      → killed rf ≡ false
      → rf.state ≡ Role.leader
      → rf.current_term < args.term
      → request_vote intn args rf ≡ some (rf', reply)
      → (rf'.state ≡ Role.follower)
        × ((turn_leader rf').state ≡ Role.leader)
        × ((turn_leader rf').current_term ≡ args.term)
  unfolding request_vote turn_leader
  turn_leader-newer_term intn args rf rf' reply alive leads newer h = ground arith

  record_success-match :
      (peer : ℕ) (rf rf' : Raft C)
      → peer < length rf.match_index
      → record_success peer rf ≡ some rf'
      → get_elem? rf'.match_index peer ≡ some (length rf.log - 1)
  unfolding record_success
  record_success-match peer rf rf' lt h =
      let frame = applymsg-frame _ rf' h in
      rw frame.3 (get_elem?-set_self rf.match_index peer (length rf.log - 1) lt)

  heart_beat_reply-success :
      (intn : Intn) (peer : ℕ) (reply : AppendEntriesReply) (rf : Raft C)
      → killed rf ≡ false
      → rf.state ≡ Role.leader
      → reply.term ≤ rf.current_term
      → reply.success ≡ true
      → heart_beat_reply intn peer (some reply) rf ≡ record_success peer rf
  unfolding heart_beat_reply
  heart_beat_reply-success intn peer reply rf alive leads le ok = ground arith

  start_fields :
      (command : Option C) (rf : Raft C)
      → rf.state ≡ Role.leader
      → (length (start command rf).0.log ≡ suc (length rf.log))
        × (length (start command rf).0.match_index ≡ length rf.match_index)
        × ((start command rf).0.current_term ≡ rf.current_term)
        × ((start command rf).0.state ≡ Role.leader)
        × ((start command rf).0.dead ≡ rf.dead)
        × ((start command rf).1.0 ≡ some (length rf.log))
  unfolding start
  start_fields command rf leads = ground (
    arith,
    length-append rf.log (record { term = rf.current_term; command = command } ∷ []),
    length-set rf.match_index rf.me (length rf.log),
  )

  -- A command that a live leader starts while a heartbeat is under way counts as replicated on
  -- the peer that then answers with success and no newer term: that peer's `matchIndex` becomes
  -- the command's position, although the request was made before the command was in the log.
  pub heart_beat_reply-overcounts :
      (intn : Intn) (peer : ℕ) (command : Option C) (reply : AppendEntriesReply) (rf rf' : Raft C)
      → killed rf ≡ false
      → rf.state ≡ Role.leader
      → peer < length rf.match_index
      → reply.term ≤ rf.current_term
      → reply.success ≡ true
      → heart_beat_reply intn peer (some reply) (start command rf).0 ≡ some rf'
      → get_elem? rf'.match_index peer ≡ (start command rf).1.0
  heart_beat_reply-overcounts intn peer command reply rf rf' alive leads lt le ok h =
      let f = start_fields command rf leads in
      let done =
        heart_beat_reply-success intn peer reply (start command rf).0 (rw f.4 alive) f.3 (rw f.2 le)
          ok in
      let matched = record_success-match peer (start command rf).0 rf' (rw f.1 lt) (sym done ∙ h) in
      ground arith
