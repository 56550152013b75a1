-- ===== src/Raft/Cluster/Kept.antt =====
-- What the steps of a cluster do to a peer's log, and what a heartbeat carries of it.
use cs.Prelude.{
  ℕ, zero, suc, ◌≡◌, ◌⊎◌, inl, inr, refl, sym, Bool-cases, true, false, Option, none, some, List,
  [], ◌∷◌, ◌++◌, get_elem?, drop, Option-cases, arith,
}
use cs.Prelude.Int.{ℤ, pos, negsuc}
use cs.Raft.State.{
  Raft, Role, LogEntry, AppendEntriesArgs, AppendEntriesReply, RequestVoteArgs, RequestVoteReply,
  Intn, is_leader, killed, kill, turn_follower,
}
use cs.Raft.Apply.{applymsg}
use cs.Raft.Vote.{request_vote}
use cs.Raft.Append.{append_entries}
use cs.Raft.Append.Answer.{append_entries-dead, append_entries-refused}
use cs.Raft.Leader.{
  start, heart_beat_args, entries_from, heart_beat_reply, record_success, record_failure,
  handle_leader,
}
use cs.Raft.Election.{check_election_timeout, vote_reply}
use cs.Raft.Cluster.{
  Handles, denies, ignores, loses, is_denied, hears, beats, election_fires, heart_beat_fires, dies,
}

module _ {C : Type 0} where
  applymsg-log : (rf rf' : Raft C) → applymsg rf ≡ some rf' → rf'.log ≡ rf.log
  unfolding applymsg
  applymsg-log rf rf' h = ground arith

  record_success-log :
      (peer : ℕ) (rf rf' : Raft C) → record_success peer rf ≡ some rf' → rf'.log ≡ rf.log
  unfolding record_success
  record_success-log peer rf rf' h = applymsg-log _ rf' h

  record_failure-log :
      (peer : ℕ) (rf rf' : Raft C) → record_failure peer rf ≡ some rf' → rf'.log ≡ rf.log
  unfolding record_failure
  record_failure-log peer rf rf' h = ground arith

  request_vote-log :
      (intn : Intn) (args : RequestVoteArgs) (rf rf' : Raft C) (reply : RequestVoteReply)
      → request_vote intn args rf ≡ some (rf', reply)
      → rf'.log ≡ rf.log
  unfolding request_vote
  request_vote-log intn args rf rf' reply h = ground arith

  heart_beat_reply-log :
      (intn : Intn) (peer : ℕ) (reply : Option AppendEntriesReply) (rf rf' : Raft C)
      → heart_beat_reply intn peer reply rf ≡ some rf'
      → rf'.log ≡ rf.log
  unfolding heart_beat_reply turn_follower
  heart_beat_reply-log intn peer none rf rf' h = ground arith
  heart_beat_reply-log intn peer (some reply) rf rf' h =
      ground (arith, record_success-log peer rf rf', record_failure-log peer rf rf')

  denied-log :
      (intn : Intn) (term n : ℕ) (rf : Raft C)
      → (vote_reply intn (some (record { term = term; vote_granted = false })) n rf).0.log ≡ rf.log
  unfolding vote_reply turn_follower
  denied-log intn term n rf = ground arith

  pub timeout-log :
      (intn : Intn) (rf rf' : Raft C)
      → check_election_timeout intn rf ≡ (rf', true)
      → rf'.log ≡ rf.log
  unfolding check_election_timeout
  timeout-log intn rf rf' h = ground arith

  ignored-log :
      (command : Option C) (rf : Raft C)
      → is_leader rf.state ≡ false
      → (start command rf).0.log ≡ rf.log
  unfolding start
  ignored-log command rf h = ground arith

  pub start-log :
      (command : Option C) (rf : Raft C)
      → rf.state ≡ Role.leader
      → (start command rf).0.log
        ≡ rf.log ++ record { term = rf.current_term; command = command } ∷ []
  unfolding start
  start-log command rf h = ground arith

  pub Handles-log : {rf rf' : Raft C} → Handles rf rf' → rf'.log ≡ rf.log
  unfolding vote_reply handle_leader kill
  Handles-log (denies intn args {rf} {rf'} {reply} h no_vote) =
      request_vote-log intn args rf rf' reply h
  Handles-log (ignores command {rf} off) = ignored-log command rf off
  Handles-log (loses intn n {rf}) = refl
  Handles-log (is_denied intn term n {rf}) = denied-log intn term n rf
  Handles-log (hears intn peer reply {rf} {rf'} h) = heart_beat_reply-log intn peer reply rf rf' h
  Handles-log (beats {rf}) = ground arith
  Handles-log (election_fires {rf}) = refl
  Handles-log (heart_beat_fires {rf}) = refl
  Handles-log (dies {rf}) = refl

  -- A heartbeat that is not answered with success leaves the log.
  pub append_entries-log :
      (intn : Intn) (args : AppendEntriesArgs C) (rf rf' : Raft C) (reply : AppendEntriesReply)
      → append_entries intn args rf ≡ some (rf', reply)
      → (rf'.log ≡ rf.log) ⊎ (reply.success ≡ true)
  append_entries-log intn args rf rf' reply h = elim (Bool-cases reply.success) [
    | inl ok ↦ inr ok
    | inr bad ↦ elim (Bool-cases (killed rf)) [
      | inl dead ↦ inl (ground (arith, append_entries-dead intn args rf dead))
      | inr alive ↦ inl (append_entries-refused intn args rf rf' reply alive h bad).0
    ]
  ]

  -- What the arguments of a heartbeat are of the log that its sender had.
  pub record IsFrom (args : AppendEntriesArgs C) (log : List (LogEntry C)) (prev : ℕ) : Type 0 where
    pub behind : args.entries ≡ drop (suc prev) log
    pub entry : LogEntry C
    pub found : get_elem? log prev ≡ some entry
    pub same_term : entry.term ≡ args.prev_log_term

  entries_from-IsFrom :
      (rf : Raft C) (next : ℤ) (args : AppendEntriesArgs C) (prev : ℕ)
      → entries_from rf next ≡ some args
      → args.prev_log_index ≡ pos prev
      → IsFrom args rf.log prev
  unfolding entries_from
  entries_from-IsFrom rf (negsuc n) args prev h at = absurd (ground arith)
  entries_from-IsFrom rf (pos zero) args prev h at = absurd (ground arith)
  entries_from-IsFrom rf (pos (suc n)) args prev h at = elim (Option-cases (get_elem? rf.log n)) [
    | inl past ↦ absurd (ground arith)
    | inr (entry, found) ↦
        let same : n ≡ prev = ground arith in
        record {
          behind = rw (sym same) (ground arith);
          entry = entry;
          found = rw (sym same) found;
          same_term = ground arith;
        }
  ]

  pub heart_beat_args-IsFrom :
      (peer : ℕ) (rf : Raft C) (args : AppendEntriesArgs C) (prev : ℕ)
      → heart_beat_args peer rf ≡ some (some args)
      → args.prev_log_index ≡ pos prev
      → IsFrom args rf.log prev
  unfolding heart_beat_args
  heart_beat_args-IsFrom peer rf args prev h at =
      elim (Option-cases (get_elem? rf.next_index peer)) [
        | inl past ↦ absurd (ground arith)
        | inr (next, found) ↦ elim (Option-cases (entries_from rf next)) [
          | inl failed ↦ absurd (ground arith)
          | inr (args', made) ↦
              let same : args' ≡ args = ground arith in
              entries_from-IsFrom rf next args prev (ground arith) at
        ]
      ]
