-- ===== src/Raft/Append.antt =====
-- mp2/src/raft/raft.go `AppendEntries`: a follower's handling of a heartbeat.
pub mod Merge
pub mod Keeps
pub mod Answer
use cs.Prelude.{
  ℕ, suc, ◌+◌, ◌-◌, Bool, true, false, Option, none, some, List, [], ◌∷◌, ◌++◌, length, get_elem?,
  take, drop, ltb, ◌==◌, not, if◌then◌else◌,
}
use cs.Prelude.Int.{ℤ, pos, negsuc}
use cs.Raft.State.{
  Raft, LogEntry, AppendEntriesArgs, AppendEntriesReply, Intn, is_follower, killed, turn_follower,
  reset_timer, random_timeout_val, election_timeout_min, election_timeout_max,
}
use cs.Raft.Apply.{applymsg}

-- mp2/src/raft/util.go `Min`.
abbrev pub min_int : ℕ → ℕ → ℕ
min_int a b = if ltb a b then a else b

-- The zero value that the caller passes in.
abbrev pub no_reply : AppendEntriesReply
no_reply = record { term = 0; success = false }

module _ {C : Type 0} where
  -- Past the end of the log, or another term there.
  abbrev pub conflicts : List (LogEntry C) → ℕ → LogEntry C → Bool
  conflicts log i entry = elim (get_elem? log i) [
    | none ↦ true
    | some old ↦ not (old.term == entry.term)
  ]

  -- `point`: the first position, from `i` on, that conflicts with the new entries.
  unfoldable pub find_point : List (LogEntry C) → ℕ → List (LogEntry C) → Option ℕ
  find_point log i [] = none
  find_point log i (entry ∷ entries) = elim (conflicts log i entry) [
    | true ↦ some i
    | false ↦ find_point log (suc i) entries
  ]

  -- The log after steps 6 and 7, for entries that follow position `prev`.
  unfoldable pub install : List (LogEntry C) → ℕ → List (LogEntry C) → List (LogEntry C)
  install log prev entries = elim (find_point log (prev + 1) entries) [
    | none ↦ log
    | some point ↦ take point log ++ drop (point - 1 - prev) entries
  ]

  -- Steps 2 to 4: the term, the role and the election timer.
  unfoldable pub step_down : Intn → AppendEntriesArgs C → Raft C → Raft C
  unfolding turn_follower
  step_down intn args rf =
      let rf' =
        if ltb rf.current_term args.term
        then record rf { current_term = args.term; voted_for = none }
        else rf in
      let rf'' = if is_follower rf.state then rf' else turn_follower intn args.term none rf' in
      record rf'' {
        election_timer =
            reset_timer rf''.election_timer
              (random_timeout_val intn election_timeout_min election_timeout_max);
      }

  -- Steps 6 to 8 up to the call of `applymsg`, for entries that follow position `prev`.
  abbrev pub take_over : AppendEntriesArgs C → ℕ → Raft C → Raft C
  take_over args prev rf =
      let log' = install rf.log prev args.entries in
      record rf {
        log = log';
        commit_index =
            if ltb rf.commit_index args.leader_commit
            then min_int (length log') args.leader_commit
            else rf.commit_index;
      }

  unfoldable pub accept : AppendEntriesArgs C → ℕ → Raft C → Option (Raft C × AppendEntriesReply)
  accept args prev rf = elim (applymsg (take_over args prev rf)) [
    | none ↦ none
    | some rf' ↦ some (rf', record { term = 0; success = true })
  ]

  abbrev pub refusal : Raft C → Raft C × AppendEntriesReply
  refusal rf = (rf, record { term = rf.current_term; success = false })

  -- Step 5. A negative position is past no end of the log, so it is read, which panics.
  unfoldable pub check_prev :
      AppendEntriesArgs C → ℤ → Raft C → Option (Raft C × AppendEntriesReply)
  check_prev args (negsuc n) rf = none
  check_prev args (pos prev) rf = elim (get_elem? rf.log prev) [
    | none ↦ some (refusal rf)
    | some entry ↦
        if entry.term == args.prev_log_term then accept args prev rf else some (refusal rf)
  ]

  -- The part under the lock, behind the first look at `killed`; `applymsg` looks again.
  abbrev pub append_entries_locked :
      Intn → AppendEntriesArgs C → Raft C → Option (Raft C × AppendEntriesReply)
  append_entries_locked intn args rf =
      if ltb args.term rf.current_term
      then some (refusal rf)
      else check_prev args args.prev_log_index (step_down intn args rf)

  -- A call with no `Kill` within it.
  unfoldable pub append_entries :
      Intn → AppendEntriesArgs C → Raft C → Option (Raft C × AppendEntriesReply)
  append_entries intn args rf =
      if killed rf then some (rf, no_reply) else append_entries_locked intn args rf
