-- ===== src/Raft/Apply.antt =====
-- mp2/src/raft/raft.go `applymsg`: handing committed entries to the service.
pub mod Order
use cs.Prelude.{
  ℕ, zero, suc, ◌+◌, ◌-◌, true, Option, none, some, List, [], ◌∷◌, ◌++◌, get_elem?, if◌then◌else◌,
}
use cs.Raft.State.{Raft, LogEntry, ApplyMsg, killed}

module _ {C : Type 0} where
  abbrev pub apply_msg : LogEntry C → ℕ → ApplyMsg C
  apply_msg e i = record { command_valid = true; command = e.command; command_index = i }

  -- The messages of the loop from its counter `n` down to 1; `none` is a read past the log.
  unfoldable pub apply_loop : List (LogEntry C) → ℕ → ℕ → Option (List (ApplyMsg C))
  apply_loop log commit zero = some []
  apply_loop log commit (suc n) = elim (get_elem? log (commit + 1 - suc n)) [
    | none ↦ none
    | some e ↦ elim (apply_loop log commit n) [
      | none ↦ none
      | some msgs ↦ some (apply_msg e (commit + 1 - suc n) ∷ msgs)
    ]
  ]

  unfoldable pub applymsg : Raft C → Option (Raft C)
  applymsg rf =
      if killed rf
      then some rf
      else elim (apply_loop rf.log rf.commit_index (rf.commit_index - rf.last_applied)) [
        | none ↦ none
        | some msgs ↦
            some
              (record rf { apply_msg_ch = rf.apply_msg_ch ++ msgs; last_applied = rf.commit_index })
      ]
