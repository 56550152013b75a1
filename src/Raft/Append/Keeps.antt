-- ===== src/Raft/Append/Keeps.antt =====
-- Entries that agree with what is committed leave the committed part of the log alone.
use cs.Prelude.{
  ℕ, suc, ◌+◌, ◌<◌, ◌≡◌, sym, ap, ◌∙◌, some, List, take, drop, length, Option-cases, take-append,
  take-take, length-take, take-drop_one, arith, inl, inr,
}
use cs.Raft.State.{LogEntry}
use cs.Raft.Append.{find_point, install}

module _ {C : Type 0} where
  -- No committed entry conflicts with the new ones.
  abbrev pub KeepsCommitted : List (LogEntry C) → ℕ → List (LogEntry C) → ℕ → Type 0
  KeepsCommitted log prev entries commit =
      (point : ℕ) → find_point log (prev + 1) entries ≡ some point → commit < point

  pub install-keeps :
      (log : List (LogEntry C)) (prev : ℕ) (entries : List (LogEntry C)) (commit : ℕ)
      → commit < length log
      → KeepsCommitted log prev entries commit
      → take (suc commit) (install log prev entries) ≡ take (suc commit) log
  unfolding install
  install-keeps log prev entries commit lt keeps =
      elim (Option-cases (find_point log (prev + 1) entries)) [
        | inl quiet ↦ rw (quiet, install)
        | inr (point, found) ↦
            let above = keeps point found in
            rw (found, install)
              (take-append (suc commit) (take point log) _ (omega (arith, length-take point log))
                ∙ take-take (suc commit) point log above)
      ]

  pub install-keeps_length :
      (log : List (LogEntry C)) (prev : ℕ) (entries : List (LogEntry C)) (commit : ℕ)
      → commit < length log
      → KeepsCommitted log prev entries commit
      → commit < length (install log prev entries)
  install-keeps_length log prev entries commit lt keeps = omega (
    arith,
    length-take (suc commit) (install log prev entries),
    length-take (suc commit) log,
    ap length (install-keeps log prev entries commit lt keeps),
  )

  pub install-keeps_tail :
      (log : List (LogEntry C)) (prev : ℕ) (entries : List (LogEntry C)) (commit : ℕ)
      → commit < length log
      → KeepsCommitted log prev entries commit
      → take commit (drop 1 (install log prev entries)) ≡ take commit (drop 1 log)
  install-keeps_tail log prev entries commit lt keeps =
      sym (take-drop_one commit (install log prev entries))
      ∙ ap (drop 1) (install-keeps log prev entries commit lt keeps)
      ∙ take-drop_one commit log
