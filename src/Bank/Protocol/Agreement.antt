-- ===== src/Bank/Protocol/Agreement.antt =====
-- The commit of one transaction at all branches, or at none.
pub mod Steps
pub mod Votes
pub mod Answers
pub mod Begins
pub mod Runs
pub mod Atomic
use cs.Prelude.{
  ℕ, suc, ◌+◌, ◌<◌, ◌≤◌, ◌≡◌, ◌≢◌, ◌⊎◌, inl, inr, refl, sym, ◌∙◌, ap, subst, Bool, true, false,
  Option, none, some, List, [], ◌∷◌, ◌++◌, ◌&&◌, ◌==◌, ==_iff, length, count, All, In, Bool-cases,
  arith, if◌then◌else◌,
}
use cs.Prelude.Int.{ℤ}
use cs.Prelude.Text.{Text, codes, text_eq, text_eq→eq, text_eq_refl, join, format_int}
use cs.Prelude.Dict.{lookup}
use cs.Bank.Branch.{message}
use cs.Bank.Protocol.{
  branches, Packet, System, prepare_text, ready_text, ok_text, refused_text, abort_text,
}
use cs.Bank.Protocol.Sends.{IsWired, Spread, count-none}
use cs.Bank.Protocol.Counting.{one_if, occurs}
use cs.Bank.Protocol.Kinds.{asks, answers, says}

-- Questions come from the coordinator, and answers go to it.
pub record IsRouted (ts : ℤ) (c : ℕ) (p : Packet) : Type 0 where
  pub asked : p.text ≡ prepare_text ts → (p.sender ≡ c) × (p.receiver ≢ c) × (p.receiver < branches)
  pub answered : p.text ≡ ready_text ts → (p.receiver ≡ c) × (p.sender ≢ c) × (p.sender < branches)

pub record IsAtomic (ts : ℤ) (c : ℕ) (s : System) : Type 0 where
  pub wired : (i : ℕ) → IsWired i (s.server i)
  pub idle :
      s.begun ≡ false
      → (s.net ≡ []) × (s.counted ≡ []) × (s.committed ≡ []) × (s.refusing ≡ []) × (s.aborted ≡ [])
  pub routed : (p : Packet) → In p s.net → IsRouted ts c p
  pub once :
      (j : ℕ)
      → j ≢ c
      → count (asks ts j) s.net
          + count (answers ts j) s.net
          + occurs j s.counted
          + occurs j s.refusing
          + occurs c s.refusing
        ≤ 1
  pub said : (j : ℕ) → 0 < count (answers ts j) s.net + occurs j s.counted → 0 < occurs j s.ready
  pub tally :
      s.begun ≡ true → lookup (format_int ts) (s.server c).commit_count ≡ some (length s.counted)
  pub others : All (λ j. (j < branches) × (j ≢ c)) s.counted
  pub losers : All (λ j. j < branches) s.refusing
  pub own : s.begun ≡ true → (0 < occurs c s.ready) ⊎ (0 < occurs c s.refusing)
  pub decided : 0 < count (says (ok_text ts)) s.net + length s.committed → 4 ≤ length s.counted
  pub lost :
      0
        < count (says (abort_text ts)) s.net
          + count (says (refused_text ts)) s.net
          + length s.aborted
      → 0 < length s.refusing
