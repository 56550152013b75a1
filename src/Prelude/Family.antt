-- ===== src/Prelude/Family.antt =====
-- Functions of a number that stand for arrays of states, changed at one place.
use Prim.Native.Nat.{ℕ}
use mathlib.Core.Path.{◌≡◌, refl, subst}
use mathlib.Core.Logic.{◌≢◌, inl, inr}
use mathlib.Core.Bool.{true, false}
use native.Mathlib.Omega.{arith}
use cs.Prelude.Tests.{◌==◌, ==_iff, Bool-cases, if◌then◌else◌}

module _ {A : Type 0} where
  abbrev pub update : (ℕ → A) → ℕ → A → ℕ → A
  update f i v j = if i == j then v else f j

  pub update_self : (f : ℕ → A) (i : ℕ) (v : A) → update f i v i ≡ v
  update_self f i v = let same : (i == i) ≡ true = ground arith in rw same refl

  pub update_other : (f : ℕ → A) (i : ℕ) (v : A) (j : ℕ) → i ≢ j → update f i v j ≡ f j
  update_other f i v j ne = let other : (i == j) ≡ false = ground arith in rw other refl

  pub update-elim :
      (f : ℕ → A) (i : ℕ) (v : A) (P : ℕ → A → Type 0)
      → P i v
      → ((j : ℕ) → i ≢ j → P j (f j))
      → (j : ℕ) → P j (update f i v j)
  update-elim f i v P here rest j = elim (Bool-cases (i == j)) [
    | inl same ↦ rw same (subst (λ k. P k v) ((==_iff i j).0 same) here)
    | inr other ↦ rw other (rest j (λ e. ground (arith, other, e)))
  ]
