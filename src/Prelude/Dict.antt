-- ===== src/Prelude/Dict.antt =====
-- Go maps keyed by text, as association lists. The order of a list stands for the order in which
-- `range` visits the keys, which Go leaves open.
use mathlib.Core.Path.{◌≡◌, refl, ◌∙◌}
use mathlib.Core.Logic.{inl, inr}
use mathlib.Core.Option.{Option, none, some}
use mathlib.Core.List.{List, [], ◌∷◌}
use native.Mathlib.Omega.{arith}
use cs.Prelude.Tests.{Bool-cases, if◌then◌else◌}
use cs.Prelude.Text.{Text, text_eq, text_eq_iff, text_eq_refl}

abbrev pub Dict {ℓ} : Type ℓ → Type ℓ
Dict V = List (Text × V)

module _ {ℓ} {V : Type ℓ} where
  unfoldable pub lookup : Text → Dict V → Option V
  lookup k [] = none
  lookup k ((j, v) ∷ m) = if text_eq j k then some v else lookup k m

  unfoldable pub insert : Text → V → Dict V → Dict V
  insert k v [] = (k, v) ∷ []
  insert k v ((j, w) ∷ m) = if text_eq j k then (k, v) ∷ m else (j, w) ∷ insert k v m

  -- The value at a key, or the zero value of its type.
  abbrev pub lookup_or : V → Text → Dict V → V
  lookup_or zero_value k m = elim (lookup k m) [ none ↦ zero_value | some v ↦ v ]

  pub lookup-insert :
      (k j : Text) (v : V) (m : Dict V)
      → lookup j (insert k v m) ≡ (if text_eq k j then some v else lookup j m)
  unfolding lookup insert
  lookup-insert k j v [] = refl
  lookup-insert k j v ((i, w) ∷ m) =
      ground (arith, text_eq_iff k j, text_eq_iff i k, text_eq_iff i j, lookup-insert k j v m)

  pub lookup-insert_self : (k : Text) (v : V) (m : Dict V) → lookup k (insert k v m) ≡ some v
  lookup-insert_self k v m = rw (lookup-insert, text_eq_refl k)

  -- An entry is replaced, not lost.
  pub lookup-insert_kept :
      (k j : Text) (v w : V) (m : Dict V)
      → lookup j m ≡ some w
      → (u : V) × (lookup j (insert k v m) ≡ some u)
  lookup-insert_kept k j v w m found = elim (Bool-cases (text_eq k j)) [
    | inl same ↦ (v, lookup-insert k j v m ∙ rw same refl)
    | inr other ↦ (w, lookup-insert k j v m ∙ rw other found)
  ]

  pub insert-insert : (k : Text) (v w : V) (m : Dict V) → insert k v (insert k w m) ≡ insert k v m
  unfolding insert
  insert-insert k v w [] = rw (text_eq_refl k) refl
  insert-insert k v w ((i, u) ∷ m) = ground (arith, text_eq_refl k, insert-insert k v w m)
