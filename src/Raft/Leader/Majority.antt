-- ===== src/Raft/Leader/Majority.antt =====
-- The commit index after a successful reply: the highest position that a majority has.
use cs.Prelude.{
  ℕ, zero, suc, ◌≤◌, ◌<◌, ◌≡◌, ◌⊎◌, inl, inr, refl, true, false, List, ltb, arith, Bool-cases,
  dec_le, subst,
}
use cs.Raft.Leader.{has_majority, advance}

-- What the loop is to find: `r` is `commit`, or a later position up to `n` that a majority of the
-- peers has; and no position between `r` and `n` has one.
pub record IsHighest (peers : ℕ) (matches : List ℕ) (commit n r : ℕ) : Type 0 where
  pub grows : commit ≤ r
  pub backed : (r ≡ commit) ⊎ ((r ≤ n) × (has_majority peers matches r ≡ true))
  pub highest : (i : ℕ) → r < i → i ≤ n → has_majority peers matches i ≡ false

module _ (peers : ℕ) (matches : List ℕ) (commit : ℕ) where
  advance-stop : (n : ℕ) → ltb commit n ≡ false → advance peers matches commit n ≡ commit
  unfolding advance
  advance-stop zero h = refl
  advance-stop (suc n) h = ground arith

  advance-found :
      (n : ℕ)
      → ltb commit (suc n) ≡ true
      → has_majority peers matches (suc n) ≡ true
      → advance peers matches commit (suc n) ≡ suc n
  unfolding advance
  advance-found n h k = ground arith

  advance-next :
      (n : ℕ)
      → ltb commit (suc n) ≡ true
      → has_majority peers matches (suc n) ≡ false
      → advance peers matches commit (suc n) ≡ advance peers matches commit n
  unfolding advance
  advance-next n h k = ground arith

  IsHighest-stop : (n : ℕ) → n ≤ commit → IsHighest peers matches commit n commit
  IsHighest-stop n h = record {
    grows = omega arith;
    backed = inl refl;
    highest = λ i lo hi. absurd (omega arith);
  }

  IsHighest-found :
      (n : ℕ)
      → commit ≤ n
      → has_majority peers matches n ≡ true
      → IsHighest peers matches commit n n
  IsHighest-found n h k = record {
    grows = h;
    backed = inr (omega arith, k);
    highest = λ i lo hi. absurd (omega arith);
  }

  IsHighest-next :
      (n r : ℕ)
      → has_majority peers matches (suc n) ≡ false
      → IsHighest peers matches commit n r
      → IsHighest peers matches commit (suc n) r
  IsHighest-next n r k h = record {
    grows = h.grows;
    backed = elim h.backed [ inl e ↦ inl e | inr (le, most) ↦ inr (omega arith, most) ];
    highest = λ i lo hi. elim (dec_le i n) [
      | yes le ↦ h.highest i lo le
      | no gt ↦
          let last : suc n ≡ i = omega arith in
          subst (λ j. has_majority peers matches j ≡ false) last k
    ];
  }

  -- The loop from `n` down finds the highest position above the commit index and up to `n` that
  -- more than half of the peers have, and leaves the commit index where there is none.
  pub advance-IsHighest :
      (n : ℕ) → IsHighest peers matches commit n (advance peers matches commit n)
  advance-IsHighest zero = unfold advance in IsHighest-stop 0 (omega arith)
  advance-IsHighest (suc n) = elim (Bool-cases (ltb commit (suc n))) [
    | inl more ↦ elim (Bool-cases (has_majority peers matches (suc n))) [
      | inl most ↦ rw (advance-found n more most) (IsHighest-found (suc n) (ground arith) most)
      | inr few ↦ rw (advance-next n more few) (IsHighest-next n _ few (advance-IsHighest n))
    ]
    | inr done ↦ rw (advance-stop (suc n) done) (IsHighest-stop (suc n) (ground arith))
  ]
