-- ===== src/Raft/Cluster/Quorum.antt =====
-- Majorities of the peers, as lists of their numbers.
use cs.Prelude.{
  ℕ, zero, suc, ◌+◌, ◌/◌, ◌≤◌, ◌<◌, ◌≡◌, ◌⊎◌, inl, inr, refl, Bool, true, false, List, [], ◌∷◌,
  ◌||◌, ltb, ◌==◌, if◌then◌else◌, length, count, All, Bool-cases, or-cases, ==_iff, subst, sym,
  arith,
}

unfoldable pub mem : ℕ → List ℕ → Bool
mem a [] = false
mem a (x ∷ xs) = a == x || mem a xs

-- No number is in the list twice.
abbrev pub NoDup : List ℕ → Type 0
NoDup [] = Unit
NoDup (x ∷ xs) = (mem x xs ≡ false) × NoDup xs

below : ℕ → List ℕ → ℕ
below n xs = count (λ x. ltb x n) xs

one_if : Bool → ℕ
one_if b = if b then 1 else 0

below-suc_fresh : (n : ℕ) (xs : List ℕ) → mem n xs ≡ false → below (suc n) xs ≡ below n xs
unfolding below mem
below-suc_fresh n [] h = refl
below-suc_fresh n (x ∷ xs) h = ground (arith, below-suc_fresh n xs)

below-suc : (n : ℕ) (xs : List ℕ) → NoDup xs → below (suc n) xs ≤ below n xs + one_if (mem n xs)
unfolding below mem one_if
below-suc n [] d = omega arith
below-suc n (x ∷ xs) d = ground (arith, below-suc n xs d.1, below-suc_fresh n xs)

below-All : (n : ℕ) (xs : List ℕ) → All (λ x. x < n) xs → below n xs ≡ length xs
unfolding below
below-All n [] h = refl
below-All n (x ∷ xs) h = ground (arith, below-All n xs h.1)

below-zero : (xs : List ℕ) → below 0 xs ≡ 0
unfolding below
below-zero [] = refl
below-zero (x ∷ xs) = ground (arith, below-zero xs)

-- Up to any number, two lists share an element or have no more elements than there are numbers.
share-below :
    (n : ℕ) (xs ys : List ℕ)
    → NoDup xs
    → NoDup ys
    → ((q : ℕ) × (mem q xs ≡ true) × (mem q ys ≡ true)) ⊎ (below n xs + below n ys ≤ n)
share-below zero xs ys d e = inr (omega (arith, below-zero xs, below-zero ys))
share-below (suc n) xs ys d e = elim (share-below n xs ys d e) [
  | inl shared ↦ inl shared
  | inr few ↦ elim (Bool-cases (mem n xs)) [
    | inr absent ↦
        inr (unfold one_if in ground (arith, below-suc_fresh n xs absent, below-suc n ys e, few))
    | inl here ↦ elim (Bool-cases (mem n ys)) [
      | inl both ↦ inl (n, here, both)
      | inr absent ↦
          inr (unfold one_if in ground (arith, below-suc n xs d, below-suc_fresh n ys absent, few))
    ]
  ]
]

pub quorum :
    (n : ℕ) (xs ys : List ℕ)
    → NoDup xs
    → NoDup ys
    → All (λ x. x < n) xs
    → All (λ y. y < n) ys
    → n / 2 < length xs
    → n / 2 < length ys
    → (q : ℕ) × (mem q xs ≡ true) × (mem q ys ≡ true)
quorum n xs ys d e in_x in_y many_x many_y = elim (share-below n xs ys d e) [
  | inl shared ↦ shared
  | inr few ↦ absurd (omega (arith, below-All n xs in_x, below-All n ys in_y))
]

pub All-mem {κ} : (P : ℕ → Type κ) (q : ℕ) (xs : List ℕ) → All P xs → mem q xs ≡ true → P q
unfolding mem
All-mem P q [] h m = absurd (ground arith)
All-mem P q (x ∷ xs) h m = elim (or-cases (q == x) (mem q xs) m) [
  | inl same ↦ subst P (sym ((==_iff q x).0 same)) h.0
  | inr later ↦ All-mem P q xs h.1 later
]
