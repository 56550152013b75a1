-- ===== src/Bank/Protocol/Counting.antt =====
-- How often packets and branches occur in lists.
use cs.Prelude.{
  ℕ, zero, suc, ◌+◌, ◌<◌, ◌≤◌, ◌≡◌, ◌≢◌, refl, Bool, List, [], ◌∷◌, ◌++◌, ◌==◌, ltb, length, count,
  All, dec_lt, ap, arith, if◌then◌else◌,
}

abbrev pub one_if : Bool → ℕ
one_if b = if b then 1 else 0

pub count-append :
    {A : Type 0} (f : A → Bool) (xs ys : List A) → count f (xs ++ ys) ≡ count f xs + count f ys
count-append f [] ys = omega arith
count-append f (x ∷ xs) ys = ground (arith, count-append f xs ys)

-- One element is taken out, and others come in.
pub count_changed :
    {A : Type 0} (f : A → Bool) (x : A) (new a b net : List A)
    → net ≡ a ++ x ∷ b
    → count f (new ++ a ++ b) + one_if (f x) ≡ count f new + count f net
count_changed f x new a b net e =
    let whole : count f net ≡ count f (a ++ x ∷ b) = ap (count f) e in
    ground
      (arith, whole, count-append f (new ++ a) b, count-append f new a, count-append f a (x ∷ b))

unfoldable pub occurs : ℕ → List ℕ → ℕ
occurs j [] = 0
occurs j (x ∷ xs) = one_if (x == j) + occurs j xs

pub occurs_cons : (j x : ℕ) (xs : List ℕ) → occurs j (x ∷ xs) ≡ one_if (x == j) + occurs j xs
unfolding occurs
occurs_cons j x xs = refl

-- The elements below a bound.
total : ℕ → List ℕ → ℕ
total zero xs = 0
total (suc n) xs = occurs n xs + total n xs

total_cons : (n x : ℕ) (xs : List ℕ) → total n (x ∷ xs) ≡ one_if (ltb x n) + total n xs
unfolding total
total_cons zero x xs = ground arith
total_cons (suc n) x xs = ground (arith, total_cons n x xs, occurs_cons n x xs)

total_nil : (n : ℕ) → total n [] ≡ 0
unfolding total occurs
total_nil zero = refl
total_nil (suc n) = omega (arith, total_nil n)

length-total : (n : ℕ) (xs : List ℕ) → All (λ x. x < n) xs → length xs ≡ total n xs
length-total n [] h = omega (arith, total_nil n)
length-total n (x ∷ xs) h = ground (arith, length-total n xs h.1, total_cons n x xs, h)

total-le :
    (n i j : ℕ) (xs : List ℕ)
    → i ≢ j
    → ((k : ℕ) → occurs k xs ≤ 1)
    → occurs i xs ≡ 0
    → occurs j xs ≡ 0
    → total n xs + one_if (ltb i n) + one_if (ltb j n) ≤ n
unfolding total
total-le zero i j xs ne once no_i no_j = ground arith
total-le (suc n) i j xs ne once no_i no_j =
    ground (arith, once n, total-le n i j xs ne once no_i no_j)

-- Of all numbers below a bound but one, each occurs in a list of that many different ones.
pub pigeons :
    (n i j : ℕ) (xs : List ℕ)
    → i < n
    → j < n
    → i ≢ j
    → All (λ x. x < n) xs
    → ((k : ℕ) → occurs k xs ≤ 1)
    → occurs i xs ≡ 0
    → n ≤ length xs + 1
    → 0 < occurs j xs
pigeons n i j xs lt lt' ne inside once no_i many = elim (dec_lt 0 (occurs j xs)) [
  | yes there ↦ there
  | no absent ↦
      let none_ : occurs j xs ≡ 0 = omega arith in
      let few = total-le n i j xs ne once no_i none_ in
      absurd (ground (arith, few, length-total n xs inside))
]
