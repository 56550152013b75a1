-- ===== src/Prelude/Text/Digits.antt =====
-- Printing a number and reading it back.
use native.Mathlib.Nat.{pow-suc}
use cs.Prelude.{
  ℕ, zero, suc, ◌+◌, ◌-◌, ◌*◌, ◌/◌, ◌%◌, ◌^◌, ◌≤◌, ◌<◌, ◌≡◌, refl, sym, ◌∙◌, ap, true, false,
  Option, none, some, [], ◌∷◌, ◌++◌, ltb, Bool-cases, inl, inr, arith,
}
use cs.Prelude.Int.{ℤ, pos, negsuc, IsInt64}
use cs.Prelude.Text.{Text, format_nat, format_int, max_digits, parse_nat, parse_digits, parse_int}

-- One more digit at the end.
abbrev then_digit : Option ℕ → ℕ → Option ℕ
then_digit none d = none
then_digit (some n) d = some (n * 10 + d)

parse_nat-snoc :
    (acc d : ℕ) (s : Text)
    → d < 10
    → parse_nat acc (s ++ (48 + d) ∷ []) ≡ then_digit (parse_nat acc s) d
unfolding parse_nat
parse_nat-snoc acc d [] h = ground arith
parse_nat-snoc acc d (c ∷ s) h = ground (arith, parse_nat-snoc (acc * 10 + (c - 48)) d s h)

pub format_nat-small : (f n : ℕ) → ltb n 10 ≡ true → format_nat (suc f) n ≡ (48 + n) ∷ []
unfolding format_nat
format_nat-small f n h = ground arith

pub format_nat-large :
    (f n : ℕ)
    → ltb n 10 ≡ false
    → format_nat (suc f) n ≡ format_nat f (n / 10) ++ (48 + n % 10) ∷ []
unfolding format_nat
format_nat-large f n h = ground arith

parse_nat-digit : (n : ℕ) → ltb n 10 ≡ true → parse_nat 0 ((48 + n) ∷ []) ≡ some n
unfolding parse_nat
parse_nat-digit n h = ground arith

pub parse_nat-format_nat : (f n : ℕ) → n < 10 ^ suc f → parse_nat 0 (format_nat (suc f) n) ≡ some n
parse_nat-format_nat zero n h =
    let small : ltb n 10 ≡ true = ground arith in
    rw (format_nat-small zero n small) (parse_nat-digit n small)
parse_nat-format_nat (suc f) n h = elim (Bool-cases (ltb n 10)) [
  | inl small ↦ rw (format_nat-small (suc f) n small) (parse_nat-digit n small)
  | inr large ↦
      let power : 10 ^ suc (suc f) ≡ 10 ^ suc f * 10 = pow-suc 10 (suc f) in
      rw (format_nat-large (suc f) n large) (
        parse_nat-snoc 0 (n % 10) (format_nat (suc f) (n / 10)) (omega arith)
        ∙ ap (λ r. then_digit r (n % 10)) (parse_nat-format_nat f (n / 10) (omega (arith, power)))
        ∙ ap some (omega arith))
]

-- The first character is a digit, and no sign.
pub format_nat-first : (f n : ℕ) → (c : ℕ) × (s : Text) × (format_nat (suc f) n ≡ c ∷ s) × (48 ≤ c)
format_nat-first zero n = elim (Bool-cases (ltb n 10)) [
  | inl small ↦ (48 + n, [], format_nat-small zero n small, omega arith)
  | inr large ↦
      (48 + n % 10, [], format_nat-large zero n large ∙ unfold format_nat in refl, omega arith)
]
format_nat-first (suc f) n = elim (Bool-cases (ltb n 10)) [
  | inl small ↦ (48 + n, [], format_nat-small (suc f) n small, omega arith)
  | inr large ↦
      let (c, s, e, le) = format_nat-first f (n / 10) in
      (c, s ++ (48 + n % 10) ∷ [], format_nat-large (suc f) n large ∙ rw e refl, le)
]

parse_digits-format_nat : (n : ℕ) → n < 10 ^ 20 → parse_digits (format_nat max_digits n) ≡ some n
unfolding parse_digits
parse_digits-format_nat n h =
    let (c, s, e, le) = format_nat-first 19 n in
    let read = parse_nat-format_nat 19 n h in rw e (sym (ap (parse_nat 0) e) ∙ read)

parse_int-unsigned :
    (c n : ℕ) (s : Text)
    → 48 ≤ c
    → parse_digits (c ∷ s) ≡ some n
    → n < 2 ^ 63
    → parse_int (c ∷ s) ≡ some (pos n)
unfolding parse_int
parse_int-unsigned c n s le h lt = ground arith

parse_int-minus :
    (n : ℕ) (s : Text)
    → parse_digits s ≡ some (suc n)
    → n < 2 ^ 63
    → parse_int (45 ∷ s) ≡ some (negsuc n)
unfolding parse_int
parse_int-minus n s h lt = ground arith

-- A 64-bit integer that is printed reads back.
pub parse_int-format_int : (z : ℤ) → IsInt64 z → parse_int (format_int z) ≡ some z
unfolding format_int
parse_int-format_int (pos n) h =
    let (c, s, e, le) = format_nat-first 19 n in
    let digits = parse_digits-format_nat n (omega arith) in
    rw e (parse_int-unsigned c n s le (sym (ap parse_digits e) ∙ digits) (omega arith))
parse_int-format_int (negsuc n) h =
    parse_int-minus n (format_nat max_digits (n + 1))
      (parse_digits-format_nat (n + 1) (omega arith) ∙ ap some (omega arith)) (omega arith)
