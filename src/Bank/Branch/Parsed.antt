-- ===== src/Bank/Branch/Parsed.antt =====
-- `ParseInt` where its error is ignored.
use cs.Prelude.{
  ◌*◌, ◌+◌, ◌-◌, ◌^◌, ◌<◌, ◌≤◌, ℕ, zero, suc, ◌≡◌, refl, sym, ◌∙◌, true, false, Option, none, some,
  [], ◌∷◌, ◌==◌, Bool-cases, inl, inr, arith,
}
use cs.Prelude.Int.{ℤ}
use cs.Prelude.Text.{Text, parse_int, parse_digits, parse_nat, negative, non_negative}
use cs.Bank.Branch.{clamp, scan_nat, scan_digits, parsed_value}

parse_int-minus :
    (c : ℕ) (s : Text) → (c == 45) ≡ true → parse_int (c ∷ s) ≡ negative (parse_digits s)
unfolding parse_int
parse_int-minus c s h = rw h refl

parse_int-plus :
    (c : ℕ) (s : Text)
    → (c == 45) ≡ false
    → (c == 43) ≡ true
    → parse_int (c ∷ s) ≡ non_negative (parse_digits s)
unfolding parse_int
parse_int-plus c s h k = rw h (rw k refl)

parse_int-digit :
    (c : ℕ) (s : Text)
    → (c == 45) ≡ false
    → (c == 43) ≡ false
    → parse_int (c ∷ s) ≡ non_negative (parse_digits (c ∷ s))
unfolding parse_int
parse_int-digit c s h k = rw h (rw k refl)

clamp-negative : (o : Option ℕ) (z : ℤ) → negative o ≡ some z → clamp true o ≡ z
clamp-negative none z h = ground arith
clamp-negative (some zero) z h = ground arith
clamp-negative (some (suc n)) z h = ground arith

clamp-non_negative : (o : Option ℕ) (z : ℤ) → non_negative o ≡ some z → clamp false o ≡ z
clamp-non_negative none z h = ground arith
clamp-non_negative (some zero) z h = ground arith
clamp-non_negative (some (suc n)) z h = ground arith

parse_nat-grows : (n : ℕ) (s : Text) (m : ℕ) → parse_nat n s ≡ some m → n ≤ m
unfolding parse_nat
parse_nat-grows n [] m h = ground arith
parse_nat-grows n (c ∷ s) m h = ground (arith, parse_nat-grows (n * 10 + (c - 48)) s m)

scan_nat-parse_nat :
    (n : ℕ) (s : Text) (m : ℕ) → parse_nat n s ≡ some m → m < 2 ^ 64 → scan_nat n s ≡ some m
unfolding scan_nat parse_nat
scan_nat-parse_nat n [] m h small = ground arith
scan_nat-parse_nat n (c ∷ s) m h small =
    ground
      (arith, parse_nat-grows (n * 10 + (c - 48)) s m, scan_nat-parse_nat (n * 10 + (c - 48)) s m)

scan_digits-parse_digits :
    (s : Text) (m : ℕ) → parse_digits s ≡ some m → m < 2 ^ 64 → scan_digits s ≡ some m
unfolding parse_digits
scan_digits-parse_digits [] m h small = ground arith
scan_digits-parse_digits (c ∷ s) m h small = scan_nat-parse_nat 0 (c ∷ s) m h small

negative-small :
    (o : Option ℕ) (z : ℤ) → negative o ≡ some z → (m : ℕ) × (o ≡ some m) × (m < 2 ^ 64)
negative-small none z h = ground arith
negative-small (some zero) z h = (0, refl, omega arith)
negative-small (some (suc n)) z h = (suc n, refl, ground arith)

non_negative-small :
    (o : Option ℕ) (z : ℤ) → non_negative o ≡ some z → (m : ℕ) × (o ≡ some m) × (m < 2 ^ 64)
non_negative-small none z h = ground arith
non_negative-small (some n) z h = (n, refl, ground arith)

scanned-negative :
    (s : Text) (z : ℤ) → negative (parse_digits s) ≡ some z → clamp true (scan_digits s) ≡ z
scanned-negative s z h =
    let (m, found, small) = negative-small (parse_digits s) z h in
    rw (scan_digits-parse_digits s m found small) (clamp-negative (some m) z (rw found at h))

scanned-non_negative :
    (s : Text) (z : ℤ) → non_negative (parse_digits s) ≡ some z → clamp false (scan_digits s) ≡ z
scanned-non_negative s z h =
    let (m, found, small) = non_negative-small (parse_digits s) z h in
    rw (scan_digits-parse_digits s m found small) (clamp-non_negative (some m) z (rw found at h))

-- `ParseInt` without an error gives the same with the error ignored.
pub parsed_value-parse_int : (s : Text) (z : ℤ) → parse_int s ≡ some z → parsed_value s ≡ z
unfolding parsed_value
parsed_value-parse_int [] z h = unfold parsed_value parse_int in ground arith
parsed_value-parse_int (c ∷ s) z h = elim (Bool-cases (c == 45)) [
  | inl minus ↦
      rw (parsed_value, minus) (scanned-negative s z (sym (parse_int-minus c s minus) ∙ h))
  | inr other ↦ elim (Bool-cases (c == 43)) [
    | inl plus ↦
        rw (parsed_value, other)
          (rw plus (scanned-non_negative s z (sym (parse_int-plus c s other plus) ∙ h)))
    | inr digit ↦
        rw (parsed_value, other)
          (rw digit (scanned-non_negative (c ∷ s) z (sym (parse_int-digit c s other digit) ∙ h)))
  ]
]
