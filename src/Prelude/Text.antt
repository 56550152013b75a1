-- ===== src/Prelude/Text.antt =====
-- Go strings as lists of bytes, with what the program uses of `strings` and `strconv`.
-- White space and digits are ASCII.
pub mod Digits
pub mod Words
pub mod Trim
use Prim.Native.Nat.{ℕ, zero, suc, ◌+◌, ◌-◌, ◌*◌, ◌/◌, ◌%◌, ◌^◌}
use Prim.Native.Char.{code}
use Prim.Native.String.{String}
use mathlib.Core.Path.{◌≡◌, refl}
use mathlib.Core.Logic.{◌↔◌}
use mathlib.Core.Bool.{Bool, true, false, ◌&&◌, ◌||◌}
use mathlib.Core.Option.{Option, none, some}
use mathlib.Core.List.{List, [], ◌∷◌, ◌++◌, reverse}
use native.Mathlib.Omega.{arith}
use cs.Prelude.Tests.{ltb, leb, ◌==◌, if◌then◌else◌}
use cs.Prelude.Int.{ℤ, pos, negsuc}

abbrev pub Text : Type 0
Text = List ℕ

-- The bytes of a literal of the source.
abbrev pub codes : String → Text
codes String.[] = []
codes (String.◌∷◌ c s) = code c ∷ codes s

unfoldable pub text_eq : Text → Text → Bool
text_eq [] [] = true
text_eq [] (b ∷ t) = false
text_eq (a ∷ s) [] = false
text_eq (a ∷ s) (b ∷ t) = (a == b) && text_eq s t

pub text_eq_refl : (s : Text) → text_eq s s ≡ true
unfolding text_eq
text_eq_refl [] = refl
text_eq_refl (a ∷ s) = ground (arith, text_eq_refl s)

pub text_eq→eq : (s t : Text) → text_eq s t ≡ true → s ≡ t
unfolding text_eq
text_eq→eq [] [] h = refl
text_eq→eq [] (b ∷ t) h = ground arith
text_eq→eq (a ∷ s) [] h = ground arith
text_eq→eq (a ∷ s) (b ∷ t) h = ground (arith, text_eq→eq s t)

pub text_eq_iff : (s t : Text) → (text_eq s t ≡ true) ↔ (s ≡ t)
text_eq_iff s t = (text_eq→eq s t, λ e. subst_refl s t e)
  where
    subst_refl : (a b : Text) → a ≡ b → text_eq a b ≡ true
    subst_refl a b e = rw e (text_eq_refl b)

abbrev pub is_space : ℕ → Bool
is_space c = (c == 32) || (leb 9 c && leb c 13)

-- `strings.Fields`, with the bytes of the word under way.
unfoldable pub fields_from : Text → Text → List Text
fields_from [] [] = []
fields_from (w ∷ word) [] = (w ∷ word) ∷ []
fields_from [] (c ∷ s) = elim (is_space c) [
  | true ↦ fields_from [] s
  | false ↦ fields_from (c ∷ []) s
]
fields_from (w ∷ word) (c ∷ s) = elim (is_space c) [
  | true ↦ (w ∷ word) ∷ fields_from [] s
  | false ↦ fields_from ((w ∷ word) ++ c ∷ []) s
]

unfoldable pub fields : Text → List Text
unfolding fields_from
fields s = fields_from [] s

-- `strings.Split` at a single byte, with the bytes of the part under way.
unfoldable pub split_from : ℕ → Text → Text → List Text
split_from sep part [] = part ∷ []
split_from sep part (c ∷ s) = elim (c == sep) [
  | true ↦ part ∷ split_from sep [] s
  | false ↦ split_from sep (part ++ c ∷ []) s
]

unfoldable pub split : Text → ℕ → List Text
unfolding split_from
split s sep = split_from sep [] s

unfoldable pub trim_left : Text → Text
trim_left [] = []
trim_left (c ∷ s) = elim (is_space c) [ true ↦ trim_left s | false ↦ c ∷ s ]

-- `strings.TrimSpace`.
unfoldable pub trim_space : Text → Text
unfolding trim_left
trim_space s = reverse (trim_left (reverse (trim_left s)))

-- `strings.Join` with a space.
unfoldable pub join : List Text → Text
join [] = []
join (w ∷ []) = w
join (w ∷ v ∷ ws) = w ++ 32 ∷ join (v ∷ ws)

-- Decimal digits, most significant first; the fuel bounds their number.
unfoldable pub format_nat : ℕ → ℕ → Text
format_nat zero n = []
format_nat (suc f) n = elim (ltb n 10) [
  | true ↦ (48 + n) ∷ []
  | false ↦ format_nat f (n / 10) ++ (48 + n % 10) ∷ []
]

-- A 64-bit integer has at most 19 digits.
abbrev pub max_digits : ℕ
max_digits = 20

-- `strconv.FormatInt` in base 10, and `strconv.Itoa`.
unfoldable pub format_int : ℤ → Text
unfolding format_nat
format_int (pos n) = format_nat max_digits n
format_int (negsuc n) = 45 ∷ format_nat max_digits (n + 1)

abbrev pub is_digit : ℕ → Bool
is_digit c = leb 48 c && leb c 57

unfoldable pub parse_nat : ℕ → Text → Option ℕ
parse_nat acc [] = some acc
parse_nat acc (c ∷ s) = elim (is_digit c) [
  | true ↦ parse_nat (acc * 10 + (c - 48)) s
  | false ↦ none
]

-- At least one digit.
unfoldable pub parse_digits : Text → Option ℕ
unfolding parse_nat
parse_digits [] = none
parse_digits (c ∷ s) = parse_nat 0 (c ∷ s)

abbrev pub non_negative : Option ℕ → Option ℤ
non_negative none = none
non_negative (some n) = if ltb n (2 ^ 63) then some (pos n) else none

abbrev pub negative : Option ℕ → Option ℤ
negative none = none
negative (some zero) = some (pos 0)
negative (some (suc n)) = if ltb n (2 ^ 63) then some (negsuc n) else none

-- `strconv.ParseInt` in base 10 and 64 bits, and `strconv.Atoi`; `none` is an error.
unfoldable pub parse_int : Text → Option ℤ
unfolding parse_digits
parse_int [] = none
parse_int (c ∷ s) =
    if c == 45
    then negative (parse_digits s)
    else if c == 43
    then non_negative (parse_digits s)
    else non_negative (parse_digits (c ∷ s))

fields_example :
    fields (codes "DEPOSIT  A.foo 10\n 7")
    ≡ codes "DEPOSIT" ∷ codes "A.foo" ∷ codes "10" ∷ codes "7" ∷ []
unfolding fields
fields_example = refl

parse_int_example : parse_int (format_int (negsuc 1206)) ≡ some (negsuc 1206)
unfolding parse_int format_int
parse_int_example = refl

split_example : split (codes "A.foo") b'.' ≡ codes "A" ∷ codes "foo" ∷ []
unfolding split
split_example = refl
