-- ===== src/Prelude/Text/Words.antt =====
-- Joining words and splitting them again.
use cs.Prelude.{
  every, not, Bool, ℕ, zero, suc, ◌+◌, ◌/◌, ◌%◌, ◌<◌, ◌≡◌, refl, sym, ◌∙◌, ap, false, List, [], ◌∷◌,
  ◌++◌, ltb, leb, ◌&&◌, true, ◌==◌, All, Bool-cases, inl, inr, arith, append_assoc, append-nil,
  subst,
}
use cs.Prelude.Int.{ℤ, pos, negsuc}
use cs.Prelude.Text.{
  Text, is_space, fields, fields_from, join, split, split_from, format_nat, format_int, max_digits,
}
use cs.Prelude.Text.Digits.{format_nat-small, format_nat-large, format_nat-first}

-- At least one character, and no space.
abbrev pub IsWord : Text → Type 0
IsWord [] = ⊥
IsWord (c ∷ s) = All (λ d. is_space d ≡ false) (c ∷ s)

fields_from-next :
    (w c : ℕ) (word rest : Text)
    → is_space c ≡ false
    → fields_from (w ∷ word) (c ∷ rest) ≡ fields_from (w ∷ (word ++ c ∷ [])) rest
unfolding fields_from
fields_from-next w c word rest h = ground arith

fields_from-first :
    (c : ℕ) (rest : Text)
    → is_space c ≡ false
    → fields_from [] (c ∷ rest) ≡ fields_from (c ∷ []) rest
unfolding fields_from
fields_from-first c rest h = ground arith

split_from-next :
    (sep c : ℕ) (part rest : Text)
    → (c == sep) ≡ false
    → split_from sep part (c ∷ rest) ≡ split_from sep (part ++ c ∷ []) rest
unfolding split_from
split_from-next sep c part rest h = ground arith

split_from-cut :
    (sep : ℕ) (part rest : Text) → split_from sep part (sep ∷ rest) ≡ part ∷ split_from sep [] rest
unfolding split_from
split_from-cut sep part rest = ground arith

fields_from-part :
    (w : ℕ) (word s rest : Text)
    → All (λ d. is_space d ≡ false) s
    → fields_from (w ∷ word) (s ++ rest) ≡ fields_from (w ∷ (word ++ s)) rest
fields_from-part w word [] rest h = ap (λ x. fields_from (w ∷ x) rest) (sym (append-nil word))
fields_from-part w word (c ∷ s) rest h =
    fields_from-next w c word (s ++ rest) h.0
    ∙ fields_from-part w (word ++ c ∷ []) s rest h.1
    ∙ ap (λ x. fields_from (w ∷ x) rest) (append_assoc word (c ∷ []) s)

pub fields_from-word : (w rest : Text) → IsWord w → fields_from [] (w ++ rest) ≡ fields_from w rest
fields_from-word [] rest h = absurd h
fields_from-word (c ∷ s) rest h =
    fields_from-first c (s ++ rest) h.0 ∙ fields_from-part c [] s rest h.1

fields_from-space : (w rest : Text) → IsWord w → fields_from w (32 ∷ rest) ≡ w ∷ fields_from [] rest
unfolding fields_from
fields_from-space [] rest h = absurd h
fields_from-space (c ∷ s) rest h = refl

fields_from-end : (w : Text) → IsWord w → fields_from w [] ≡ w ∷ []
unfolding fields_from
fields_from-end [] h = absurd h
fields_from-end (c ∷ s) h = refl

-- The fields of joined words are the words.
pub fields-join : (ws : List Text) → All IsWord ws → fields (join ws) ≡ ws
unfolding fields join
fields-join [] h = unfold fields_from in refl
fields-join (w ∷ []) h =
    ap (fields_from []) (sym (append-nil w)) ∙ fields_from-word w [] h.0 ∙ fields_from-end w h.0
fields-join (w ∷ v ∷ ws) h =
    fields_from-word w (32 ∷ join (v ∷ ws)) h.0
    ∙ fields_from-space w (join (v ∷ ws)) h.0
    ∙ ap (λ x. w ∷ x) (fields-join (v ∷ ws) h.1)

split_from-part :
    (sep : ℕ) (part s rest : Text)
    → All (λ d. (d == sep) ≡ false) s
    → split_from sep part (s ++ rest) ≡ split_from sep (part ++ s) rest
split_from-part sep part [] rest h = ap (λ x. split_from sep x rest) (sym (append-nil part))
split_from-part sep part (c ∷ s) rest h =
    split_from-next sep c part (s ++ rest) h.0
    ∙ split_from-part sep (part ++ c ∷ []) s rest h.1
    ∙ ap (λ x. split_from sep x rest) (append_assoc part (c ∷ []) s)

-- Two parts around a separator that neither holds.
pub split-pair :
    (sep : ℕ) (a b : Text)
    → All (λ d. (d == sep) ≡ false) a
    → All (λ d. (d == sep) ≡ false) b
    → split (a ++ sep ∷ b) sep ≡ a ∷ b ∷ []
unfolding split
split-pair sep a b h k =
    let last : split_from sep b [] ≡ b ∷ [] = unfold split_from in refl in
    split_from-part sep [] a (sep ∷ b) h
    ∙ split_from-cut sep a b
    ∙ ap (λ x. a ∷ x)
        (ap (split_from sep []) (sym (append-nil b)) ∙ split_from-part sep [] b [] k ∙ last)

-- The digits of a number, all of them between `0` and `9`.
format_nat-digits : (f n : ℕ) → All (λ d. (leb 48 d && leb d 57) ≡ true) (format_nat f n)
format_nat-digits zero n = unfold format_nat in tt
format_nat-digits (suc f) n = elim (Bool-cases (ltb n 10)) [
  | inl small ↦ rw (format_nat-small f n small) (ground arith, tt)
  | inr large ↦
      rw (format_nat-large f n large) (
        All-snoc (format_nat f (n / 10)) (48 + n % 10) (format_nat-digits f (n / 10))
          (ground arith))
]
  where
    All-snoc :
        (s : Text) (c : ℕ)
        → All (λ d. (leb 48 d && leb d 57) ≡ true) s
        → (leb 48 c && leb c 57) ≡ true
        → All (λ d. (leb 48 d && leb d 57) ≡ true) (s ++ c ∷ [])
    All-snoc [] c h k = (k, tt)
    All-snoc (d ∷ s) c h k = (h.0, All-snoc s c h.1 k)

All-imp {ℓ κ μ} :
    {A : Type ℓ} {P : A → Type κ} {Q : A → Type μ}
    → ((a : A) → P a → Q a)
    → (xs : List A) → All P xs
    → All Q xs
All-imp f [] h = tt
All-imp f (x ∷ xs) h = (f x h.0, All-imp f xs h.1)

digits : (f n : ℕ) → All (λ d. is_space d ≡ false) (format_nat f n)
digits f n = All-imp (λ d h. ground (arith, h)) (format_nat f n) (format_nat-digits f n)

-- A number that is not negative is written without a character that is no digit.
pub format_int-without : (n sep : ℕ) → 57 < sep → All (λ d. (d == sep) ≡ false) (format_int (pos n))
unfolding format_int
format_int-without n sep large =
    All-imp (λ d h. ground (arith, h, large)) (format_nat max_digits n)
      (format_nat-digits max_digits n)

pub format_int-IsWord : (z : ℤ) → IsWord (format_int z)
unfolding format_int
format_int-IsWord (pos n) =
    let (c, s, e, le) = format_nat-first 19 n in
    let all = digits max_digits n in
    subst IsWord (sym e) (subst (All (λ d. is_space d ≡ false)) e all)
format_int-IsWord (negsuc n) = (ground arith, digits max_digits (n + 1))

-- A part before the first separator, and a text without one.
pub split-cons :
    (sep : ℕ) (a rest : Text)
    → All (λ d. (d == sep) ≡ false) a
    → split (a ++ sep ∷ rest) sep ≡ a ∷ split rest sep
unfolding split
split-cons sep a rest h = split_from-part sep [] a (sep ∷ rest) h ∙ split_from-cut sep a rest

pub split-last : (sep : ℕ) (a : Text) → All (λ d. (d == sep) ≡ false) a → split a sep ≡ a ∷ []
unfolding split
split-last sep a h =
    let last : split_from sep a [] ≡ a ∷ [] = unfold split_from in refl in
    ap (split_from sep []) (sym (append-nil a)) ∙ split_from-part sep [] a [] h ∙ last

-- Every character of the text passes a test.
pub every-All :
    (f : ℕ → Bool) (s : Text) → every (λ c. not (f c)) s ≡ true → All (λ c. f c ≡ false) s
every-All f [] h = tt
every-All f (c ∷ s) h = (ground (arith, h), every-All f s (ground (arith, h)))

-- At least one character and no space, as a test.
abbrev pub is_word : Text → Bool
is_word [] = false
is_word (c ∷ s) = every (λ d. not (is_space d)) (c ∷ s)

pub is_word-IsWord : (w : Text) → is_word w ≡ true → IsWord w
is_word-IsWord [] h = absurd (ground (arith, h))
is_word-IsWord (c ∷ s) h = every-All is_space (c ∷ s) h
