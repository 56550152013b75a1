-- ===== src/Prelude/Text/Trim.antt =====
-- The words of a trimmed text, and of a text with spaces or one more word behind it.
use mathlib.Core.List.{reverse, reverse-cons, reverse-append, reverse-reverse}
use cs.Prelude.{
  ℕ, ◌≡◌, refl, sym, ◌∙◌, ap, true, List, [], ◌∷◌, ◌++◌, All, Bool-cases, inl, inr, arith,
  append-nil, subst,
}
use cs.Prelude.Text.{Text, is_space, fields, fields_from, trim_left, trim_space, join}
use cs.Prelude.Text.Words.{IsWord, fields-join, fields_from-word}

abbrev pub AllSpace : Text → Type 0
AllSpace = All (λ c. is_space c ≡ true)

fields_from-skip :
    (c : ℕ) (s : Text) → is_space c ≡ true → fields_from [] (c ∷ s) ≡ fields_from [] s
unfolding fields_from
fields_from-skip c s h = ground arith

fields_from-close :
    (w c : ℕ) (word s : Text)
    → is_space c ≡ true
    → fields_from (w ∷ word) (c ∷ s) ≡ (w ∷ word) ∷ fields_from [] s
unfolding fields_from
fields_from-close w c word s h = ground arith

fields_from-lead : (sp s : Text) → AllSpace sp → fields_from [] (sp ++ s) ≡ fields_from [] s
fields_from-lead [] s h = refl
fields_from-lead (c ∷ sp) s h = fields_from-skip c (sp ++ s) h.0 ∙ fields_from-lead sp s h.1

fields_from-spaces : (sp : Text) → AllSpace sp → fields_from [] sp ≡ []
unfolding fields_from
fields_from-spaces [] h = refl
fields_from-spaces (c ∷ sp) h = fields_from-skip c sp h.0 ∙ fields_from-spaces sp h.1

-- What follows when the word under way is `word`.
fields_from-behind :
    (rest : Text) (more : List Text)
    → ((word : Text) → fields_from word rest ≡ fields_from word [] ++ more)
    → (word s : Text) → fields_from word (s ++ rest) ≡ fields_from word s ++ more
unfolding fields_from
fields_from-behind rest more h word [] = h word
fields_from-behind rest more h [] (c ∷ s) =
    ground (arith, fields_from-behind rest more h [] s, fields_from-behind rest more h (c ∷ []) s)
fields_from-behind rest more h (w ∷ word) (c ∷ s) = ground (
  arith,
  fields_from-behind rest more h [] s,
  fields_from-behind rest more h ((w ∷ word) ++ c ∷ []) s,
)

spaces-behind :
    (sp : Text) → AllSpace sp → (word : Text) → fields_from word sp ≡ fields_from word [] ++ []
unfolding fields_from
spaces-behind [] h [] = refl
spaces-behind [] h (w ∷ word) = refl
spaces-behind (c ∷ sp) h [] = fields_from-spaces (c ∷ sp) h
spaces-behind (c ∷ sp) h (w ∷ word) =
    fields_from-close w c word sp h.0 ∙ ap (λ x. (w ∷ word) ∷ x) (fields_from-spaces sp h.1)

single : (v : Text) → IsWord v → fields_from [] v ≡ v ∷ []
unfolding fields join
single v h = fields-join (v ∷ []) (h, tt)

word-behind :
    (v : Text)
    → IsWord v
    → (word : Text) → fields_from word (32 ∷ v) ≡ fields_from word [] ++ v ∷ []
unfolding fields_from
word-behind v h [] = fields_from-skip 32 v refl ∙ single v h
word-behind v h (w ∷ word) =
    fields_from-close w 32 word v refl ∙ ap (λ x. (w ∷ word) ∷ x) (single v h)

-- A word more, after a space.
pub fields-snoc : (s v : Text) → IsWord v → fields (s ++ 32 ∷ v) ≡ fields s ++ v ∷ []
unfolding fields
fields-snoc s v h = fields_from-behind (32 ∷ v) (v ∷ []) (word-behind v h) [] s

pub fields-spaces : (s sp : Text) → AllSpace sp → fields (s ++ sp) ≡ fields s
unfolding fields
fields-spaces s sp h =
    fields_from-behind sp [] (spaces-behind sp h) [] s ∙ append-nil (fields_from [] s)

trim_left-cut : (s : Text) → (sp : Text) × AllSpace sp × (s ≡ sp ++ trim_left s)
unfolding trim_left
trim_left-cut [] = ([], tt, refl)
trim_left-cut (c ∷ s) = elim (Bool-cases (is_space c)) [
  | inl space ↦
      let (sp, all, e) = trim_left-cut s in
      (c ∷ sp, (space, all), rw (space, trim_left) (ap (λ x. c ∷ x) e))
  | inr other ↦ ([], tt, rw (other, trim_left) refl)
]

fields-trim_left : (s : Text) → fields (trim_left s) ≡ fields s
unfolding fields
fields-trim_left s =
    let (sp, all, e) = trim_left-cut s in
    sym (fields_from-lead sp (trim_left s) all) ∙ ap (fields_from []) (sym e)

AllSpace-append : (a b : Text) → AllSpace a → AllSpace b → AllSpace (a ++ b)
AllSpace-append [] b h k = k
AllSpace-append (c ∷ a) b h k = (h.0, AllSpace-append a b h.1 k)

reverse-AllSpace : (sp : Text) → AllSpace sp → AllSpace (reverse sp)
reverse-AllSpace [] h = tt
reverse-AllSpace (c ∷ sp) h =
    subst AllSpace (sym (reverse-cons c sp))
      (AllSpace-append (reverse sp) (c ∷ []) (reverse-AllSpace sp h.1) (h.0, tt))

-- Trimming a text leaves its words.
pub fields-trim_space : (s : Text) → fields (trim_space s) ≡ fields s
unfolding trim_space
fields-trim_space s =
    let u = trim_left s in
    let (sp, all, e) = trim_left-cut (reverse u) in
    let whole : u ≡ reverse (trim_left (reverse u)) ++ reverse sp =
      sym (reverse-reverse u) ∙ ap reverse e ∙ reverse-append sp (trim_left (reverse u)) in
    sym (fields-spaces (reverse (trim_left (reverse u))) (reverse sp) (reverse-AllSpace sp all))
    ∙ ap fields (sym whole)
    ∙ fields-trim_left s

-- A word before a space.
pub fields-cons :
    (w : Text) (c : ℕ) (rest : Text)
    → IsWord w
    → is_space c ≡ true
    → fields (w ++ c ∷ rest) ≡ w ∷ fields rest
unfolding fields
fields-cons [] c rest h space = absurd h
fields-cons (d ∷ w) c rest h space =
    fields_from-word (d ∷ w) (c ∷ rest) h ∙ fields_from-close d c w rest space
