-- ===== src/Bank/Protocol/Kinds.antt =====
-- The messages of a commit and how often they are under way.
use cs.Prelude.{
  ℕ, ◌≤◌, ◌≡◌, ◌≢◌, sym, ◌∙◌, refl, ◌∙◌, ap, Bool, true, false, List, [], ◌∷◌, ◌&&◌, ◌==◌, count,
  In, arith,
}
use cs.Prelude.Int.{ℤ}
use cs.Prelude.Text.{Text, text_eq, text_eq_refl, join}
use cs.Bank.Protocol.{Packet, prepare_text, ready_text, ok_text, refused_text, abort_text}
use cs.Bank.Protocol.Sends.{Spread, count-none}

-- A packet that asks branch `j` for its vote, and one that answers for it.
abbrev pub asks : ℤ → ℕ → Packet → Bool
asks ts j p = (p.receiver == j) && text_eq p.text (prepare_text ts)

abbrev pub answers : ℤ → ℕ → Packet → Bool
answers ts j p = (p.sender == j) && text_eq p.text (ready_text ts)

abbrev pub says : Text → Packet → Bool
says text p = text_eq p.text text

pub data Kind : Type 0 where
  prepare ready ok refused abort : Kind

abbrev pub text_of : ℤ → Kind → Text
text_of ts Kind.prepare = prepare_text ts
text_of ts Kind.ready = ready_text ts
text_of ts Kind.ok = ok_text ts
text_of ts Kind.refused = refused_text ts
text_of ts Kind.abort = abort_text ts

abbrev pub same_kind : Kind → Kind → Bool
same_kind Kind.prepare Kind.prepare = true
same_kind Kind.ready Kind.ready = true
same_kind Kind.ok Kind.ok = true
same_kind Kind.refused Kind.refused = true
same_kind Kind.abort Kind.abort = true
same_kind _ _ = false

-- The messages differ.
pub text_eq-text_of :
    (ts : ℤ) (k k' : Kind) → text_eq (text_of ts k) (text_of ts k') ≡ same_kind k k'
unfolding text_eq join
text_eq-text_of ts Kind.prepare Kind.prepare = text_eq_refl (prepare_text ts)
text_eq-text_of ts Kind.prepare Kind.ready = refl
text_eq-text_of ts Kind.prepare Kind.ok = refl
text_eq-text_of ts Kind.prepare Kind.refused = refl
text_eq-text_of ts Kind.prepare Kind.abort = refl
text_eq-text_of ts Kind.ready Kind.prepare = refl
text_eq-text_of ts Kind.ready Kind.ready = text_eq_refl (ready_text ts)
text_eq-text_of ts Kind.ready Kind.ok = refl
text_eq-text_of ts Kind.ready Kind.refused = refl
text_eq-text_of ts Kind.ready Kind.abort = refl
text_eq-text_of ts Kind.ok Kind.prepare = refl
text_eq-text_of ts Kind.ok Kind.ready = refl
text_eq-text_of ts Kind.ok Kind.ok = text_eq_refl (ok_text ts)
text_eq-text_of ts Kind.ok Kind.refused = refl
text_eq-text_of ts Kind.ok Kind.abort = refl
text_eq-text_of ts Kind.refused Kind.prepare = refl
text_eq-text_of ts Kind.refused Kind.ready = refl
text_eq-text_of ts Kind.refused Kind.ok = refl
text_eq-text_of ts Kind.refused Kind.refused = text_eq_refl (refused_text ts)
text_eq-text_of ts Kind.refused Kind.abort = refl
text_eq-text_of ts Kind.abort Kind.prepare = refl
text_eq-text_of ts Kind.abort Kind.ready = refl
text_eq-text_of ts Kind.abort Kind.ok = refl
text_eq-text_of ts Kind.abort Kind.refused = refl
text_eq-text_of ts Kind.abort Kind.abort = text_eq_refl (abort_text ts)

-- A text of one kind is no text of another.
pub text_of-apart :
    (ts : ℤ) (k k' : Kind) (t : Text)
    → same_kind k k' ≡ false
    → t ≡ text_of ts k
    → t ≢ text_of ts k'
text_of-apart ts k k' t other e e' = absurd (
    ground (
      arith,
      other,
      text_eq-text_of ts k k',
      text_eq_refl (text_of ts k'),
      ap (λ u. text_eq u (text_of ts k')) (sym e ∙ e'),
    ))

count-le :
    {A : Type 0} (f g : A → Bool) (xs : List A)
    → ((x : A) → f x ≡ true → g x ≡ true)
    → count f xs ≤ count g xs
count-le f g [] h = omega arith
count-le f g (x ∷ xs) h = ground (arith, h x, count-le f g xs h)

module _ (ts : ℤ) (k : Kind) (i : ℕ) (ps : List Packet) (s : Spread (text_of ts k) i ps) where
  text_of-In : (k' : Kind) (p : Packet) → In p ps → text_eq p.text (text_of ts k') ≡ same_kind k k'
  text_of-In k' p here =
      ap (λ t. text_eq t (text_of ts k')) (s.all p here).1 ∙ text_eq-text_of ts k k'

  -- What a broadcast adds to the packets of each kind.
  pub Spread-says : (k' : Kind) → same_kind k k' ≡ false → count (says (text_of ts k')) ps ≡ 0
  Spread-says k' other =
      count-none (says (text_of ts k')) ps (λ p here. text_of-In k' p here ∙ other)

  pub Spread-answers : (j : ℕ) → same_kind k Kind.ready ≡ false → count (answers ts j) ps ≡ 0
  Spread-answers j other =
      count-none (answers ts j) ps
        (λ p here. let differs = text_of-In Kind.ready p here in ground (arith, differs, other))

  pub Spread-asks_none : (j : ℕ) → same_kind k Kind.prepare ≡ false → count (asks ts j) ps ≡ 0
  Spread-asks_none j other =
      count-none (asks ts j) ps
        (λ p here. let differs = text_of-In Kind.prepare p here in ground (arith, differs, other))

  pub Spread-asks : (j : ℕ) → count (asks ts j) ps ≤ 1
  Spread-asks j =
      let few =
        count-le (asks ts j) (λ (p : Packet). p.receiver == j) ps (λ p h. ground (arith, h)) in
      omega (arith, few, s.once j)
