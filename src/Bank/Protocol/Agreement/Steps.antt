-- ===== src/Bank/Protocol/Agreement/Steps.antt =====
-- The steps of a commit, one by one.
use cs.Prelude.{
  ℕ, ◌+◌, ◌<◌, ◌≡◌, ◌⊎◌, inl, inr, refl, sym, ◌∙◌, ap, subst, true, false, some, List, [], ◌∷◌,
  ◌++◌, length, count, In, Bool-cases, update, update-elim, arith,
}
use cs.Prelude.Int.{ℤ}
use cs.Prelude.Text.{format_int}
use cs.Prelude.Dict.{lookup}
use cs.Bank.State.{Server}
use cs.Bank.Protocol.{Packet, System}
use cs.Bank.Protocol.Sends.{IsWired, Spread}
use cs.Bank.Protocol.Kept.{Same, Same-IsWired}
use cs.Bank.Protocol.Counting.{count_changed}
use cs.Bank.Protocol.Kinds.{
  asks, answers, says, Kind, text_of, same_kind, text_eq-text_of, text_of-apart, Spread-answers,
  Spread-asks_none,
}
use cs.Bank.Protocol.Agreement.{IsRouted, IsAtomic}

pub In-append : {A : Type 0} (x : A) (xs ys : List A) → In x (xs ++ ys) → In x xs ⊎ In x ys
In-append x [] ys h = inr h
In-append x (y ∷ xs) ys (inl e) = inl (inl e)
In-append x (y ∷ xs) ys (inr h) = elim (In-append x xs ys h) [ inl a ↦ inl (inr a) | inr b ↦ inr b ]

In-append_left : {A : Type 0} (x : A) (xs ys : List A) → In x xs → In x (xs ++ ys)
In-append_left x (y ∷ xs) ys (inl e) = inl e
In-append_left x (y ∷ xs) ys (inr h) = inr (In-append_left x xs ys h)
In-append_left x [] ys h = absurd h

In-append_right : {A : Type 0} (x : A) (xs ys : List A) → In x ys → In x (xs ++ ys)
In-append_right x [] ys h = h
In-append_right x (y ∷ xs) ys h = inr (In-append_right x xs ys h)

-- A branch that is as before, in what the protocol uses of it.
module _ (ts : ℤ) (c : ℕ) (s : System) (atomic : IsAtomic ts c s) (j : ℕ) (sv : Server) where
  pub update-IsWired : IsWired j sv → (i : ℕ) → IsWired i (update s.server j sv i)
  update-IsWired w = update-elim s.server j sv IsWired w (λ i _. atomic.wired i)

  pub update-commit_count :
      lookup (format_int ts) sv.commit_count ≡ lookup (format_int ts) (s.server j).commit_count
      → s.begun ≡ true
      → lookup (format_int ts) (update s.server j sv c).commit_count ≡ some (length s.counted)
  update-commit_count same begun =
      update-elim s.server j sv
        (λ i v. i ≡ c → lookup (format_int ts) v.commit_count ≡ some (length s.counted))
        (λ at.
          same ∙ ap (λ i. lookup (format_int ts) (s.server i).commit_count) at ∙ atomic.tally begun)
        (λ i _ at.
          ap (λ k. lookup (format_int ts) (s.server k).commit_count) at ∙ atomic.tally begun)
        c refl

-- The delivery of a packet.
module _ (ts : ℤ) (c : ℕ) (s : System) (atomic : IsAtomic ts c s) (p : Packet) (a b : List Packet)
    (e : s.net ≡ a ++ p ∷ b) where
  pub delivered : In p s.net
  delivered = subst (In p) (sym e) (In-append_right p a (p ∷ b) (inl refl))

  pub begun_before : s.begun ≡ true
  begun_before = elim (Bool-cases s.begun) [
    | inl on ↦ on
    | inr off ↦ absurd (subst (In p) (atomic.idle off).0 delivered)
  ]

  pub delivered-IsRouted :
      (new : List Packet)
      → ((q : Packet) → In q new → IsRouted ts c q)
      → (q : Packet) → In q (new ++ a ++ b)
      → IsRouted ts c q
  delivered-IsRouted new fresh q here = elim (In-append q (new ++ a) b here) [
    | inl first ↦ elim (In-append q new a first) [
      | inl now ↦ fresh q now
      | inr before ↦ atomic.routed q (subst (In q) (sym e) (In-append_left q a (p ∷ b) before))
    ]
    | inr behind ↦ atomic.routed q (subst (In q) (sym e) (In-append_right q a (p ∷ b) (inr behind)))
  ]

-- A broadcast of neither a question nor an answer.
pub Spread-IsRouted :
    (ts : ℤ) (c : ℕ) (k : Kind) (i : ℕ) (ps : List Packet)
    → Spread (text_of ts k) i ps
    → same_kind k Kind.prepare ≡ false
    → same_kind k Kind.ready ≡ false
    → (q : Packet) → In q ps
    → IsRouted ts c q
Spread-IsRouted ts c k i ps spread no_question no_answer q here =
    let text = (spread.all q here).1 in
    record {
      asked = λ h. absurd (text_of-apart ts k Kind.prepare q.text no_question text h);
      answered = λ h. absurd (text_of-apart ts k Kind.ready q.text no_answer text h);
    }

-- A packet that is neither a question nor an answer.
module _ (ts : ℤ) (c : ℕ) (s : System) (atomic : IsAtomic ts c s) (k : Kind) (i j : ℕ)
    (a b new : List Packet)
    (e : s.net ≡ a ++ record { sender = i; receiver = j; text = text_of ts k } ∷ b)
    (not_asking : same_kind k Kind.prepare ≡ false) (not_answering : same_kind k Kind.ready ≡ false)
    (sv : Server) (same : Same (s.server j) sv)
    (spread : Spread (text_of ts Kind.abort) j new) where
  abbrev packet : Packet
  packet = record { sender = i; receiver = j; text = text_of ts k }

  quiet_counts :
      (l : ℕ)
      → (count (asks ts l) (new ++ a ++ b) ≡ count (asks ts l) s.net)
        × (count (answers ts l) (new ++ a ++ b) ≡ count (answers ts l) s.net)
  quiet_counts l =
      let x = count_changed (asks ts l) packet new a b s.net e in
      let y = count_changed (answers ts l) packet new a b s.net e in
      let u = text_eq-text_of ts k Kind.prepare in
      let v = text_eq-text_of ts k Kind.ready in
      (
        ground (arith, x, u, not_asking, Spread-asks_none ts Kind.abort j new spread l refl),
        ground (arith, y, v, not_answering, Spread-answers ts Kind.abort j new spread l refl),
      )

  pub quiet-IsAtomic :
      (committed aborted : List ℕ)
      → (0 < count (says (text_of ts Kind.ok)) (new ++ a ++ b) + length committed
          → 0 < count (says (text_of ts Kind.ok)) s.net + length s.committed)
      → (0
            < count (says (text_of ts Kind.abort)) (new ++ a ++ b)
              + count (says (text_of ts Kind.refused)) (new ++ a ++ b)
              + length aborted
          → 0
            < count (says (text_of ts Kind.abort)) s.net
              + count (says (text_of ts Kind.refused)) s.net
              + length s.aborted)
      → IsAtomic ts c (record s {
        server = update s.server j sv;
        net = new ++ a ++ b;
        committed = committed;
        aborted = aborted;
      })
  quiet-IsAtomic committed aborted commits loses =
      let begun = begun_before ts c s atomic packet a b e in
      record {
        wired =
            update-IsWired ts c s atomic j sv
              (Same-IsWired j (s.server j) sv same (atomic.wired j));
        idle = λ off. absurd (ground (arith, begun, off));
        routed =
            delivered-IsRouted ts c s atomic packet a b e new
              (Spread-IsRouted ts c Kind.abort j new spread refl refl);
        once = λ l ne.
            let n = quiet_counts l in let before = atomic.once l ne in omega (arith, n, before);
        said = λ l some_. let n = quiet_counts l in atomic.said l (omega (arith, n, some_));
        tally =
            update-commit_count ts c s atomic j sv (ap (lookup (format_int ts)) same.commit_count);
        others = atomic.others;
        losers = atomic.losers;
        own = atomic.own;
        decided = λ some_. atomic.decided (commits some_);
        lost = λ some_. atomic.lost (loses some_);
      }
