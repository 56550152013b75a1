-- ===== src/Bank/Protocol/Agreement/Begins.antt =====
-- The beginning of a commit, and the other work of a branch.
use cs.Prelude.{
  ℕ, ◌+◌, ◌<◌, ◌≡◌, ◌≢◌, inl, inr, refl, sym, ◌∙◌, ap, subst, Bool, true, false, some, List, [],
  ◌∷◌, ◌++◌, length, count, All, In, update, update_self, arith, if◌then◌else◌,
}
use cs.Prelude.Int.{ℤ}
use cs.Prelude.Text.{format_int}
use cs.Prelude.Dict.{lookup}
use cs.Bank.State.{Server}
use cs.Bank.Protocol.{
  branches, Packet, System, Keeps, prepare_text, refused_text, ok_text, abort_text,
}
use cs.Bank.Protocol.Sends.{AllDifferent, IsWired, Spread}
use cs.Bank.Protocol.Counting.{count-append, occurs}
use cs.Bank.Protocol.Kinds.{
  asks, answers, says, Kind, text_of, same_kind, text_of-apart, Spread-says, Spread-answers,
  Spread-asks_none, Spread-asks,
}
use cs.Bank.Protocol.Agreement.{IsRouted, IsAtomic}
use cs.Bank.Protocol.Agreement.Steps.{In-append, update-IsWired, update-commit_count}

-- Five branches that know one another, before the commit.
pub record IsStart (s : System) : Type 0 where
  pub wired : (i : ℕ) → IsWired i (s.server i)
  pub quiet : s.net ≡ []
  pub unasked : s.begun ≡ false
  pub nobody :
      (s.ready ≡ []) × (s.refusing ≡ []) × (s.counted ≡ []) × (s.committed ≡ []) × (s.aborted ≡ [])

pub start-IsAtomic : (ts : ℤ) (c : ℕ) (s : System) → IsStart s → IsAtomic ts c s
unfolding occurs
start-IsAtomic ts c s h =
    let (r0, f0, c0, m0, a0) = h.nobody in
    let no_packet : (f : Packet → Bool) → count f s.net ≡ 0 = λ f. ap (count f) h.quiet in
    record {
      wired = h.wired;
      idle = λ _. (h.quiet, c0, m0, f0, a0);
      routed = λ p here. absurd (subst (In p) h.quiet here);
      once = λ j ne.
          let x = ap (occurs j) c0 in
          let y = ap (occurs j) f0 in
          let z = ap (occurs c) f0 in
          omega (arith, no_packet (asks ts j), no_packet (answers ts j), x, y, z);
      said = λ j some_.
          let x = ap (occurs j) c0 in absurd (omega (arith, no_packet (answers ts j), x, some_));
      tally = λ on. absurd (ground (arith, h.unasked, on));
      others = subst (All (λ j. (j < branches) × (j ≢ c))) (sym c0) tt;
      losers = subst (All (λ j. j < branches)) (sym f0) tt;
      own = λ on. absurd (ground (arith, h.unasked, on));
      decided = λ some_.
          let x = ap length m0 in absurd (omega (arith, no_packet (says (ok_text ts)), x, some_));
      lost = λ some_.
          let x = ap length a0 in
          absurd (
            omega (
              arith,
              no_packet (says (abort_text ts)),
              no_packet (says (refused_text ts)),
              x,
              some_,
            ));
    }

-- The coordinator's first broadcast.
module _ (ts : ℤ) (c : ℕ) (s : System) (atomic : IsAtomic ts c s) (off : s.begun ≡ false)
    (lt : c < branches) (sv : Server) (wired : IsWired c sv)
    (counter : lookup (format_int ts) sv.commit_count ≡ some 0) (k : Kind) (new : List Packet)
    (spread : Spread (text_of ts k) c new) (not_ready : same_kind k Kind.ready ≡ false) where
  first : (f : Packet → Bool) → count f (new ++ s.net) ≡ count f new
  first f =
      let quiet : count f s.net ≡ 0 = ap (count f) (atomic.idle off).0 in
      omega (arith, count-append f new s.net, quiet)

  first-IsRouted : (q : Packet) → In q (new ++ s.net) → IsRouted ts c q
  first-IsRouted q here = elim (In-append q new s.net here) [
    | inr old ↦ absurd (subst (In q) (atomic.idle off).0 old)
    | inl now ↦
        let (from, text, other, near) = spread.all q now in
        record {
          asked = λ _. (from, other, near);
          answered = λ h. absurd (text_of-apart ts k Kind.ready q.text not_ready text h);
        }
  ]

  first_tally :
      lookup (format_int ts) (update s.server c sv c).commit_count ≡ some (length s.counted)
  first_tally =
      ap (λ v. lookup (format_int ts) v.commit_count) (update_self s.server c sv)
      ∙ counter
      ∙ ap some (sym (ap length (atomic.idle off).1))

  first_said :
      (j : ℕ) → 0 < count (answers ts j) (new ++ s.net) + occurs j s.counted → 0 < occurs j s.ready
  first_said j some_ =
      let none_ = Spread-answers ts k c new spread j not_ready in
      let nobody : count (answers ts j) s.net + occurs j s.counted ≡ occurs j s.counted =
        omega (arith, ap (count (answers ts j)) (atomic.idle off).0) in
      atomic.said j (omega (arith, none_, first (answers ts j), nobody, some_))

  first_once : (j : ℕ) → occurs j s.counted + occurs j s.refusing + occurs c s.refusing ≡ 0
  unfolding occurs
  first_once j =
      let (_, x, _, y, _) = atomic.idle off in
      let u = ap (occurs j) x in
      let v = ap (occurs j) y in let w = ap (occurs c) y in omega (arith, u, v, w)

pub begins-IsAtomic :
    (ts : ℤ) (c : ℕ) (s : System) (sv : Server) (refused : Bool) (new : List Packet)
    → IsAtomic ts c s
    → s.begun ≡ false
    → c < branches
    → IsWired c sv
    → lookup (format_int ts) sv.commit_count ≡ some 0
    → Spread (if refused then abort_text ts else prepare_text ts) c new
    → IsAtomic ts c (record s {
      server = update s.server c sv;
      net = new ++ s.net;
      begun = true;
      ready = if refused then s.ready else c ∷ s.ready;
      refusing = if refused then c ∷ s.refusing else s.refusing;
      aborted = if refused then c ∷ s.aborted else s.aborted;
    })
unfolding occurs
begins-IsAtomic ts c s sv false new atomic off lt wired counter spread =
    let k = Kind.prepare in
    let count_new = first ts c s atomic off lt sv wired counter k new spread refl in
    record {
      wired = update-IsWired ts c s atomic c sv wired;
      idle = λ e. absurd (ground (arith, e));
      routed = first-IsRouted ts c s atomic off lt sv wired counter k new spread refl;
      once = λ j ne.
          let none_ = first_once ts c s atomic off lt sv wired counter k new spread refl j in
          let few = Spread-asks ts k c new spread j in
          let quiet = Spread-answers ts k c new spread j refl in
          omega (arith, none_, few, quiet, count_new (asks ts j), count_new (answers ts j));
      said = λ j some_.
          let before = first_said ts c s atomic off lt sv wired counter k new spread refl j some_ in
          omega (arith, before);
      tally = λ _. first_tally ts c s atomic off lt sv wired counter k new spread refl;
      others = atomic.others;
      losers = atomic.losers;
      own = λ _. inl (ground arith);
      decided = λ some_.
          let quiet = Spread-says ts k c new spread Kind.ok refl in
          atomic.decided (omega (arith, quiet, count_new (says (ok_text ts)), some_));
      lost = λ some_.
          let x = Spread-says ts k c new spread Kind.abort refl in
          let y = Spread-says ts k c new spread Kind.refused refl in
          atomic.lost (
            omega (
              arith,
              x,
              y,
              count_new (says (abort_text ts)),
              count_new (says (refused_text ts)),
              some_,
            ));
    }
begins-IsAtomic ts c s sv true new atomic off lt wired counter spread =
    let k = Kind.abort in
    let count_new = first ts c s atomic off lt sv wired counter k new spread refl in
    record {
      wired = update-IsWired ts c s atomic c sv wired;
      idle = λ e. absurd (ground (arith, e));
      routed = first-IsRouted ts c s atomic off lt sv wired counter k new spread refl;
      once = λ j ne.
          let none_ = first_once ts c s atomic off lt sv wired counter k new spread refl j in
          let few = Spread-asks_none ts k c new spread j refl in
          let quiet = Spread-answers ts k c new spread j refl in
          ground (arith, ne, none_, few, quiet, count_new (asks ts j), count_new (answers ts j));
      said = first_said ts c s atomic off lt sv wired counter k new spread refl;
      tally = λ _. first_tally ts c s atomic off lt sv wired counter k new spread refl;
      others = atomic.others;
      losers = (lt, atomic.losers);
      own = λ _. inr (ground arith);
      decided = λ some_.
          let quiet = Spread-says ts k c new spread Kind.ok refl in
          atomic.decided (omega (arith, quiet, count_new (says (ok_text ts)), some_));
      lost = λ _. omega arith;
    }

pub works-IsAtomic :
    (ts : ℤ) (c : ℕ) (s : System) (i : ℕ) (sv : Server)
    → IsAtomic ts c s
    → Keeps ts (s.server i) sv
    → IsAtomic ts c (record s { server = update s.server i sv })
works-IsAtomic ts c s i sv atomic keeps =
    let w = atomic.wired i in
    let wired : IsWired i sv = record {
      me = keeps.same_me ∙ w.me;
      names = subst AllDifferent (sym keeps.same_name) w.names;
      wires = λ n k found near. w.wires n k (keeps.same_conn n k found near) near;
    } in
    record {
      wired = update-IsWired ts c s atomic i sv wired;
      idle = atomic.idle;
      routed = atomic.routed;
      once = atomic.once;
      said = atomic.said;
      tally = update-commit_count ts c s atomic i sv keeps.same_count;
      others = atomic.others;
      losers = atomic.losers;
      own = atomic.own;
      decided = atomic.decided;
      lost = atomic.lost;
    }
