-- ===== src/Bank/Protocol/Agreement/Answers.antt =====
-- An answer that the coordinator counts.
use cs.Prelude.{
  ℕ, suc, ◌+◌, ◌<◌, ◌≤◌, ◌≡◌, ◌≢◌, inl, inr, refl, ◌∙◌, ap, subst, false, some, List, [], ◌∷◌, ◌++◌,
  ◌==◌, ==_iff, length, count, Bool-cases, update, update_self, arith, if◌then◌else◌,
}
use cs.Prelude.Int.{ℤ}
use cs.Prelude.Text.{format_int}
use cs.Prelude.Dict.{lookup}
use cs.Bank.State.{Server}
use cs.Bank.Branch.{ready_count}
use cs.Bank.Protocol.{branches, Packet, System}
use cs.Bank.Protocol.Sends.{IsWired, Spread}
use cs.Bank.Protocol.Counting.{one_if, count_changed, occurs_cons}
use cs.Bank.Protocol.Kinds.{
  asks, answers, says, Kind, text_of, same_kind, text_eq-text_of, Spread-says, Spread-answers,
  Spread-asks_none,
}
use cs.Bank.Protocol.Agreement.{IsAtomic}
use cs.Bank.Protocol.Agreement.Steps.{
  Spread-IsRouted, update-IsWired, delivered, begun_before, delivered-IsRouted,
}

module _ (ts : ℤ) (c : ℕ) (s : System) (atomic : IsAtomic ts c s) (i j : ℕ) (a b new : List Packet)
    (e : s.net ≡ a ++ record { sender = i; receiver = j; text = text_of ts Kind.ready } ∷ b)
    (sv : Server) (wired : IsWired j sv)
    (counter : lookup (format_int ts) sv.commit_count
      ≡ some (ready_count (format_int ts) (s.server j)))
    (spread : Spread (text_of ts Kind.ok) j new)
    (few : ready_count (format_int ts) (s.server j) ≢ 4 → new ≡ []) where
  abbrev answer : Packet
  answer = record { sender = i; receiver = j; text = text_of ts Kind.ready }

  answer_route : (j ≡ c) × (i ≢ c) × (i < branches)
  answer_route = (atomic.routed answer (delivered ts c s atomic answer a b e)).answered refl

  -- The coordinator's counter.
  answer_counter : ready_count (format_int ts) (s.server j) ≡ length s.counted + 1
  answer_counter =
      let before = atomic.tally (begun_before ts c s atomic answer a b e) in
      ap (λ k. ready_count (format_int ts) (s.server k)) answer_route.0
      ∙ rw (before, ready_count) refl

  answer_counts :
      (l : ℕ)
      → let net = new ++ a ++ b in
        (count (asks ts l) net ≡ count (asks ts l) s.net)
        × (count (answers ts l) net + one_if (i == l) ≡ count (answers ts l) s.net)
  answer_counts l =
      let x = count_changed (asks ts l) answer new a b s.net e in
      let y = count_changed (answers ts l) answer new a b s.net e in
      let at = text_eq-text_of ts Kind.ready Kind.prepare in
      let at' = text_eq-text_of ts Kind.ready Kind.ready in
      (
        ground (arith, x, at, Spread-asks_none ts Kind.ok j new spread l refl),
        ground (arith, y, at', Spread-answers ts Kind.ok j new spread l refl),
      )

  answer_says :
      (k : Kind)
      → same_kind Kind.ready k ≡ false
      → count (says (text_of ts k)) (new ++ a ++ b)
        ≡ count (says (text_of ts k)) new + count (says (text_of ts k)) s.net
  answer_says k other =
      let x = count_changed (says (text_of ts k)) answer new a b s.net e in
      let at = text_eq-text_of ts Kind.ready k in ground (arith, x, at, other)

  abbrev committed_after : List ℕ
  committed_after =
      if ready_count (format_int ts) (s.server j) == 4 then j ∷ s.committed else s.committed

  -- Something is committed with this answer only if it is the last one.
  answer_decided :
      0 < count (says (text_of ts Kind.ok)) (new ++ a ++ b) + length committed_after
      → 4 ≤ length s.counted + 1
  answer_decided some_ = elim (Bool-cases (ready_count (format_int ts) (s.server j) == 4)) [
    | inl all ↦
        let four = (==_iff (ready_count (format_int ts) (s.server j)) 4).0 all in
        omega (arith, four, answer_counter)
    | inr open_ ↦
        let none_ : new ≡ [] = few (λ four. ground (arith, open_, four)) in
        let quiet : count (says (text_of ts Kind.ok)) new ≡ 0 =
          ap (count (says (text_of ts Kind.ok))) none_ in
        let kept : length committed_after ≡ length s.committed = rw open_ refl in
        let before = atomic.decided (omega (arith, answer_says Kind.ok refl, quiet, kept, some_)) in
        omega (arith, before)
  ]

  pub counts-IsAtomic : IsAtomic ts c (record s {
    server = update s.server j sv;
    net = new ++ a ++ b;
    counted = i ∷ s.counted;
    committed = committed_after;
  })
  counts-IsAtomic =
      let begun = begun_before ts c s atomic answer a b e in
      let (at, ne, lt) = answer_route in
      record {
        wired = update-IsWired ts c s atomic j sv wired;
        idle = λ off. absurd (ground (arith, begun, off));
        routed =
            delivered-IsRouted ts c s atomic answer a b e new
              (Spread-IsRouted ts c Kind.ok j new spread refl refl);
        once = λ l other.
            let n = answer_counts l in
            let before = atomic.once l other in
            rw (occurs_cons l i s.counted) (ground (arith, n, before));
        said = λ l some_.
            let n = answer_counts l in
            atomic.said l (omega (arith, n, occurs_cons l i s.counted, some_));
        tally = λ on.
            subst
              (λ k.
                lookup (format_int ts) (update s.server j sv k).commit_count
                ≡ some (suc (length s.counted)))
              at
              (ap (λ v. lookup (format_int ts) v.commit_count) (update_self s.server j sv)
                ∙ counter
                ∙ ap some (omega (arith, answer_counter)));
        others = ((lt, ne), atomic.others);
        losers = atomic.losers;
        own = atomic.own;
        decided = λ some_. omega (arith, answer_decided some_);
        lost = λ some_.
            let x = Spread-says ts Kind.ok j new spread Kind.abort refl in
            let y = Spread-says ts Kind.ok j new spread Kind.refused refl in
            atomic.lost (
              omega
                (arith, x, y, answer_says Kind.abort refl, answer_says Kind.refused refl, some_));
      }
