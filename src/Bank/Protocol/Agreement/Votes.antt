-- ===== src/Bank/Protocol/Agreement/Votes.antt =====
-- The votes of a commit.
use cs.Prelude.{
  ℕ, ◌+◌, ◌<◌, ◌≡◌, ◌≢◌, inl, inr, refl, sym, ap, subst, false, List, [], ◌∷◌, ◌++◌, ◌&&◌, ◌==◌,
  count, In, update, arith,
}
use cs.Prelude.Int.{ℤ}
use cs.Prelude.Text.{format_int}
use cs.Prelude.Dict.{lookup}
use cs.Bank.State.{Server}
use cs.Bank.Protocol.{branches, Packet, System}
use cs.Bank.Protocol.Kept.{Same, Same-IsWired}
use cs.Bank.Protocol.Counting.{one_if, count_changed, occurs_cons}
use cs.Bank.Protocol.Kinds.{
  asks, answers, says, Kind, text_of, same_kind, text_eq-text_of, text_of-apart,
}
use cs.Bank.Protocol.Agreement.{IsRouted, IsAtomic}
use cs.Bank.Protocol.Agreement.Steps.{
  update-IsWired, update-commit_count, delivered, begun_before, delivered-IsRouted,
}

module _ (ts : ℤ) (c : ℕ) (s : System) (atomic : IsAtomic ts c s) (i j : ℕ) (a b : List Packet)
    (e : s.net ≡ a ++ record { sender = i; receiver = j; text = text_of ts Kind.prepare } ∷ b)
    (lt : c < branches) (sv : Server) (same : Same (s.server j) sv) where
  abbrev question : Packet
  question = record { sender = i; receiver = j; text = text_of ts Kind.prepare }

  pub route : (i ≡ c) × (j ≢ c) × (j < branches)
  route = (atomic.routed question (delivered ts c s atomic question a b e)).asked refl

  abbrev vote : Kind → List Packet
  vote k = record { sender = j; receiver = c; text = text_of ts k } ∷ []

  vote_counts :
      (k : Kind) (l : ℕ)
      → let net = vote k ++ a ++ b in
        (count (asks ts l) net + one_if (j == l)
          ≡ one_if ((c == l) && same_kind k Kind.prepare) + count (asks ts l) s.net)
        × (count (answers ts l) net
            ≡ one_if ((j == l) && same_kind k Kind.ready) + count (answers ts l) s.net)
  vote_counts k l =
      let x = count_changed (asks ts l) question (vote k) a b s.net e in
      let y = count_changed (answers ts l) question (vote k) a b s.net e in
      let at = text_eq-text_of ts Kind.prepare Kind.prepare in
      let at' = text_eq-text_of ts Kind.prepare Kind.ready in
      let new = text_eq-text_of ts k Kind.prepare in
      let new' = text_eq-text_of ts k Kind.ready in
      (ground (arith, x, at, new), ground (arith, y, at', new'))

  count-says :
      (k k' : Kind)
      → same_kind Kind.prepare k' ≡ false
      → count (says (text_of ts k')) (vote k ++ a ++ b)
        ≡ one_if (same_kind k k') + count (says (text_of ts k')) s.net
  count-says k k' other =
      let x = count_changed (says (text_of ts k')) question (vote k) a b s.net e in
      let at = text_eq-text_of ts Kind.prepare k' in
      let new = text_eq-text_of ts k k' in ground (arith, x, at, new, other)

  vote-IsRouted :
      (k : Kind) → same_kind k Kind.prepare ≡ false → (q : Packet) → In q (vote k) → IsRouted ts c q
  vote-IsRouted k other q (inl here) = subst (IsRouted ts c) (sym here) (record {
    asked = λ h. absurd (text_of-apart ts k Kind.prepare (text_of ts k) other refl h);
    answered = λ h. (refl, route.1, route.2);
  })
  vote-IsRouted k other q (inr later) = absurd later

  pub ready-IsAtomic : IsAtomic ts c (record s {
    server = update s.server j sv;
    net = vote Kind.ready ++ a ++ b;
    ready = j ∷ s.ready;
  })
  ready-IsAtomic =
      let begun = begun_before ts c s atomic question a b e in
      let yes_ = count-says Kind.ready in
      record {
        wired =
            update-IsWired ts c s atomic j sv
              (Same-IsWired j (s.server j) sv same (atomic.wired j));
        idle = λ off. absurd (ground (arith, begun, off));
        routed =
            delivered-IsRouted ts c s atomic question a b e (vote Kind.ready)
              (vote-IsRouted Kind.ready refl);
        once = λ l ne.
            let n = vote_counts Kind.ready l in
            let before = atomic.once l ne in ground (arith, n, before);
        said = λ l some_.
            let n = vote_counts Kind.ready l in
            rw (occurs_cons l j s.ready) (ground (arith, n, atomic.said l, some_));
        tally =
            update-commit_count ts c s atomic j sv (ap (lookup (format_int ts)) same.commit_count);
        others = atomic.others;
        losers = atomic.losers;
        own = λ on. elim (atomic.own on) [
          | inl r ↦ inl (rw (occurs_cons c j s.ready) (ground (arith, r)))
          | inr r ↦ inr r
        ];
        decided = λ some_. atomic.decided (omega (arith, yes_ Kind.ok refl, some_));
        lost = λ some_.
            atomic.lost (omega (arith, yes_ Kind.abort refl, yes_ Kind.refused refl, some_));
      }

  pub refused-IsAtomic : IsAtomic ts c (record s {
    server = update s.server j sv;
    net = vote Kind.refused ++ a ++ b;
    refusing = j ∷ s.refusing;
    aborted = j ∷ s.aborted;
  })
  refused-IsAtomic =
      let begun = begun_before ts c s atomic question a b e in
      record {
        wired =
            update-IsWired ts c s atomic j sv
              (Same-IsWired j (s.server j) sv same (atomic.wired j));
        idle = λ off. absurd (ground (arith, begun, off));
        routed =
            delivered-IsRouted ts c s atomic question a b e (vote Kind.refused)
              (vote-IsRouted Kind.refused refl);
        once = λ l ne.
            let n = vote_counts Kind.refused l in
            let before = atomic.once l ne in
            rw (occurs_cons l j s.refusing)
              (rw (occurs_cons c j s.refusing) (ground (arith, n, before, route.1)));
        said = λ l some_.
            let n = vote_counts Kind.refused l in atomic.said l (ground (arith, n, some_));
        tally =
            update-commit_count ts c s atomic j sv (ap (lookup (format_int ts)) same.commit_count);
        others = atomic.others;
        losers = (route.2, atomic.losers);
        own = λ on. elim (atomic.own on) [
          | inl r ↦ inl r
          | inr r ↦ inr (rw (occurs_cons c j s.refusing) (ground (arith, r)))
        ];
        decided =
            λ some_. atomic.decided (omega (arith, count-says Kind.refused Kind.ok refl, some_));
        lost = λ some_. omega arith;
      }
