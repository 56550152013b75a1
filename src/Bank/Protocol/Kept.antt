-- ===== src/Bank/Protocol/Kept.antt =====
-- What the work of a branch keeps, and the end of a transaction at its coordinator.
use cs.Prelude.{
  ℕ, ◌+◌, ◌≡◌, ◌≢◌, refl, sym, ◌∙◌, ap, subst, Bool, false, Option, none, some, List, [], ◌∷◌, ◌++◌,
  ◌==◌, ◌&&◌, ◌⊎◌, ltb, All, inl, inr, Bool-cases, append-nil, arith,
}
use cs.Prelude.Int.{ℤ, pos, negsuc}
use cs.Prelude.Text.{Text, format_int}
use cs.Prelude.Text.Words.{format_int-without}
use cs.Prelude.Dict.{lookup}
use cs.Bank.Outcome.{returns, ◌>>=◌, >>=-eq-returns, or_panic}
use cs.Bank.State.{Server, Conn, Event, sent, closed}
use cs.Bank.Abort.{do_abort}
use cs.Bank.Abort.Result.{do_abort-returns}
use cs.Bank.Commit.{do_commit, check_commit, tx_related, overdrawn}
use cs.Bank.Handler.{broadcast, close_client}
use cs.Bank.Branch.{Reply}
use cs.Bank.Protocol.{branches, branch, packets}
use cs.Bank.Protocol.Sends.{AllDifferent, IsWired, Spread, broadcast-Spread}

-- What the protocol uses of a branch is as before.
pub record Same (sv sv' : Server) : Type 0 where
  pub me : sv'.me ≡ sv.me
  pub name : sv'.name ≡ sv.name
  pub send_conn : sv'.send_conn ≡ sv.send_conn
  pub commit_count : sv'.commit_count ≡ sv.commit_count

pub Same-Same : (a b c : Server) → Same a b → Same b c → Same a c
Same-Same a b c s t = record {
  me = t.me ∙ s.me;
  name = t.name ∙ s.name;
  send_conn = t.send_conn ∙ s.send_conn;
  commit_count = t.commit_count ∙ s.commit_count;
}

pub Same-IsWired : (i : ℕ) (sv sv' : Server) → Same sv sv' → IsWired i sv → IsWired i sv'
Same-IsWired i sv sv' s w = record {
  me = s.me ∙ w.me;
  names = subst AllDifferent (sym s.name) w.names;
  wires = λ n k found. w.wires n k (sym (ap (lookup n) s.send_conn) ∙ found);
}

pub do_abort-Same : (ts : ℤ) (sv sv' : Server) → do_abort ts sv ≡ returns sv' → Same sv sv'
do_abort-Same ts sv sv' h =
    let r = do_abort-returns ts sv sv' h in
    record { me = r.6; name = r.5; send_conn = r.3; commit_count = r.2 }

pub do_commit-Same :
    (fuel : ℕ) (ts : ℤ) (sv sv' : Server) → do_commit fuel ts sv ≡ returns sv' → Same sv sv'
unfolding do_commit
do_commit-Same fuel ts sv sv' h = record {
  me = ground arith;
  name = ground arith;
  send_conn = ground arith;
  commit_count = ground arith;
}

check_commit-cases :
    (ts : ℤ) (sv sv' : Server) (ok : Bool)
    → check_commit ts sv ≡ returns (ok, sv')
    → (sv' ≡ sv) ⊎ (do_abort ts sv ≡ returns sv')
unfolding check_commit
check_commit-cases ts sv sv' ok h =
    elim (Bool-cases (tx_related ts sv.tw && overdrawn ts sv.accounts sv.tw)) [
      | inl refused ↦ inr (ground (arith, refused, h))
      | inr fine ↦ inl (ground (arith, fine, h))
    ]

pub check_commit-Same :
    (ts : ℤ) (sv sv' : Server) (ok : Bool) → check_commit ts sv ≡ returns (ok, sv') → Same sv sv'
check_commit-Same ts sv sv' ok h = elim (check_commit-cases ts sv sv' ok h) [
  | inl same ↦ record {
    me = ap (λ s. s.me) same;
    name = ap (λ s. s.name) same;
    send_conn = ap (λ s. s.send_conn) same;
    commit_count = ap (λ s. s.commit_count) same;
  }
  | inr undone ↦ do_abort-Same ts sv sv' undone
]

packets-append : (i : ℕ) (a b : List Event) → packets i (a ++ b) ≡ packets i a ++ packets i b
unfolding packets
packets-append i [] b = refl
packets-append i (closed c ∷ a) b = packets-append i a b
packets-append i (sent c text ∷ a) b = ground (arith, packets-append i a b)

-- The name of a branch is no timestamp.
format_int-branch : (z : ℤ) (k : ℕ) → format_int z ≢ branch k
format_int-branch (pos n) k e =
    let differs =
      subst (All (λ d. (d == (65 + k)) ≡ false)) e (format_int-without n (65 + k) (omega arith)) in
    absurd (ground (arith, differs.0))
format_int-branch (negsuc n) k e = unfold format_int in absurd (ground (arith, e))

client_conn :
    (ts : ℤ) (i : ℕ) (sv : Server) (k : Conn)
    → IsWired i sv
    → lookup (format_int ts) sv.send_conn ≡ some k
    → ltb k branches ≡ false
client_conn ts i sv k w found = elim (Bool-cases (ltb k branches)) [
  | inr far ↦ far
  | inl near ↦
      absurd (format_int-branch ts k (w.wires (format_int ts) k found (ground (arith, near))))
]

-- What only clients get leaves the messages to branches as they are.
packets-client :
    (i : ℕ) (events : List Event) (c s r : Conn) (text : Text)
    → ltb c branches ≡ false
    → packets i (events ++ sent c text ∷ closed s ∷ closed r ∷ []) ≡ packets i events
unfolding packets
packets-client i events c s r text far =
    packets-append i events (sent c text ∷ closed s ∷ closed r ∷ [])
    ∙ ap (λ ps. packets i events ++ ps) (rw far refl)
    ∙ append-nil (packets i events)

pub or_panic-returns {ℓ} : {A : Type ℓ} (o : Option A) (a : A) → or_panic o ≡ returns a → o ≡ some a
or_panic-returns none a h = cc
or_panic-returns (some b) a h = ground (arith, h)

close_client-returns :
    (word : Text) (sv : Server) (ends : List Event)
    → close_client word sv ≡ returns ends
    → (s : Conn) × (r : Conn) × (ends ≡ closed s ∷ closed r ∷ [])
close_client-returns word sv ends h =
    let (s, found, h') = >>=-eq-returns (or_panic (lookup word sv.send_conn)) _ h in
    let (r, found', h'') = >>=-eq-returns (or_panic (lookup word sv.read_conn)) _ h' in
    (s, r, ground (arith, h''))

-- The end of a transaction at its coordinator: a broadcast, and the answer to the client.
abbrev pub finish : Text → Text → ℤ → Server → Reply
finish msg text ts sv = do
  events ← broadcast msg sv
  c ← or_panic (lookup (format_int ts) sv.send_conn)
  ends ← close_client (format_int ts) sv
  returns (sv, events ++ sent c text ∷ ends)

pub finish_fields :
    (msg text : Text) (ts : ℤ) (i : ℕ) (sv sv' : Server) (events : List Event)
    → IsWired i sv
    → finish msg text ts sv ≡ returns (sv', events)
    → (sv' ≡ sv) × Spread msg i (packets i events)
finish_fields msg text ts i sv sv' events w h =
    let (es, done, h') = >>=-eq-returns (broadcast msg sv) _ h in
    let (c, found, h'') = >>=-eq-returns (or_panic (lookup (format_int ts) sv.send_conn)) _ h' in
    let (ends, closes, last) = >>=-eq-returns (close_client (format_int ts) sv) _ h'' in
    let (s, r, e) = close_client-returns (format_int ts) sv ends closes in
    let far =
      client_conn ts i sv c w (or_panic-returns (lookup (format_int ts) sv.send_conn) c found) in
    let whole : events ≡ es ++ sent c text ∷ closed s ∷ closed r ∷ [] = ground (arith, last, e) in
    (
      ground (arith, last),
      subst (Spread msg i) (sym (ap (packets i) whole ∙ packets-client i es c s r text far))
          (broadcast-Spread msg i sv es w done),
    )
