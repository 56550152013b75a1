-- ===== src/Bank/Protocol/Requests.antt =====
-- The client's commit request at the coordinator.
use cs.Prelude.{
  ℕ, ◌≤◌, ◌≡◌, sym, ◌∙◌, ap, subst, Bool, true, false, some, List, ◌∷◌, ltb, arith, if◌then◌else◌,
}
use cs.Prelude.Int.{ℤ}
use cs.Prelude.Text.{codes, format_int}
use cs.Prelude.Dict.{lookup, insert, lookup-insert_self}
use cs.Bank.Outcome.{returns, >>=-eq-returns}
use cs.Bank.State.{Server, Conn, Event, sent}
use cs.Bank.Abort.{do_abort}
use cs.Bank.Commit.{check_commit}
use cs.Bank.Handler.{broadcast, end_check, handle_operation}
use cs.Bank.Protocol.{branches, packets, commit_request, prepare_text, abort_text}
use cs.Bank.Protocol.Sends.{IsWired, Spread, packets-far, broadcast-Spread}
use cs.Bank.Protocol.Kept.{Same-IsWired, do_abort-Same, check_commit-Same}

begins_end :
    (ts : ℤ) (i : ℕ) (conn : Conn) (sv sv' : Server) (ok refused : Bool) (events : List Event)
    → branches ≤ conn
    → IsWired i sv
    → lookup (format_int ts) sv.commit_count ≡ some 0
    → end_check (commit_request ts) conn ok sv ≡ returns (refused, sv', events)
    → IsWired i sv'
      × (lookup (format_int ts) sv'.commit_count ≡ some 0)
      × Spread (if refused then abort_text ts else prepare_text ts) i (packets i events)
unfolding end_check
begins_end ts i conn sv sv' true refused events client w zero_ h =
    let (es, done, last) = >>=-eq-returns (broadcast (prepare_text ts) sv) _ h in
    let at : sv ≡ sv' = ground (arith, last) in
    let off : refused ≡ false = ground (arith, last) in
    let all : es ≡ events = ground (arith, last) in
    (
      subst (IsWired i) at w,
      subst (λ s. lookup (format_int ts) s.commit_count ≡ some 0) at zero_,
      rw off (
          subst (λ e. Spread (prepare_text ts) i (packets i e)) all
            (broadcast-Spread (prepare_text ts) i sv es w done)),
    )
begins_end ts i conn sv sv' false refused events client w zero_ h =
    let (es, done, h1) = >>=-eq-returns (broadcast (abort_text ts) sv) _ h in
    let (sv1, undone, last) = >>=-eq-returns (do_abort ts sv) _ h1 in
    let at : sv1 ≡ sv' = ground (arith, last) in
    let on : refused ≡ true = ground (arith, last) in
    let all : sent conn (codes "ABORTED") ∷ es ≡ events = ground (arith, last) in
    let same = do_abort-Same ts sv sv1 undone in
    let far : ltb conn branches ≡ false = ground (arith, client) in
    (
      subst (IsWired i) at (Same-IsWired i sv sv1 same w),
      subst (λ s. lookup (format_int ts) s.commit_count ≡ some 0) at
          (ap (lookup (format_int ts)) same.commit_count ∙ zero_),
      rw on (
          subst (λ e. Spread (abort_text ts) i (packets i e)) all
            (subst (Spread (abort_text ts) i) (sym (packets-far i conn (codes "ABORTED") es far))
              (broadcast-Spread (abort_text ts) i sv es w done))),
    )

-- The client's commit request, at the coordinator.
pub begins_fields :
    (ts : ℤ) (i : ℕ) (conn : Conn) (sv sv' : Server) (refused : Bool) (events : List Event)
    → branches ≤ conn
    → IsWired i sv
    → handle_operation (commit_request ts) conn sv ≡ returns (refused, sv', events)
    → IsWired i sv'
      × (lookup (format_int ts) sv'.commit_count ≡ some 0)
      × Spread (if refused then abort_text ts else prepare_text ts) i (packets i events)
unfolding handle_operation end_check
begins_fields ts i conn sv sv' refused events client w h =
    let reset : Server = record sv { commit_count = insert (format_int ts) 0 sv.commit_count } in
    let wired : IsWired i reset = record { me = w.me; names = w.names; wires = w.wires } in
    let ((ok, sv1), checked, h1) = >>=-eq-returns (check_commit ts reset) _ h in
    let same = check_commit-Same ts reset sv1 ok checked in
    let wired1 = Same-IsWired i reset sv1 same wired in
    let zero_ : lookup (format_int ts) sv1.commit_count ≡ some 0 =
      ap (lookup (format_int ts)) same.commit_count
      ∙ lookup-insert_self (format_int ts) 0 sv.commit_count in
    begins_end ts i conn sv1 sv' ok refused events client wired1 zero_ h1
