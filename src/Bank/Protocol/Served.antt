-- ===== src/Bank/Protocol/Served.antt =====
-- Rounds of `handleConnection` for another transaction, seen from the commit.
use cs.Prelude.{
  ◌≤◌, ◌≡◌, ◌≢◌, refl, sym, ◌∙◌, ap, subst, Bool, true, false, List, [], ◌∷◌, ◌||◌, Bool-cases, inl,
  inr, arith,
}
use cs.Prelude.Int.{ℤ, IsInt64}
use cs.Prelude.Text.{Text, text_eq, codes, format_int}
use cs.Prelude.Dict.{lookup, insert, lookup-insert}
use cs.Bank.Outcome.{returns, ◌>>=◌, >>=-eq-returns, or_panic}
use cs.Bank.State.{Operation, Server, Conn, Event, sent}
use cs.Bank.Abort.{do_abort}
use cs.Bank.Branch.{message}
use cs.Bank.Handler.{
  is_commit, is_abort, end_operation, close_client, broadcast, handle_operation, serve,
  abort_request,
}
use cs.Bank.Protocol.{branches, Keeps}
use cs.Bank.Protocol.Kept.{Same, do_abort-Same}
use cs.Bank.Protocol.Others.{Same-refl, Same-Keeps, Keeps-Keeps, handle_method-Keeps}

-- A client's connections, under the text of its timestamp.
abbrev registered : Text → Conn → Conn → Server → Server
registered key read_conn send_conn sv = record sv {
  read_conn = insert key read_conn sv.read_conn;
  send_conn = insert key send_conn sv.send_conn;
}

registered-Keeps :
    (ts : ℤ) (key : Text) (read_conn send_conn : Conn) (sv : Server)
    → branches ≤ send_conn
    → Keeps ts sv (registered key read_conn send_conn sv)
registered-Keeps ts key read_conn send_conn sv client = record {
  same_me = refl;
  same_name = refl;
  same_conn = λ n k found near. elim (Bool-cases (text_eq key n)) [
    | inl same ↦ absurd (ground (arith, lookup-insert key n send_conn sv.send_conn, same, found))
    | inr other ↦ ground (arith, lookup-insert key n send_conn sv.send_conn, other, found)
  ];
  same_count = refl;
}

abort_request-Same :
    (t : ℤ) (r : Bool) (sv sv' : Server) (events : List Event)
    → abort_request t sv ≡ returns (r, sv', events)
    → Same sv sv'
unfolding abort_request
abort_request-Same t r sv sv' events h =
    let (sv1, undone, h1) = >>=-eq-returns (do_abort t sv) _ h in
    let (es, told, h2) =
      >>=-eq-returns (broadcast (message (codes "ABORT_Coordinator") t) sv1) _ h1 in
    let (c, found, h3) = >>=-eq-returns (or_panic (lookup (format_int t) sv1.send_conn)) _ h2 in
    let (ends, closes, last) = >>=-eq-returns (close_client (format_int t) sv1) _ h3 in
    let at : sv1 ≡ sv' = ground (arith, last) in do_abort-Same t sv sv' (undone ∙ ap returns at)

end_operation-Same :
    (op : Operation) (c d : Conn) (r : Bool × Server × List Event) (over : Bool) (sv' : Server)
    (events : List Event)
    → end_operation op c d r ≡ (over, sv', events)
    → r.1 ≡ sv'
end_operation-Same op c d (true, sv, es) over sv' events h = ap (λ x. x.1) h
end_operation-Same op c d (false, sv, es) over sv' events h = ap (λ x. x.1) h

-- A coordinator's round for another transaction.
pub serve-Keeps :
    (ts : ℤ) (operation : Text) (op : Operation) (read_conn send_conn : Conn) (sv sv' : Server)
    (over : Bool) (events : List Event)
    → op.timestamp ≢ ts
    → IsInt64 ts
    → IsInt64 op.timestamp
    → branches ≤ send_conn
    → serve operation op read_conn send_conn sv ≡ returns (over, sv', events)
    → Keeps ts sv sv'
unfolding serve handle_operation
serve-Keeps ts operation op read_conn send_conn sv sv' over events other int int' client h =
    let sv1 = registered (format_int op.timestamp) read_conn send_conn sv in
    let first = registered-Keeps ts (format_int op.timestamp) read_conn send_conn sv client in
    elim (Bool-cases (text_eq op.branch sv.me || is_commit op.method)) [
      | inl own ↦
          let run : (handle_operation op send_conn sv1 >>= λ r.
          returns (end_operation op read_conn send_conn r))
              ≡ returns (over, sv', events) =
            sym (rw own refl) ∙ h in
          let ((r, sv2, es), done, last) =
            >>=-eq-returns (handle_operation op send_conn sv1) _ run in
          let ended : end_operation op read_conn send_conn (r, sv2, es) ≡ (over, sv', events) =
            ground (arith, last) in
          let at = end_operation-Same op read_conn send_conn (r, sv2, es) over sv' events ended in
          Keeps-Keeps ts sv sv1 sv' first (
            subst (Keeps ts sv1) at
              (handle_method-Keeps ts op other int int' op.method send_conn sv1 sv2 r es done))
      | inr away ↦ elim (Bool-cases (is_abort op.method)) [
        | inl gives_up ↦ Keeps-Keeps ts sv sv1 sv' first (
            Same-Keeps ts sv1 sv' (
              abort_request-Same op.timestamp over sv1 sv' events
                (sym (rw away (rw gives_up refl)) ∙ h)))
        | inr asks ↦
            let told : (or_panic (lookup op.branch sv1.send_conn) >>= λ c.
            returns (false, sv1, sent c operation ∷ []))
                ≡ returns (over, sv', events) =
              sym (rw away (rw asks refl)) ∙ h in
            let (c, found, last) =
              >>=-eq-returns (or_panic (lookup op.branch sv1.send_conn)) _ told in
            let at : sv1 ≡ sv' = ground (arith, last) in
            Keeps-Keeps ts sv sv1 sv' first
              (Same-Keeps ts sv1 sv' (subst (Same sv1) at (Same-refl sv1)))
      ]
    ]
