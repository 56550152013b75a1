-- ===== src/Bank/Protocol/Others.antt =====
-- What the requests of another transaction keep.
use cs.Prelude.{
  ◌≡◌, ◌≢◌, refl, sym, ◌∙◌, ap, subst, some_inj, Bool, true, false, List, Bool-cases, inl, inr,
  arith,
}
use cs.Prelude.Int.{ℤ, IsInt64}
use cs.Prelude.Text.{Text, text_eq, text_eq→eq, codes, format_int, parse_int}
use cs.Prelude.Text.Digits.{parse_int-format_int}
use cs.Prelude.Dict.{lookup, insert, lookup-insert}
use cs.Bank.Outcome.{returns, >>=-eq-returns}
use cs.Bank.State.{Method, Operation, Server, Conn, Event}
use cs.Bank.Write.{write_rule, write_missing, write}
use cs.Bank.Read.{ReadResult, value, aborted, pending, read_version, read}
use cs.Bank.Abort.{do_abort}
use cs.Bank.Commit.{check_commit}
use cs.Bank.Branch.{message}
use cs.Bank.Handler.{broadcast, end_write, end_read, end_check, handle_method}
use cs.Bank.Protocol.{Keeps}
use cs.Bank.Protocol.Kept.{Same, Same-Same, do_abort-Same, check_commit-Same}

pub Same-refl : (sv : Server) → Same sv sv
Same-refl sv = record { me = refl; name = refl; send_conn = refl; commit_count = refl }

pub write-Same :
    (op : Operation) (sv sv' : Server) (b : Bool) → write op sv ≡ returns (b, sv') → Same sv sv'
unfolding write write_missing write_rule
write-Same op sv sv' b h = record {
  me = ground (arith, h);
  name = ground (arith, h);
  send_conn = ground (arith, h);
  commit_count = ground (arith, h);
}

pub read-Same : (op : Operation) (sv : Server) → Same sv (read op sv).1
unfolding read read_version
read-Same op sv = record {
  me = ground arith;
  name = ground arith;
  send_conn = ground arith;
  commit_count = ground arith;
}

end_write-Same :
    (refusal : Text) (op : Operation) (conn : Conn) (b r : Bool) (sv sv' : Server)
    (events : List Event)
    → end_write refusal op conn b sv ≡ returns (r, sv', events)
    → Same sv sv'
unfolding end_write
end_write-Same refusal op conn true r sv sv' events h =
    let (sv1, undone, last) = >>=-eq-returns (do_abort op.timestamp sv) _ h in
    let at : sv1 ≡ sv' = ground (arith, last) in
    do_abort-Same op.timestamp sv sv' (undone ∙ ap returns at)
end_write-Same refusal op conn false r sv sv' events h =
    let at : sv ≡ sv' = ground (arith, h) in subst (Same sv) at (Same-refl sv)

end_read-Same :
    (op : Operation) (conn : Conn) (o : ReadResult) (r : Bool) (sv sv' : Server)
    (events : List Event)
    → end_read op conn o sv ≡ returns (r, sv', events)
    → Same sv sv'
unfolding end_read
end_read-Same op conn (value v) r sv sv' events h =
    let at : sv ≡ sv' = ground (arith, h) in subst (Same sv) at (Same-refl sv)
end_read-Same op conn aborted r sv sv' events h =
    let (sv1, undone, last) = >>=-eq-returns (do_abort op.timestamp sv) _ h in
    let at : sv1 ≡ sv' = ground (arith, last) in
    do_abort-Same op.timestamp sv sv' (undone ∙ ap returns at)
end_read-Same op conn (pending ts) r sv sv' events h = absurd (ground (arith, h))

end_check-Same :
    (op : Operation) (conn : Conn) (ok r : Bool) (sv sv' : Server) (events : List Event)
    → end_check op conn ok sv ≡ returns (r, sv', events)
    → Same sv sv'
unfolding end_check
end_check-Same op conn false r sv sv' events h =
    let (es, told, h1) =
      >>=-eq-returns (broadcast (message (codes "ABORT_Coordinator") op.timestamp) sv) _ h in
    let (sv1, undone, last) = >>=-eq-returns (do_abort op.timestamp sv) _ h1 in
    let at : sv1 ≡ sv' = ground (arith, last) in
    do_abort-Same op.timestamp sv sv' (undone ∙ ap returns at)
end_check-Same op conn true r sv sv' events h =
    let (es, told, last) =
      >>=-eq-returns (broadcast (message (codes "COMMIT_PREPARE") op.timestamp) sv) _ h in
    let at : sv ≡ sv' = ground (arith, last) in subst (Same sv) at (Same-refl sv)

-- Timestamps are told apart by their texts.
format_int-apart :
    (a b : ℤ) → IsInt64 a → IsInt64 b → a ≢ b → text_eq (format_int a) (format_int b) ≡ false
format_int-apart a b ia ib ne = elim (Bool-cases (text_eq (format_int a) (format_int b))) [
  | inr other ↦ other
  | inl same ↦
      let texts : format_int a ≡ format_int b = text_eq→eq (format_int a) (format_int b) same in
      absurd (
        ne (
          some_inj
            (sym (parse_int-format_int a ia) ∙ ap parse_int texts ∙ parse_int-format_int b ib)))
]

pub Same-Keeps : (ts : ℤ) (sv sv' : Server) → Same sv sv' → Keeps ts sv sv'
Same-Keeps ts sv sv' s = record {
  same_me = s.me;
  same_name = s.name;
  same_conn = λ n k found near. sym (ap (lookup n) s.send_conn) ∙ found;
  same_count = ap (lookup (format_int ts)) s.commit_count;
}

pub Keeps-Keeps : (ts : ℤ) (a b c : Server) → Keeps ts a b → Keeps ts b c → Keeps ts a c
Keeps-Keeps ts a b c s t = record {
  same_me = t.same_me ∙ s.same_me;
  same_name = t.same_name ∙ s.same_name;
  same_conn = λ n k found near. s.same_conn n k (t.same_conn n k found near) near;
  same_count = t.same_count ∙ s.same_count;
}

module _ (ts : ℤ) (op : Operation) (other : op.timestamp ≢ ts) (int : IsInt64 ts)
    (int' : IsInt64 op.timestamp) where
  reset-Keeps :
      (sv : Server)
      → Keeps ts sv
          (record sv { commit_count = insert (format_int op.timestamp) 0 sv.commit_count })
  reset-Keeps sv = record {
    same_me = refl;
    same_name = refl;
    same_conn = λ n k found near. found;
    same_count =
        lookup-insert (format_int op.timestamp) (format_int ts) 0 sv.commit_count
        ∙ rw (format_int-apart op.timestamp ts int' int other) refl;
  }

  pub handle_method-Keeps :
      (m : Method) (conn : Conn) (sv sv' : Server) (r : Bool) (events : List Event)
      → handle_method m op conn sv ≡ returns (r, sv', events)
      → Keeps ts sv sv'
  unfolding handle_method
  handle_method-Keeps Method.deposit conn sv sv' r events h =
      let ((b, sv1), wrote, h1) = >>=-eq-returns (write op sv) _ h in
      Same-Keeps ts sv sv' (
        Same-Same sv sv1 sv' (write-Same op sv sv1 b wrote)
          (end_write-Same (codes "ABORTED") op conn b r sv1 sv' events h1))
  handle_method-Keeps Method.withdraw conn sv sv' r events h =
      let ((b, sv1), wrote, h1) = >>=-eq-returns (write op sv) _ h in
      Same-Keeps ts sv sv' (
        Same-Same sv sv1 sv' (write-Same op sv sv1 b wrote)
          (end_write-Same (codes "NOT FOUND, ABORTED") op conn b r sv1 sv' events h1))
  handle_method-Keeps Method.balance conn sv sv' r events h = Same-Keeps ts sv sv' (
      Same-Same sv (read op sv).1 sv' (read-Same op sv)
        (end_read-Same op conn (read op sv).0 r (read op sv).1 sv' events h))
  handle_method-Keeps Method.commit conn sv sv' r events h =
      let reset : Server = record sv {
        commit_count = insert (format_int op.timestamp) 0 sv.commit_count;
      } in
      let ((ok, sv1), checked, h1) = >>=-eq-returns (check_commit op.timestamp reset) _ h in
      Keeps-Keeps ts sv reset sv' (reset-Keeps sv) (
        Same-Keeps ts reset sv' (
          Same-Same reset sv1 sv' (check_commit-Same op.timestamp reset sv1 ok checked)
            (end_check-Same op conn ok r sv1 sv' events h1)))
  handle_method-Keeps Method.abort conn sv sv' r events h =
      let at : sv ≡ sv' = ground (arith, h) in
      Same-Keeps ts sv sv' (subst (Same sv) at (Same-refl sv))
