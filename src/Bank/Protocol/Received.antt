-- ===== src/Bank/Protocol/Received.antt =====
-- Rounds of `handleBranch` seen from the commit of one transaction.
use cs.Prelude.{
  ℕ, ◌≡◌, refl, sym, ◌∙◌, ap, subst, false, List, [], ◌∷◌, ◌++◌, ◌==◌, Bool-cases, inl, inr, arith,
}
use cs.Prelude.Int.{ℤ}
use cs.Prelude.Text.{Text, codes, text_eq, fields, trim_space, join, format_int, parse_int}
use cs.Prelude.Dict.{lookup, insert, lookup-insert}
use cs.Bank.Outcome.{returns, ◌>>=◌, >>=-eq-returns, or_panic}
use cs.Bank.State.{Operation, Server, Conn, Event, sent}
use cs.Bank.Init.{init}
use cs.Bank.Write.{write}
use cs.Bank.Read.{ReadResult, value, aborted, pending, read}
use cs.Bank.Abort.{do_abort}
use cs.Bank.Commit.{check_commit, do_commit}
use cs.Bank.Handler.{broadcast, close_client}
use cs.Bank.Branch.{
  Reply, Command, write_, read_, abort_coordinator, prepare, ready, commit_ok, refused, answer,
  command_of, message, ready_count, branch_write, branch_read, refuse, parsed_value, branch_prepare,
  coordinator_commit, branch_ready, forward, unsnoc, second, dispatch, handle_branch, refusal_word,
}
use cs.Bank.Branch.Merged.{handle_branch-words}
use cs.Bank.Protocol.{Keeps}
use cs.Bank.Protocol.Kept.{Same, Same-Same, do_abort-Same, do_commit-Same, check_commit-Same}
use cs.Bank.Protocol.Others.{Same-refl, write-Same, read-Same, Same-Keeps, Keeps-Keeps}

-- The end of a handler that undoes a transaction and answers.
abbrev undo : ℤ → List Event → Server → Reply
undo t sends sv = do_abort t sv >>= λ s. returns (s, sends)

undo-Same :
    (t : ℤ) (sv sv' : Server) (sends : List Event) (events : List Event)
    → undo t sends sv ≡ returns (sv', events)
    → Same sv sv'
undo-Same t sv sv' sends events h =
    let (sv1, undone, last) = >>=-eq-returns (do_abort t sv) _ h in
    let at : sv1 ≡ sv' = ground (arith, last) in do_abort-Same t sv sv' (undone ∙ ap returns at)

branch_write-Same :
    (op : Operation) (conn : Conn) (sv sv' : Server) (events : List Event)
    → branch_write op conn sv ≡ returns (sv', events)
    → Same sv sv'
unfolding branch_write
branch_write-Same op conn sv sv' events h =
    let ((b, sv1), wrote, h1) = >>=-eq-returns (write op sv) _ h in
    let first = write-Same op sv sv1 b wrote in
    elim (Bool-cases b) [
      | inl refuses ↦ Same-Same sv sv1 sv' first (
          undo-Same op.timestamp sv1 sv'
            (sent conn (message (refusal_word op.method) op.timestamp) ∷ []) events
            (sym (rw refuses refl) ∙ h1))
      | inr takes ↦
          let out : Reply = returns (sv1, sent conn (message (codes "OK") op.timestamp) ∷ []) in
          let last : out ≡ returns (sv', events) = sym (rw takes refl) ∙ h1 in
          let at : sv1 ≡ sv' = ground (arith, last) in subst (Same sv) at first
    ]

branch_read-Same :
    (op : Operation) (conn : Conn) (o : ReadResult) (sv sv' : Server) (events : List Event)
    → branch_read op conn o sv ≡ returns (sv', events)
    → Same sv sv'
unfolding branch_read
branch_read-Same op conn (value v) sv sv' events h =
    let at : sv ≡ sv' = ground (arith, h) in subst (Same sv) at (Same-refl sv)
branch_read-Same op conn aborted sv sv' events h =
    undo-Same op.timestamp sv sv' (sent conn (message (codes "NOT") op.timestamp) ∷ []) events h
branch_read-Same op conn (pending ts) sv sv' events h = absurd (ground (arith, h))

branch_prepare-Same :
    (t : ℤ) (conn : Conn) (sv sv' : Server) (events : List Event)
    → branch_prepare t conn sv ≡ returns (sv', events)
    → Same sv sv'
unfolding branch_prepare
branch_prepare-Same t conn sv sv' events h =
    let ((ok, sv1), checked, h1) = >>=-eq-returns (check_commit t sv) _ h in
    let first = check_commit-Same t sv sv1 ok checked in
    elim (Bool-cases ok) [
      | inl yes_ ↦
          let out : Reply = returns (sv1, sent conn (message (codes "COMMIT_READY") t) ∷ []) in
          let last : out ≡ returns (sv', events) = sym (rw yes_ refl) ∙ h1 in
          let at : sv1 ≡ sv' = ground (arith, last) in subst (Same sv) at first
      | inr no_ ↦ Same-Same sv sv1 sv' first (
          undo-Same t sv1 sv' (sent conn (message (codes "ABORTED") t) ∷ []) events
            (sym (rw no_ refl) ∙ h1))
    ]

-- The end of a transaction at its coordinator.
abbrev tell : Text → Text → Text → Server → Reply
tell msg text word sv = do
  es ← broadcast msg sv
  c ← or_panic (lookup word sv.send_conn)
  ends ← close_client word sv
  returns (sv, es ++ sent c text ∷ ends)

tell_same :
    (msg text word : Text) (sv sv' : Server) (events : List Event)
    → tell msg text word sv ≡ returns (sv', events)
    → sv ≡ sv'
tell_same msg text word sv sv' events h =
    let (es, told, h1) = >>=-eq-returns (broadcast msg sv) _ h in
    let (c, found, h2) = >>=-eq-returns (or_panic (lookup word sv.send_conn)) _ h1 in
    let (ends, closes, last) = >>=-eq-returns (close_client word sv) _ h2 in ground (arith, last)

refuse-Same :
    (text word : Text) (sv sv' : Server) (events : List Event)
    → refuse text word sv ≡ returns (sv', events)
    → Same sv sv'
unfolding refuse
refuse-Same text word sv sv' events h =
    let (t, parsed, h1) = >>=-eq-returns (or_panic (parse_int word)) _ h in
    let (sv1, undone, h2) = >>=-eq-returns (do_abort t sv) _ h1 in
    let at = tell_same (message (codes "ABORT_Coordinator") t) text word sv1 sv' events h2 in
    do_abort-Same t sv sv' (undone ∙ ap returns at)

coordinator_commit-Same :
    (fuel : ℕ) (word : Text) (sv sv' : Server) (events : List Event)
    → coordinator_commit fuel word sv ≡ returns (sv', events)
    → Same sv sv'
unfolding coordinator_commit
coordinator_commit-Same fuel word sv sv' events h =
    let (t, parsed, h1) = >>=-eq-returns (or_panic (parse_int word)) _ h in
    let (sv1, done, h2) = >>=-eq-returns (do_commit fuel t sv) _ h1 in
    let at =
      tell_same (join (codes "COMMIT_OK" ∷ word ∷ [])) (codes "COMMIT OK") word sv1 sv' events h2 in
    do_commit-Same fuel t sv sv' (done ∙ ap returns at)

branch_ready-Keeps :
    (ts : ℤ) (fuel : ℕ) (word : Text) (sv sv' : Server) (events : List Event)
    → text_eq word (format_int ts) ≡ false
    → branch_ready fuel word sv ≡ returns (sv', events)
    → Keeps ts sv sv'
unfolding branch_ready
branch_ready-Keeps ts fuel word sv sv' events other h =
    let n = ready_count word sv in
    let next : Server = record sv { commit_count = insert word n sv.commit_count } in
    let first : Keeps ts sv next = record {
      same_me = refl;
      same_name = refl;
      same_conn = λ m k found near. found;
      same_count = lookup-insert word (format_int ts) n sv.commit_count ∙ rw other refl;
    } in
    elim (Bool-cases (n == 4)) [
      | inl all ↦ Keeps-Keeps ts sv next sv' first (
          Same-Keeps ts next sv'
            (coordinator_commit-Same fuel word next sv' events (sym (rw all refl) ∙ h)))
      | inr few ↦
          let out : Reply = returns (next, []) in
          let last : out ≡ returns (sv', events) = sym (rw few refl) ∙ h in
          let at : next ≡ sv' = ground (arith, last) in subst (Keeps ts sv) at first
    ]

forward-Same :
    (w : Text) (words : List Text) (sv sv' : Server) (events : List Event)
    → forward w words sv ≡ returns (sv', events)
    → Same sv sv'
unfolding forward
forward-Same w words sv sv' events h =
    let (c, found, last) = >>=-eq-returns (or_panic (lookup (unsnoc w words).1 sv.send_conn)) _ h in
    let at : sv ≡ sv' = ground (arith, last) in subst (Same sv) at (Same-refl sv)

dispatch-Keeps :
    (ts : ℤ) (fuel : ℕ) (command : Command) (operation w : Text) (words : List Text) (conn : Conn)
    (sv sv' : Server) (events : List Event)
    → ((word : Text)
        → command ≡ ready
        → second words ≡ returns word
        → text_eq word (format_int ts) ≡ false)
    → dispatch fuel command operation w words conn sv ≡ returns (sv', events)
    → Keeps ts sv sv'
unfolding dispatch
dispatch-Keeps ts fuel write_ operation w words conn sv sv' events other h =
    let (op, parsed, h1) = >>=-eq-returns (or_panic (init operation)) _ h in
    Same-Keeps ts sv sv' (branch_write-Same op conn sv sv' events h1)
dispatch-Keeps ts fuel read_ operation w words conn sv sv' events other h =
    let (op, parsed, h1) = >>=-eq-returns (or_panic (init operation)) _ h in
    Same-Keeps ts sv sv' (
      Same-Same sv (read op sv).1 sv' (read-Same op sv)
        (branch_read-Same op conn (read op sv).0 (read op sv).1 sv' events h1))
dispatch-Keeps ts fuel abort_coordinator operation w words conn sv sv' events other h =
    let (word, found, h1) = >>=-eq-returns (second words) _ h in
    let (t, parsed, h2) = >>=-eq-returns (or_panic (parse_int word)) _ h1 in
    Same-Keeps ts sv sv' (undo-Same t sv sv' [] events h2)
dispatch-Keeps ts fuel (refused text) operation w words conn sv sv' events other h =
    let (word, found, h1) = >>=-eq-returns (second words) _ h in
    Same-Keeps ts sv sv' (refuse-Same text word sv sv' events h1)
dispatch-Keeps ts fuel prepare operation w words conn sv sv' events other h =
    let (word, found, h1) = >>=-eq-returns (second words) _ h in
    Same-Keeps ts sv sv' (branch_prepare-Same (parsed_value word) conn sv sv' events h1)
dispatch-Keeps ts fuel ready operation w words conn sv sv' events other h =
    let (word, found, h1) = >>=-eq-returns (second words) _ h in
    branch_ready-Keeps ts fuel word sv sv' events (other word refl found) h1
dispatch-Keeps ts fuel commit_ok operation w words conn sv sv' events other h =
    let (word, found, h1) = >>=-eq-returns (second words) _ h in
    let (t, parsed, h2) = >>=-eq-returns (or_panic (parse_int word)) _ h1 in
    let (sv1, done, last) = >>=-eq-returns (do_commit fuel t sv) _ h2 in
    let at : sv1 ≡ sv' = ground (arith, last) in
    Same-Keeps ts sv sv' (do_commit-Same fuel t sv sv' (done ∙ ap returns at))
dispatch-Keeps ts fuel answer operation w words conn sv sv' events other h =
    Same-Keeps ts sv sv' (forward-Same w words sv sv' events h)

-- A branch's round for any text that it reads but an answer to this commit.
pub handle_branch-Keeps :
    (ts : ℤ) (fuel : ℕ) (operation w : Text) (words : List Text) (conn : Conn) (sv sv' : Server)
    (events : List Event)
    → fields operation ≡ w ∷ words
    → ((word : Text)
        → command_of w ≡ ready
        → second words ≡ returns word
        → text_eq word (format_int ts) ≡ false)
    → handle_branch fuel operation conn sv ≡ returns (sv', events)
    → Keeps ts sv sv'
handle_branch-Keeps ts fuel operation w words conn sv sv' events split_ other h =
    dispatch-Keeps ts fuel (command_of w) (trim_space operation) w words conn sv sv' events other
      (sym (handle_branch-words fuel operation w words conn sv split_) ∙ h)
