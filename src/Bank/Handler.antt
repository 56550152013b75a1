-- ===== src/Bank/Handler.antt =====
-- mp3/server/server.go `handleOperation` and `handleConnection`: requests of a client at its
-- coordinator. A call's effects on the network are listed in their order. A panic ends the process,
-- so the messages before one are not kept.
use cs.Prelude.{Bool, true, false, List, [], ◌∷◌, ◌++◌, ◌||◌, if◌then◌else◌}
use cs.Prelude.Int.{ℤ}
use cs.Prelude.Text.{Text, codes, text_eq, trim_space, join, format_int}
use cs.Prelude.Dict.{Dict, lookup, insert}
use cs.Bank.Outcome.{Outcome, returns, waits, ◌>>=◌, or_panic}
use cs.Bank.State.{Method, Operation, Server, Conn, Event, sent, closed}
use cs.Bank.Init.{init}
use cs.Bank.Write.{write}
use cs.Bank.Read.{ReadResult, value, aborted, pending, read}
use cs.Bank.Abort.{do_abort}
use cs.Bank.Commit.{check_commit}

abbrev pub is_commit : Method → Bool
is_commit Method.commit = true
is_commit _ = false

abbrev pub is_abort : Method → Bool
is_abort Method.abort = true
is_abort _ = false

-- A message to every other branch; a branch without a connection is a nil connection, which panics.
unfoldable pub broadcast_to : Text → Text → Dict Conn → List Text → Outcome (List Event)
broadcast_to msg me conns [] = returns []
broadcast_to msg me conns (n ∷ names) =
    let rest = broadcast_to msg me conns names in
    if text_eq n me
    then rest
    else (or_panic (lookup n conns) >>= λ c. rest >>= λ events. returns (sent c msg ∷ events))

unfoldable pub broadcast : Text → Server → Outcome (List Event)
broadcast msg sv = broadcast_to msg sv.me sv.send_conn sv.name

-- `branch.account = value`
abbrev pub balance_text : Operation → ℤ → Text
balance_text op v = op.branch ++ b'.' ∷ op.account ++ codes " = " ++ format_int v

-- The end of a write at the coordinator: the answer, and for an abort `DoAbort`.
unfoldable pub end_write :
    Text → Operation → Conn → Bool → Server → Outcome (Bool × Server × List Event)
end_write refusal op conn true sv =
    do_abort op.timestamp sv >>= λ sv'. returns (true, sv', sent conn refusal ∷ [])
end_write refusal op conn false sv = returns (false, sv, sent conn (codes "OK") ∷ [])

unfoldable pub end_read :
    Operation → Conn → ReadResult → Server → Outcome (Bool × Server × List Event)
end_read op conn (value v) sv = returns (false, sv, sent conn (balance_text op v) ∷ [])
end_read op conn aborted sv = do_abort op.timestamp sv >>= λ sv'.
    returns (true, sv', sent conn (codes "NOT FOUND, ABORTED") ∷ [])
end_read op conn (pending ts) sv = waits

-- The branches of `COMMIT` behind `CheckCommit`.
unfoldable pub end_check : Operation → Conn → Bool → Server → Outcome (Bool × Server × List Event)
end_check op conn false sv = do
  events ← broadcast (join (codes "ABORT_Coordinator" ∷ format_int op.timestamp ∷ [])) sv
  sv' ← do_abort op.timestamp sv
  returns (true, sv', sent conn (codes "ABORTED") ∷ events)
end_check op conn true sv = do
  events ← broadcast (join (codes "COMMIT_PREPARE" ∷ format_int op.timestamp ∷ [])) sv
  returns (false, sv, events)

unfoldable pub handle_method :
    Method → Operation → Conn → Server → Outcome (Bool × Server × List Event)
handle_method Method.deposit op conn sv =
    write op sv >>= λ r. end_write (codes "ABORTED") op conn r.0 r.1
handle_method Method.withdraw op conn sv =
    write op sv >>= λ r. end_write (codes "NOT FOUND, ABORTED") op conn r.0 r.1
handle_method Method.balance op conn sv = let (r, sv') = read op sv in end_read op conn r sv'
handle_method Method.commit op conn sv =
    check_commit op.timestamp
      (record sv { commit_count = insert (format_int op.timestamp) 0 sv.commit_count })
    >>= λ r. end_check op conn r.0 r.1
handle_method Method.abort op conn sv = returns (false, sv, [])

-- The result says whether the transaction is aborted.
unfoldable pub handle_operation : Operation → Conn → Server → Outcome (Bool × Server × List Event)
unfolding handle_method
handle_operation op conn sv = handle_method op.method op conn sv

-- Closing the client's connections, which are looked up by the timestamp.
abbrev pub close_client : Text → Server → Outcome (List Event)
close_client ts sv = do
  s ← or_panic (lookup ts sv.send_conn)
  r ← or_panic (lookup ts sv.read_conn)
  returns (closed s ∷ closed r ∷ [])

-- The client asked for an abort.
unfoldable pub abort_request : ℤ → Server → Outcome (Bool × Server × List Event)
abort_request ts sv = do
  sv' ← do_abort ts sv
  events ← broadcast (join (codes "ABORT_Coordinator" ∷ format_int ts ∷ [])) sv'
  c ← or_panic (lookup (format_int ts) sv'.send_conn)
  ends ← close_client (format_int ts) sv'
  returns (true, sv', events ++ sent c (codes "ABORTED") ∷ ends)

-- What `handleConnection` does when `handleOperation` has returned.
abbrev pub end_operation :
    Operation → Conn → Conn → Bool × Server × List Event → Bool × Server × List Event
end_operation op read_conn send_conn (true, sv, events) =
    (true, sv, events ++ closed read_conn ∷ closed send_conn ∷ [])
end_operation op read_conn send_conn (false, sv, events) = (is_commit op.method, sv, events)

-- One round of `handleConnection` for a request that `Init` has read. The result says whether the
-- loop ends.
unfoldable pub serve :
    Text → Operation → Conn → Conn → Server → Outcome (Bool × Server × List Event)
serve operation op read_conn send_conn sv0 =
    let key = format_int op.timestamp in
    let sv : Server = record sv0 {
      read_conn = insert key read_conn sv0.read_conn;
      send_conn = insert key send_conn sv0.send_conn;
    } in
    if text_eq op.branch sv.me || is_commit op.method
    then (handle_operation op send_conn sv >>= λ r.
        returns (end_operation op read_conn send_conn r))
    else if is_abort op.method
    then abort_request op.timestamp sv
    else (or_panic (lookup op.branch sv.send_conn) >>= λ c.
        returns (false, sv, sent c operation ∷ []))

-- How `Read` ends: with bytes, at the end of the stream, or with another error.
pub data ReadEnd : Type 0 where
  received eof lost : ReadEnd

unfoldable pub read_client : Text → ReadEnd → Text
read_client bytes received = bytes
read_client bytes eof = bytes
read_client bytes lost = codes "Closed"

-- One round of the loop, for the text that `readClient` returns.
unfoldable pub handle_connection :
    Text → Conn → Conn → Server → Outcome (Bool × Server × List Event)
handle_connection operation read_conn send_conn sv =
    if text_eq operation (codes "Closed")
    then returns (true, sv, [])
    else (or_panic (init (trim_space operation)) >>= λ op.
        serve (trim_space operation) op read_conn send_conn sv)
