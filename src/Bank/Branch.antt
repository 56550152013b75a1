-- ===== src/Bank/Branch.antt =====
-- mp3/server/server.go `handleBranch`: messages between the branches, and the coordinator's side of
-- the two-phase commit. A panic ends the process, so the messages before one are not kept.
pub mod Phases
pub mod Merged
pub mod Parsed
use cs.Prelude.{
  leb, ◌*◌, ◌-◌, ℕ, zero, suc, ◌+◌, ◌-◌, ◌^◌, ltb, Bool, true, false, Option, none, some, List, [],
  ◌∷◌, ◌++◌, ◌==◌, ◌||◌, if◌then◌else◌,
}
use cs.Prelude.Int.{ℤ, pos, negsuc}
use cs.Prelude.Text.{
  Text, codes, text_eq, fields, trim_space, join, format_int, parse_int, is_digit,
}
use cs.Prelude.Dict.{Dict, lookup, insert}
use cs.Bank.Outcome.{Outcome, returns, panics, waits, ◌>>=◌, or_panic}
use cs.Bank.State.{Method, Operation, Server, Conn, Event, sent, closed}
use cs.Bank.Init.{init}
use cs.Bank.Write.{write}
use cs.Bank.Read.{ReadResult, value, aborted, pending, read}
use cs.Bank.Abort.{do_abort}
use cs.Bank.Commit.{check_commit, do_commit}
use cs.Bank.Handler.{broadcast, balance_text, close_client}

-- The commands that `handleBranch` distinguishes; `ABORTED` and `NOT` carry the text for the client.
pub data Command : Type 0 where
  write_ read_ abort_coordinator prepare ready commit_ok : Command
  refused : Text → Command
  answer : Command

unfoldable pub command_of : Text → Command
unfolding text_eq
command_of w =
    if text_eq w (codes "DEPOSIT")
    then write_
    else if text_eq w (codes "WITHDRAW")
    then write_
    else if text_eq w (codes "BALANCE")
    then read_
    else if text_eq w (codes "ABORT_Coordinator")
    then abort_coordinator
    else if text_eq w (codes "ABORTED")
    then refused (codes "ABORTED")
    else if text_eq w (codes "NOT")
    then refused (codes "NOT FOUND, ABORTED")
    else if text_eq w (codes "COMMIT_PREPARE")
    then prepare
    else if text_eq w (codes "COMMIT_READY")
    then ready
    else if text_eq w (codes "COMMIT_OK")
    then commit_ok
    else answer

abbrev pub Reply : Type 0
Reply = Outcome (Server × List Event)

abbrev pub message : Text → ℤ → Text
message w ts = join (w ∷ format_int ts ∷ [])

-- The word that refuses a write.
abbrev pub refusal_word : Method → Text
refusal_word Method.withdraw = codes "NOT"
refusal_word _ = codes "ABORTED"

unfoldable pub branch_write : Operation → Conn → Server → Reply
branch_write op conn sv = write op sv >>= λ r.
    if r.0
    then (do_abort op.timestamp r.1 >>= λ sv'.
        returns (sv', sent conn (message (refusal_word op.method) op.timestamp) ∷ []))
    else returns (r.1, sent conn (message (codes "OK") op.timestamp) ∷ [])

unfoldable pub branch_read : Operation → Conn → ReadResult → Server → Reply
branch_read op conn (value v) sv =
    returns (sv, sent conn (message (balance_text op v) op.timestamp) ∷ [])
branch_read op conn aborted sv = do_abort op.timestamp sv >>= λ sv'.
    returns (sv', sent conn (message (codes "NOT") op.timestamp) ∷ [])
branch_read op conn (pending ts) sv = waits

-- A branch refused a request of a transaction that this server coordinates.
unfoldable pub refuse : Text → Text → Server → Reply
refuse text word sv = do
  ts ← or_panic (parse_int word)
  sv' ← do_abort ts sv
  events ← broadcast (message (codes "ABORT_Coordinator") ts) sv'
  c ← or_panic (lookup word sv'.send_conn)
  ends ← close_client word sv'
  returns (sv', events ++ sent c text ∷ ends)

-- `ParseInt`'s value where its error is ignored: 0 for a text that is no number, the nearest bound
-- for a number that 64 bits do not hold.
abbrev pub clamp : Bool → Option ℕ → ℤ
clamp _ none = pos 0
clamp _ (some zero) = pos 0
clamp false (some (suc n)) = if ltb n (2 ^ 63 - 1) then pos (suc n) else pos (2 ^ 63 - 1)
clamp true (some (suc n)) = if ltb n (2 ^ 63) then negsuc n else negsuc (2 ^ 63 - 1)

-- The digits from left to right, up to the first code that is no digit, which is an error with
-- value 0, or the first number that 64 bits do not hold, whatever follows it.
unfoldable pub scan_nat : ℕ → Text → Option ℕ
scan_nat n [] = some n
scan_nat n (c ∷ s) = elim (is_digit c) [
  | false ↦ none
  | true ↦ elim (leb (2 ^ 64) (n * 10 + (c - 48))) [
    | true ↦ some (2 ^ 64)
    | false ↦ scan_nat (n * 10 + (c - 48)) s
  ]
]

abbrev pub scan_digits : Text → Option ℕ
scan_digits [] = none
scan_digits (c ∷ s) = scan_nat 0 (c ∷ s)

unfoldable pub parsed_value : Text → ℤ
parsed_value [] = pos 0
parsed_value (c ∷ s) =
    if c == 45
    then clamp true (scan_digits s)
    else if c == 43
    then clamp false (scan_digits s)
    else clamp false (scan_digits (c ∷ s))

-- The first phase at a participant.
unfoldable pub branch_prepare : ℤ → Conn → Server → Reply
branch_prepare ts conn sv = check_commit ts sv >>= λ r.
    if r.0
    then returns (r.1, sent conn (message (codes "COMMIT_READY") ts) ∷ [])
    else (do_abort ts r.1 >>= λ sv'. returns (sv', sent conn (message (codes "ABORTED") ts) ∷ []))

-- All other branches are ready.
unfoldable pub coordinator_commit : ℕ → Text → Server → Reply
coordinator_commit fuel word sv = do
  ts ← or_panic (parse_int word)
  sv' ← do_commit fuel ts sv
  events ← broadcast (join (codes "COMMIT_OK" ∷ word ∷ [])) sv'
  c ← or_panic (lookup word sv'.send_conn)
  ends ← close_client word sv'
  returns (sv', events ++ sent c (codes "COMMIT OK") ∷ ends)

abbrev pub other_branches : ℕ
other_branches = 4

-- `commitCount[timestamp] += 1`, where a missing key counts as 0.
abbrev pub ready_count : Text → Server → ℕ
ready_count word sv = elim (lookup word sv.commit_count) [ none ↦ 1 | some n ↦ n + 1 ]

unfoldable pub branch_ready : ℕ → Text → Server → Reply
branch_ready fuel word sv =
    let n = ready_count word sv in
    let sv' : Server = record sv { commit_count = insert word n sv.commit_count } in
    if n == other_branches then coordinator_commit fuel word sv' else returns (sv', [])

-- The words without the last one, and the last one.
unfoldable pub unsnoc : Text → List Text → List Text × Text
unsnoc w [] = ([], w)
unsnoc w (v ∷ words) = let r = unsnoc v words in (w ∷ r.0, r.1)

-- An answer for the client of the transaction that its last word names.
unfoldable pub forward : Text → List Text → Server → Reply
forward w words sv =
    let r = unsnoc w words in
    or_panic (lookup r.1 sv.send_conn) >>= λ c. returns (sv, sent c (join r.0) ∷ [])

-- `words[1]`
abbrev pub second : List Text → Outcome Text
second [] = panics
second (w ∷ words) = returns w

unfoldable pub dispatch : ℕ → Command → Text → Text → List Text → Conn → Server → Reply
dispatch fuel write_ operation w words conn sv =
    or_panic (init operation) >>= λ op. branch_write op conn sv
dispatch fuel read_ operation w words conn sv =
    or_panic (init operation) >>= λ op. let (r, sv') = read op sv in branch_read op conn r sv'
dispatch fuel abort_coordinator operation w words conn sv = do
  word ← second words
  ts ← or_panic (parse_int word)
  sv' ← do_abort ts sv
  returns (sv', [])
dispatch fuel (refused text) operation w words conn sv =
    second words >>= λ word. refuse text word sv
dispatch fuel prepare operation w words conn sv =
    second words >>= λ word. branch_prepare (parsed_value word) conn sv
dispatch fuel ready operation w words conn sv = second words >>= λ word. branch_ready fuel word sv
dispatch fuel commit_ok operation w words conn sv = do
  word ← second words
  ts ← or_panic (parse_int word)
  sv' ← do_commit fuel ts sv
  returns (sv', [])
dispatch fuel answer operation w words conn sv = forward w words sv

-- One round, for the text that `readClient` returns.
unfoldable pub handle_branch : ℕ → Text → Conn → Server → Reply
handle_branch fuel operation conn sv = elim (fields (trim_space operation)) [
  | [] ↦ panics
  | w ∷ words ↦ dispatch fuel (command_of w) (trim_space operation) w words conn sv
]
