-- ===== src/Bank/Init.antt =====
-- mp3/server/server.go `Operation.Init`: reading a request. `none` is a panic.
pub mod Lines
use cs.Prelude.{Option, none, some, List, [], ◌∷◌, if◌then◌else◌}
use cs.Prelude.Int.{ℤ, pos, neg64}
use cs.Prelude.Text.{Text, codes, text_eq, fields, split, parse_int}
use cs.Bank.State.{Method, Operation}

-- `words[0]` as one of the methods; any other panics.
unfoldable pub method_of : Text → Option Method
unfolding text_eq
method_of w =
    if text_eq w (codes "DEPOSIT")
    then some Method.deposit
    else if text_eq w (codes "WITHDRAW")
    then some Method.withdraw
    else if text_eq w (codes "BALANCE")
    then some Method.balance
    else if text_eq w (codes "COMMIT")
    then some Method.commit
    else if text_eq w (codes "ABORT")
    then some Method.abort
    else none

-- The branch and the account of `words[1]`: what stands before and behind the first dot.
unfoldable pub place : Text → Option (Text × Text)
unfolding split
place w = elim (split w b'.') [ branch ∷ account ∷ rest ↦ some (branch, account) | _ ↦ none ]

-- `Atoi` and `ParseInt` in turn, for a method with an amount.
unfoldable pub with_amount : Method → (ℤ → ℤ) → Text → Text → Text → Option Operation
unfolding place parse_int
with_amount method sign where_ am ts = elim (place where_) [
  | none ↦ none
  | some (branch, account) ↦ elim (parse_int am) [
    | none ↦ none
    | some a ↦ elim (parse_int ts) [
      | none ↦ none
      | some t ↦ some (record {
        method = method;
        branch = branch;
        account = account;
        amount = sign a;
        timestamp = t;
      })
    ]
  ]
]

unfoldable pub with_account : Text → Text → Option Operation
unfolding place parse_int
with_account where_ ts = elim (place where_) [
  | none ↦ none
  | some (branch, account) ↦ elim (parse_int ts) [
    | none ↦ none
    | some t ↦ some (record {
      method = Method.balance;
      branch = branch;
      account = account;
      amount = pos 0;
      timestamp = t;
    })
  ]
]

unfoldable pub bare : Method → Text → Option Operation
unfolding parse_int
bare method ts = elim (parse_int ts) [
  | none ↦ none
  | some t ↦
      some (record { method = method; branch = []; account = []; amount = pos 0; timestamp = t })
]

-- The words behind the method, by the `switch` of `Init`. `COMMIT` and `ABORT` do not count them.
unfoldable pub arguments : Method → List Text → Option Operation
unfolding with_amount with_account bare neg64
arguments Method.deposit (place_ ∷ am ∷ ts ∷ []) = with_amount Method.deposit (λ a. a) place_ am ts
arguments Method.withdraw (place_ ∷ am ∷ ts ∷ []) = with_amount Method.withdraw neg64 place_ am ts
arguments Method.balance (place_ ∷ ts ∷ []) = with_account place_ ts
arguments Method.commit (ts ∷ rest) = bare Method.commit ts
arguments Method.abort (ts ∷ rest) = bare Method.abort ts
arguments method words = none

-- `Init` on the words of the request.
unfoldable pub init_words : List Text → Option Operation
unfolding method_of arguments
init_words [] = none
init_words (w ∷ words) = elim (method_of w) [ none ↦ none | some m ↦ arguments m words ]

unfoldable pub init : Text → Option Operation
unfolding init_words fields
init operation = init_words (fields operation)
