-- ===== src/Bank/Write.antt =====
-- mp3/server/server.go `write`: the write rule of timestamp ordering.
pub mod Rule
use cs.Prelude.{
  ℕ, Bool, true, false, Option, none, some, List, [], ◌∷◌, ◌++◌, ◌&&◌, ◌||◌, if◌then◌else◌,
}
use cs.Prelude.Int.{ℤ, pos, ltb_ℤ, leb_ℤ, eqb_ℤ, add64}
use cs.Prelude.Text.{Text}
use cs.Prelude.Dict.{Dict, lookup, insert}
use cs.Bank.Outcome.{Outcome, returns, panics}
use cs.Bank.State.{
  WriteVale, Account, Method, deposit, withdraw, Operation, Server, list_at, find_max,
}

abbrev pub is_empty {ℓ} : {A : Type ℓ} → List A → Bool
is_empty [] = true
is_empty (x ∷ xs) = false

-- The loop over the TW list: the first entry of the transaction is raised by the amount, and
-- without one an entry is added at the end.
unfoldable pub tentative : ℤ → ℤ → List WriteVale → List WriteVale
tentative ts am [] = record { timestamp = ts; value = am } ∷ []
tentative ts am (w ∷ ws) =
    if eqb_ℤ w.timestamp ts
    then record w { value = add64 w.value am } ∷ ws
    else w ∷ tentative ts am ws

-- `op.timestamp >= FindMax(RTS)`, where there was a read.
abbrev pub reads_allow : ℤ → List ℤ → Bool
reads_allow ts reads = elim (find_max reads) [ none ↦ true | some m ↦ leb_ℤ m ts ]

-- The test of the write rule, for the committed timestamp of the account.
abbrev pub may_write : ℤ → List ℤ → List WriteVale → ℤ → Bool
may_write ts reads writes committed =
    reads_allow ts reads && (is_empty writes || ltb_ℤ committed ts)

abbrev pub new_account : Operation → Account
new_account op = record {
  name = op.account;
  committed_value = pos 0;
  committed_timestamp = pos 0;
  amount = op.amount;
  created_timestamp = op.timestamp;
}

-- The rule at an account that exists. The result says whether to abort.
unfoldable pub write_rule : Operation → Account → Server → Bool × Server
unfolding tentative
write_rule op acc sv =
    if may_write op.timestamp (list_at op.account sv.rts) (list_at op.account sv.tw)
      acc.committed_timestamp
    then (
      false,
      record sv {
        tw = insert op.account (tentative op.timestamp op.amount (list_at op.account sv.tw)) sv.tw;
      },
    )
    else (true, sv)

-- Without the account (`check_inList`) a deposit creates it, a withdrawal aborts, and any other method would read
-- the mutex of an account that is not there.
unfoldable pub write_missing : Method → Operation → Server → Outcome (Bool × Server)
write_missing Method.withdraw op sv = returns (true, sv)
write_missing Method.deposit op sv = returns (
    write_rule op (new_account op)
      (record sv { accounts = insert op.account (new_account op) sv.accounts }))
write_missing _ op sv = panics

unfoldable pub write : Operation → Server → Outcome (Bool × Server)
unfolding write_missing
write op sv = elim (lookup op.account sv.accounts) [
  | none ↦ write_missing op.method op sv
  | some acc ↦ returns (write_rule op acc sv)
]
