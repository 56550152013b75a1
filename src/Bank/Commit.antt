-- ===== src/Bank/Commit.antt =====
-- mp3/server/server.go `CheckCommit` and `DoCommit`.
pub mod Loop
pub mod Stuck
pub mod Result
pub mod Solvent
pub mod Twice
pub mod Exact
use cs.Prelude.{
  ℕ, zero, suc, ◌+◌, Bool, true, false, Option, none, some, List, [], ◌∷◌, ◌++◌, length, get_elem?,
  ◌||◌, not, if◌then◌else◌,
}
use cs.Prelude.Int.{ℤ, pos, negsuc, ltb_ℤ, leb_ℤ, eqb_ℤ, add64}
use cs.Prelude.Text.{Text}
use cs.Prelude.Dict.{Dict, lookup, insert}
use cs.Bank.Outcome.{Outcome, returns, panics, loops, ◌>>=◌}
use cs.Bank.State.{WriteVale, Account, Server, committed_value_at}
use cs.Bank.Read.{has_entry}
use cs.Bank.Abort.{delete_at, do_abort}

-- The transaction wrote somewhere on this branch.
unfoldable pub tx_related : ℤ → Dict (List WriteVale) → Bool
unfolding has_entry
tx_related ts [] = false
tx_related ts ((k, tw) ∷ m) = has_entry ts tw || tx_related ts m

-- The balance at the transaction: what is committed and every tentative write up to it.
unfoldable pub balance_at : ℤ → ℤ → List WriteVale → ℤ
balance_at ts ds [] = ds
balance_at ts ds (w ∷ ws) = balance_at ts (if leb_ℤ w.timestamp ts then add64 ds w.value else ds) ws

-- Some account's balance at the transaction is negative.
unfoldable pub overdrawn : ℤ → Dict Account → Dict (List WriteVale) → Bool
unfolding balance_at
overdrawn ts accounts [] = false
overdrawn ts accounts ((k, tw) ∷ m) =
    ltb_ℤ (balance_at ts (committed_value_at k accounts) tw) (pos 0) || overdrawn ts accounts m

unfoldable pub check_commit : ℤ → Server → Outcome (Bool × Server)
check_commit ts sv =
    if tx_related ts sv.tw
    then (if overdrawn ts sv.accounts sv.tw
        then (do_abort ts sv >>= λ sv'. returns (false, sv'))
        else returns (true, sv))
    else returns (true, sv)

-- What the loop of `DoCommit` over one TW list works on: the list, `Ds` and `flag`.
pub record Tally : Type 0 where
  pub tw : List WriteVale
  pub ds : ℤ
  pub flag : Bool

-- An entry up to the transaction is added; its own entries are deleted; at a later entry the index
-- stays where it is.
unfoldable pub commit_loop : ℕ → ℤ → ℕ → Tally → Outcome Tally
commit_loop zero ts i t = loops
commit_loop (suc f) ts i t = elim (get_elem? t.tw i) [
  | none ↦ returns t
  | some w ↦ elim (leb_ℤ w.timestamp ts) [
    | false ↦ commit_loop f ts i t
    | true ↦ elim (eqb_ℤ w.timestamp ts) [
      | true ↦
          commit_loop f ts i
            (record { tw = delete_at i t.tw; ds = add64 t.ds w.value; flag = true })
      | false ↦ commit_loop f ts (suc i) (record t { ds = add64 t.ds w.value })
    ]
  ]
]

-- What a commit makes of an account.
abbrev pub commit_account : ℤ → ℤ → Account → Account
commit_account ts ds acc = record acc { committed_value = ds; committed_timestamp = ts }

-- The account of a list that had entries of the transaction; one that is not there has no mutex.
unfoldable pub settle : ℤ → Text → Tally → Dict Account → Outcome (Dict Account)
settle ts k t accounts = elim t.flag [
  | false ↦ returns accounts
  | true ↦ elim (lookup k accounts) [
    | none ↦ panics
    | some acc ↦ returns (insert k (commit_account ts t.ds acc) accounts)
  ]
]

abbrev pub start_tally : Text → List WriteVale → Dict Account → Tally
start_tally k tw accounts = record { tw = tw; ds = committed_value_at k accounts; flag = false }

-- The loop over the keys of TW.
unfoldable pub commit_lists :
    ℕ → ℤ → Dict (List WriteVale) → Dict Account → Outcome (Dict (List WriteVale) × Dict Account)
commit_lists fuel ts [] accounts = returns ([], accounts)
commit_lists fuel ts ((k, tw) ∷ m) accounts = do
  t ← commit_loop fuel ts 0 (start_tally k tw accounts)
  accounts' ← settle ts k t accounts
  (m', accounts'') ← commit_lists fuel ts m accounts'
  returns ((k, t.tw) ∷ m', accounts'')

-- With rounds for each loop of the code.
unfoldable pub do_commit : ℕ → ℤ → Server → Outcome Server
do_commit fuel ts sv = do
  (tw', accounts') ← commit_lists fuel ts sv.tw sv.accounts
  returns (record sv { tw = tw'; accounts = accounts' })
