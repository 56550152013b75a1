-- ===== src/Bank/Commit/Result.antt =====
-- What a commit makes of the accounts.
use cs.Prelude.{
  ℕ, ◌<◌, ◌≡◌, ◌≢◌, refl, true, false, none, some, List, [], ◌∷◌, length, All, Option-cases,
  Bool-cases, inl, inr, arith,
}
use cs.Prelude.Int.{ℤ}
use cs.Prelude.Text.{Text}
use cs.Prelude.Dict.{Dict, lookup, insert, lookup-insert}
use cs.Bank.Outcome.{returns}
use cs.Bank.State.{WriteVale, Account, Server, committed_value_at}
use cs.Bank.Read.{has_entry}
use cs.Bank.Abort.Lists.{others}
use cs.Bank.Abort.Result.{map_others}
use cs.Bank.Commit.{balance_at, commit_account, settle, commit_lists, do_commit}
use cs.Bank.Commit.Loop.{UpTo, commit_loop_lem}

-- Every list of TW is up to the transaction, and shorter than the fuel.
abbrev pub AllUpTo : ℕ → ℤ → Dict (List WriteVale) → Type 0
AllUpTo fuel ts = All (λ e. UpTo ts e.1 × (length e.1 < fuel))

-- Every list that has an entry of the transaction is that of an account.
abbrev pub AllKnown : ℤ → Dict Account → Dict (List WriteVale) → Type 0
AllKnown ts accounts = All (λ e. has_entry ts e.1 ≡ true → lookup e.0 accounts ≢ none)

-- What one list makes of the accounts: an account whose list has an entry of the transaction gets
-- the balance at the transaction and its timestamp.
unfoldable pub settled : ℤ → Text → List WriteVale → Dict Account → Dict Account
settled ts k tw accounts = elim (has_entry ts tw) [
  | false ↦ accounts
  | true ↦ elim (lookup k accounts) [
    | none ↦ accounts
    | some acc ↦
        insert k (commit_account ts (balance_at ts (committed_value_at k accounts) tw) acc) accounts
  ]
]

module _ (ts : ℤ) (k : Text) (tw : List WriteVale) (accounts : Dict Account) where
  pub settled-absent : has_entry ts tw ≡ false → settled ts k tw accounts ≡ accounts
  unfolding settled
  settled-absent absent = rw (absent, settled)

  pub settled-missing : lookup k accounts ≡ none → settled ts k tw accounts ≡ accounts
  unfolding settled
  settled-missing missing = ground arith

  pub settled-found :
      (acc : Account)
      → has_entry ts tw ≡ true
      → lookup k accounts ≡ some acc
      → settled ts k tw accounts
        ≡ insert k
            (commit_account ts (balance_at ts (committed_value_at k accounts) tw) acc)
            accounts
  unfolding settled
  settled-found acc own found = rw (own, settled) (rw found)

-- What the whole of TW makes of the accounts.
unfoldable pub committed_accounts : ℤ → Dict (List WriteVale) → Dict Account → Dict Account
committed_accounts ts [] accounts = accounts
committed_accounts ts ((k, tw) ∷ m) accounts = committed_accounts ts m (settled ts k tw accounts)

module _ (ts : ℤ) (k : Text) (tw tw' : List WriteVale) (accounts : Dict Account) where
  settle-settled :
      (has_entry ts tw ≡ true → lookup k accounts ≢ none)
      → settle ts k
          (record {
            tw = tw';
            ds = balance_at ts (committed_value_at k accounts) tw;
            flag = has_entry ts tw;
          })
          accounts
        ≡ returns (settled ts k tw accounts)
  unfolding settle settled
  settle-settled known = elim (Bool-cases (has_entry ts tw)) [
    | inr absent ↦ ground arith
    | inl own ↦ elim (Option-cases (lookup k accounts)) [
      | inl missing ↦ absurd (known own missing)
      | inr (acc, found) ↦ ground arith
    ]
  ]

lookup-settled :
    (ts : ℤ) (k j : Text) (tw : List WriteVale) (accounts : Dict Account)
    → lookup j accounts ≢ none
    → lookup j (settled ts k tw accounts) ≢ none
unfolding settled
lookup-settled ts k j tw accounts h = elim (Option-cases (lookup k accounts)) [
  | inl missing ↦ ground arith
  | inr (acc, found) ↦ ground (
    arith,
    lookup-insert k j (commit_account ts (balance_at ts (committed_value_at k accounts) tw) acc)
        accounts,
  )
]

AllKnown-settled :
    (ts : ℤ) (k : Text) (tw : List WriteVale) (accounts : Dict Account) (m : Dict (List WriteVale))
    → AllKnown ts accounts m
    → AllKnown ts (settled ts k tw accounts) m
AllKnown-settled ts k tw accounts [] h = tt
AllKnown-settled ts k tw accounts ((j, tw') ∷ m) h =
    (λ own. lookup-settled ts k j tw accounts (h.0 own), AllKnown-settled ts k tw accounts m h.1)

commit_lists_lem :
    (fuel : ℕ) (ts : ℤ) (m : Dict (List WriteVale)) (accounts : Dict Account)
    → AllUpTo fuel ts m
    → AllKnown ts accounts m
    → commit_lists fuel ts m accounts ≡ returns (map_others ts m, committed_accounts ts m accounts)
unfolding commit_lists map_others committed_accounts
commit_lists_lem fuel ts [] accounts upto known = refl
commit_lists_lem fuel ts ((k, tw) ∷ m) accounts upto known =
    let loop = commit_loop_lem fuel ts (committed_value_at k accounts) tw upto.0.1 upto.0.0 in
    let done = settle-settled ts k tw (others ts tw) accounts known.0 in
    let rest =
      commit_lists_lem fuel ts m (settled ts k tw accounts) upto.1
        (AllKnown-settled ts k tw accounts m known.1) in
    rw loop (rw done (rw rest))

-- Where no tentative write is later than the transaction, each account that it wrote is there,
-- and the fuel is above the length of every TW list, its commit returns: its entries are gone
-- from TW, and each account that it wrote has the balance at the transaction and its timestamp.
pub do_commit_lem :
    (fuel : ℕ) (ts : ℤ) (sv : Server)
    → AllUpTo fuel ts sv.tw
    → AllKnown ts sv.accounts sv.tw
    → do_commit fuel ts sv
      ≡ returns (record sv {
        tw = map_others ts sv.tw;
        accounts = committed_accounts ts sv.tw sv.accounts;
      })
unfolding do_commit
do_commit_lem fuel ts sv upto known = rw (commit_lists_lem fuel ts sv.tw sv.accounts upto known)
