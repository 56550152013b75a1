-- ===== src/Bank/Commit/Solvent.antt =====
-- Balances behind `CheckCommit` and `DoCommit`.
use cs.Prelude.{
  ℕ, ◌≡◌, ◌⊎◌, refl, ◌∙◌, ap, true, false, List, [], ◌∷◌, All, Option-cases, Bool-cases, or-false,
  inl, inr, arith,
}
use cs.Prelude.Int.{ℤ, pos, ltb_ℤ, ◌≤ℤ◌}
use cs.Prelude.Text.{Text, text_eq}
use cs.Prelude.Dict.{Dict, lookup, insert, lookup-insert}
use cs.Bank.Outcome.{returns}
use cs.Bank.State.{WriteVale, Account, Server, committed_value_at}
use cs.Bank.Read.{has_entry}
use cs.Bank.Commit.{tx_related, balance_at, overdrawn, check_commit, commit_account, do_commit}
use cs.Bank.Commit.Result.{
  AllUpTo, AllKnown, settled, settled-absent, settled-missing, settled-found, committed_accounts,
  do_commit_lem,
}

-- No account has a negative committed value.
abbrev pub AllSolvent : Dict Account → Type 0
AllSolvent = All (λ e. pos 0 ≤ℤ e.1.committed_value)

-- No key of a map is there twice.
abbrev pub KeysDistinct {ℓ} : {V : Type ℓ} → Dict V → Type 0
KeysDistinct [] = Unit
KeysDistinct ((k, v) ∷ m) = All (λ e. text_eq k e.0 ≡ false) m × KeysDistinct m

insert-AllSolvent :
    (k : Text) (acc : Account) (accounts : Dict Account)
    → pos 0 ≤ℤ acc.committed_value
    → AllSolvent accounts
    → AllSolvent (insert k acc accounts)
unfolding insert
insert-AllSolvent k acc [] p h = (p, tt)
insert-AllSolvent k acc ((j, a) ∷ accounts) p h = elim (Bool-cases (text_eq j k)) [
  | inl same ↦ rw same (p, h.1)
  | inr other ↦ rw other (h.0, insert-AllSolvent k acc accounts p h.1)
]

settled-AllSolvent :
    (ts : ℤ) (k : Text) (tw : List WriteVale) (accounts : Dict Account)
    → pos 0 ≤ℤ balance_at ts (committed_value_at k accounts) tw
    → AllSolvent accounts
    → AllSolvent (settled ts k tw accounts)
settled-AllSolvent ts k tw accounts p h = elim (Bool-cases (has_entry ts tw)) [
  | inr absent ↦ rw (settled-absent ts k tw accounts absent) h
  | inl own ↦ elim (Option-cases (lookup k accounts)) [
    | inl missing ↦ rw (settled-missing ts k tw accounts missing) h
    | inr (acc, found) ↦
        rw (settled-found ts k tw accounts acc own found) (insert-AllSolvent k _ accounts p h)
  ]
]

committed_value_at-settled :
    (ts : ℤ) (k j : Text) (tw : List WriteVale) (accounts : Dict Account)
    → text_eq k j ≡ false
    → committed_value_at j (settled ts k tw accounts) ≡ committed_value_at j accounts
unfolding settled
committed_value_at-settled ts k j tw accounts other = elim (Option-cases (lookup k accounts)) [
  | inl missing ↦ ground arith
  | inr (acc, found) ↦ ground (
    arith,
    lookup-insert k j (commit_account ts (balance_at ts (committed_value_at k accounts) tw) acc)
        accounts,
  )
]

overdrawn-settled :
    (ts : ℤ) (k : Text) (tw : List WriteVale) (accounts : Dict Account) (m : Dict (List WriteVale))
    → All (λ e. text_eq k e.0 ≡ false) m
    → overdrawn ts (settled ts k tw accounts) m ≡ overdrawn ts accounts m
unfolding overdrawn
overdrawn-settled ts k tw accounts [] h = refl
overdrawn-settled ts k tw accounts ((j, tw') ∷ m) h =
    rw (committed_value_at-settled ts k j tw accounts h.0, overdrawn-settled ts k tw accounts m h.1)

ltb_ℤ-false : (a b : ℤ) → ltb_ℤ a b ≡ false → b ≤ℤ a
ltb_ℤ-false a b h = ground arith

overdrawn-cons :
    (ts : ℤ) (k : Text) (tw : List WriteVale) (accounts : Dict Account) (m : Dict (List WriteVale))
    → overdrawn ts accounts ((k, tw) ∷ m) ≡ false
    → (pos 0 ≤ℤ balance_at ts (committed_value_at k accounts) tw)
      × (overdrawn ts accounts m ≡ false)
unfolding overdrawn
overdrawn-cons ts k tw accounts m h =
    let both = or-false (ltb_ℤ (balance_at ts (committed_value_at k accounts) tw) (pos 0)) _ h in
    (ltb_ℤ-false (balance_at ts (committed_value_at k accounts) tw) (pos 0) both.0, both.1)

committed_accounts-AllSolvent :
    (ts : ℤ) (m : Dict (List WriteVale)) (accounts : Dict Account)
    → KeysDistinct m
    → overdrawn ts accounts m ≡ false
    → AllSolvent accounts
    → AllSolvent (committed_accounts ts m accounts)
unfolding committed_accounts
committed_accounts-AllSolvent ts [] accounts distinct covered h = h
committed_accounts-AllSolvent ts ((k, tw) ∷ m) accounts distinct covered h =
    let (here, rest) = overdrawn-cons ts k tw accounts m covered in
    committed_accounts-AllSolvent ts m (settled ts k tw accounts) distinct.1
      (overdrawn-settled ts k tw accounts m distinct.0 ∙ rest)
      (settled-AllSolvent ts k tw accounts here h)

committed_accounts-unrelated :
    (ts : ℤ) (m : Dict (List WriteVale)) (accounts : Dict Account)
    → tx_related ts m ≡ false
    → committed_accounts ts m accounts ≡ accounts
unfolding committed_accounts tx_related
committed_accounts-unrelated ts [] accounts h = refl
committed_accounts-unrelated ts ((k, tw) ∷ m) accounts h =
    let both = or-false (has_entry ts tw) (tx_related ts m) h in
    rw (settled-absent ts k tw accounts both.0) (committed_accounts-unrelated ts m accounts both.1)

check_commit-passed :
    (ts : ℤ) (sv sv' : Server)
    → check_commit ts sv ≡ returns (true, sv')
    → (sv' ≡ sv) × ((tx_related ts sv.tw ≡ false) ⊎ (overdrawn ts sv.accounts sv.tw ≡ false))
unfolding check_commit
check_commit-passed ts sv sv' h = elim (Bool-cases (tx_related ts sv.tw)) [
  | inr unrelated ↦ ground arith
  | inl related ↦ elim (Bool-cases (overdrawn ts sv.accounts sv.tw)) [
    | inr covered ↦ ground arith
    | inl short ↦ absurd (ground arith)
  ]
]

-- Where no tentative write is later than the transaction, each account that it wrote is there, no
-- key of TW is there twice, and the fuel is above the length of every TW list: if `CheckCommit`
-- lets the transaction through, its commit returns, and no account has a negative committed value
-- after it, provided none had one before.
pub do_commit-AllSolvent :
    (fuel : ℕ) (ts : ℤ) (sv sv' : Server)
    → KeysDistinct sv.tw
    → AllUpTo fuel ts sv.tw
    → AllKnown ts sv.accounts sv.tw
    → check_commit ts sv ≡ returns (true, sv')
    → AllSolvent sv.accounts
    → (sv'' : Server) × (do_commit fuel ts sv' ≡ returns sv'') × AllSolvent sv''.accounts
do_commit-AllSolvent fuel ts sv sv' distinct upto known passed h =
    let (same, why) = check_commit-passed ts sv sv' passed in
    (
      _,
      ap (do_commit fuel ts) same ∙ do_commit_lem fuel ts sv upto known,
      elim why [
        | inl unrelated ↦ rw (committed_accounts-unrelated ts sv.tw sv.accounts unrelated) h
        | inr covered ↦ committed_accounts-AllSolvent ts sv.tw sv.accounts distinct covered h
      ],
    )
