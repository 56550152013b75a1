-- ===== src/Bank/Commit/Twice.antt =====
-- Two writers of one account, the newer of which commits first.
use cs.Bank.Commit.Loop.{UpTo}
use cs.Prelude.{length, ◌≢◌, ℕ, ◌<◌, ◌≡◌, refl, ap, ◌∙◌, true, none, some, List, [], ◌∷◌, arith}
use cs.Prelude.Int.{ℤ, ◌<ℤ◌, add64}
use cs.Prelude.Text.{Text, text_eq_refl}
use cs.Prelude.Dict.{lookup, insert}
use cs.Bank.Outcome.{returns, ◌>>=◌}
use cs.Bank.State.{WriteVale, Account, Server, committed_value_at}
use cs.Bank.Read.{has_entry}
use cs.Bank.Commit.{balance_at, commit_account, do_commit}
use cs.Bank.Abort.Lists.{others}
use cs.Bank.Abort.Result.{map_others}
use cs.Bank.Commit.Result.{do_commit_lem, committed_accounts, settled-found}

-- A server with one account, on which an older and a newer transaction have written.
abbrev pub two_writers : Server → Text → Account → ℤ → ℤ → ℤ → ℤ → Server
two_writers sv k acc t₁ a t₂ b = record sv {
  accounts = (k, acc) ∷ [];
  tw = (k, record { timestamp = t₁; value = a } ∷ record { timestamp = t₂; value = b } ∷ []) ∷ [];
}

-- A server with one account.
abbrev only : Server → Text → Account → List WriteVale → Server
only sv k acc tw = record sv { accounts = (k, acc) ∷ []; tw = (k, tw) ∷ [] }

lookup-only : (k : Text) (acc : Account) → lookup k ((k, acc) ∷ []) ≡ some acc
unfolding lookup
lookup-only k acc = rw (text_eq_refl k)

insert-only : (k : Text) (acc acc' : Account) → insert k acc' ((k, acc) ∷ []) ≡ (k, acc') ∷ []
unfolding insert
insert-only k acc acc' = rw (text_eq_refl k)

do_commit-only :
    (fuel : ℕ) (ts : ℤ) (sv : Server) (k : Text) (acc : Account) (tw : List WriteVale)
    → UpTo ts tw
    → length tw < fuel
    → has_entry ts tw ≡ true
    → do_commit fuel ts (only sv k acc tw)
      ≡ returns
          (only sv k (commit_account ts (balance_at ts acc.committed_value tw) acc) (others ts tw))
unfolding committed_accounts map_others
do_commit-only fuel ts sv k acc tw upto enough own =
    let found = lookup-only k acc in
    let known : lookup k ((k, acc) ∷ []) ≢ none = λ missing. ground arith in
    let reads : committed_value_at k ((k, acc) ∷ []) ≡ acc.committed_value =
      rw (committed_value_at, found) in
    let settles = settled-found ts k tw ((k, acc) ∷ []) acc own found in
    let inserts =
      insert-only k acc (commit_account ts (balance_at ts acc.committed_value tw) acc) in
    do_commit_lem fuel ts (only sv k acc tw) ((upto, enough), tt) ((λ _. known), tt)
    ∙ ap (λ m. returns (record sv { accounts = m; tw = (k, others ts tw) ∷ [] }))
        (rw settles (rw reads inserts))

module _ (t₁ a t₂ b cv : ℤ) (older : t₁ <ℤ t₂) where
  abbrev both : List WriteVale
  both = record { timestamp = t₁; value = a } ∷ record { timestamp = t₂; value = b } ∷ []

  abbrev first_write : List WriteVale
  first_write = record { timestamp = t₁; value = a } ∷ []

  has_entry-both : has_entry t₂ both ≡ true
  unfolding has_entry
  has_entry-both = ground arith

  has_entry-first_write : has_entry t₁ first_write ≡ true
  unfolding has_entry
  has_entry-first_write = ground arith

  others-both : others t₂ both ≡ first_write
  unfolding others
  others-both = ground arith

  others-first_write : others t₁ first_write ≡ []
  unfolding others
  others-first_write = ground arith

  balance_at-both : balance_at t₂ cv both ≡ add64 (add64 cv a) b
  unfolding balance_at
  balance_at-both = ground arith

  balance_at-first_write : balance_at t₁ cv first_write ≡ add64 cv a
  unfolding balance_at
  balance_at-first_write = ground arith

-- One account, with a tentative write of an older and one of a newer transaction, and fuel above
-- 2: when the newer transaction commits, and then the older one, the older amount is in the
-- balance twice, and the account ends with the older timestamp.
pub do_commit-twice :
    (fuel : ℕ) (sv : Server) (k : Text) (acc : Account) (t₁ a t₂ b : ℤ)
    → 2 < fuel
    → t₁ <ℤ t₂
    → (do_commit fuel t₂ (two_writers sv k acc t₁ a t₂ b) >>= do_commit fuel t₁)
      ≡ returns (record sv {
        accounts =
            (
              k,
              record acc {
                committed_value = add64 (add64 (add64 acc.committed_value a) b) a;
                committed_timestamp = t₁;
              },
            )
            ∷ [];
        tw = (k, []) ∷ [];
      })
do_commit-twice fuel sv k acc t₁ a t₂ b enough older =
    let cv = add64 (add64 acc.committed_value a) b in
    let acc' : Account = commit_account t₂ cv acc in
    let w : WriteVale = record { timestamp = t₁; value = a } in
    let two : List WriteVale = w ∷ record { timestamp = t₂; value = b } ∷ [] in
    let first =
      do_commit-only fuel t₂ sv k acc two (omega arith, (omega arith, tt)) enough
        (has_entry-both t₁ a t₂ b cv older) in
    let second =
      do_commit-only fuel t₁ sv k acc' (w ∷ []) (omega arith, tt) (omega arith)
        (has_entry-first_write t₁ a t₂ b cv older) in
    rw first (
      rw (others-both t₁ a t₂ b cv older, balance_at-both t₁ a t₂ b acc.committed_value older)
        (second
          ∙ rw (others-first_write t₁ a t₂ b cv older, balance_at-first_write t₁ a t₂ b cv older)
              refl))
