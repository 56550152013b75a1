-- ===== src/Bank/Read/Rule.antt =====
-- What a read returns, and what it leaves behind.
use cs.Prelude.{
  In, ◌≡◌, ◌⊎◌, refl, true, false, some, List, [], ◌∷◌, ◌++◌, not, All, Bool-cases, inl, inr, arith,
}
use cs.Prelude.Int.{ℤ, ◌<ℤ◌}
use cs.Prelude.Dict.{lookup}
use cs.Bank.State.{WriteVale, Account, Operation, Server, list_at}
use cs.Bank.Read.{has_entry, wait_loop}
use cs.Bank.Commit.{balance_at}

-- A value that was read belongs to an account that was committed before the transaction. It is the
-- committed value with every tentative write up to the transaction. Either the read is recorded
-- and every tentative write is later than the transaction, or the transaction has a write of its
-- own there, and the server is as before.
pub record IsRead (op : Operation) (v : ℤ) (sv sv' : Server) : Type 0 where
  pub acc : Account
  pub known : lookup op.account sv.accounts ≡ some acc
  pub in_time : acc.committed_timestamp <ℤ op.timestamp
  pub balance : v ≡ balance_at op.timestamp acc.committed_value (list_at op.account sv.tw)
  pub recorded :
      (All (λ w. op.timestamp <ℤ w.timestamp) (list_at op.account sv.tw)
        × (list_at op.account sv'.rts ≡ list_at op.account sv.rts ++ op.timestamp ∷ []))
      ⊎ (((w : WriteVale) × In w (list_at op.account sv.tw) × (w.timestamp ≡ op.timestamp))
          × (sv' ≡ sv))

wait_loop-lowered : (ts : ℤ) (rounds : List (List WriteVale)) → wait_loop false ts rounds ≡ false
unfolding wait_loop
wait_loop-lowered ts [] = refl
wait_loop-lowered ts (tw ∷ rounds) = wait_loop-lowered ts rounds

-- The loop that waits for a transaction goes on only if its first look at the TW list does not find
-- the transaction; once it has seen it, it waits for ever, also when the transaction is gone.
pub wait_loop-forever :
    (ts : ℤ) (tw : List WriteVale) (rounds : List (List WriteVale))
    → wait_loop true ts (tw ∷ rounds) ≡ not (has_entry ts tw)
unfolding wait_loop
wait_loop-forever ts tw rounds = elim (Bool-cases (has_entry ts tw)) [
  | inl seen ↦ ground (arith, wait_loop-lowered ts rounds)
  | inr gone ↦ ground arith
]
