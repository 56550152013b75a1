-- ===== src/Bank/Abort.antt =====
-- mp3/server/server.go `DoAbort`: taking a transaction back.
pub mod Lists
pub mod Reads
pub mod Result
use cs.Prelude.{
  ℕ, zero, suc, ◌+◌, Bool, true, false, Option, none, some, List, [], ◌∷◌, ◌++◌, length, get_elem?,
  take, drop, ltb, if◌then◌else◌,
}
use cs.Prelude.Int.{ℤ, eqb_ℤ}
use cs.Prelude.Text.{Text}
use cs.Prelude.Dict.{Dict}
use cs.Bank.Outcome.{Outcome, returns, panics, loops, ◌>>=◌}
use cs.Bank.State.{WriteVale, Account, Server}

-- `append(xs[:i], xs[i+1:]...)`
abbrev pub delete_at {ℓ} : {A : Type ℓ} → ℕ → List A → List A
delete_at i xs = take i xs ++ drop (suc i) xs

-- The loop over one TW list, from index `i`.
unfoldable pub abort_tw_loop : ℕ → ℤ → ℕ → List WriteVale → Outcome (List WriteVale)
abort_tw_loop zero ts i tw = loops
abort_tw_loop (suc f) ts i tw = elim (get_elem? tw i) [
  | none ↦ returns tw
  | some w ↦ elim (eqb_ℤ ts w.timestamp) [
    | true ↦ abort_tw_loop f ts i (delete_at i tw)
    | false ↦ abort_tw_loop f ts (suc i) tw
  ]
]

-- Each round shortens the list or moves on, so its length and one are rounds enough.
unfoldable pub abort_tw : ℤ → List WriteVale → Outcome (List WriteVale)
abort_tw ts tw = abort_tw_loop (length tw + 1) ts 0 tw

-- The loop over one RTS list, from index `i`; its bound `n` is the number of lists in RTS.
unfoldable pub abort_rts_loop : ℕ → ℕ → ℤ → ℕ → List ℤ → Outcome (List ℤ)
abort_rts_loop zero n ts i reads = loops
abort_rts_loop (suc f) n ts i reads = elim (ltb i n) [
  | false ↦ returns reads
  | true ↦ elim (get_elem? reads i) [
    | none ↦ panics
    | some r ↦ elim (eqb_ℤ ts r) [
      | true ↦ abort_rts_loop f n ts i (delete_at i reads)
      | false ↦ abort_rts_loop f n ts (suc i) reads
    ]
  ]
]

unfoldable pub abort_rts : ℕ → ℤ → List ℤ → Outcome (List ℤ)
abort_rts n ts reads = abort_rts_loop (length reads + 1) n ts 0 reads

-- A loop over the keys of a map that rewrites each list.
unfoldable pub each_list {ℓ} :
    {A : Type ℓ} → (List A → Outcome (List A)) → Dict (List A) → Outcome (Dict (List A))
each_list f [] = returns []
each_list f ((k, xs) ∷ m) = f xs >>= λ ys. each_list f m >>= λ m'. returns ((k, ys) ∷ m')

-- The accounts that the transaction did not create.
unfoldable pub drop_created : ℤ → Dict Account → Dict Account
drop_created ts [] = []
drop_created ts ((k, acc) ∷ m) =
    if eqb_ℤ acc.created_timestamp ts then drop_created ts m else (k, acc) ∷ drop_created ts m

unfoldable pub do_abort : ℤ → Server → Outcome Server
do_abort ts sv = do
  tw' ← each_list (abort_tw ts) sv.tw
  rts' ← each_list (abort_rts (length sv.rts) ts) sv.rts
  returns (record sv { tw = tw'; rts = rts'; accounts = drop_created ts sv.accounts })
