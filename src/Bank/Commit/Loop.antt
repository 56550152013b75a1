-- ===== src/Bank/Commit/Loop.antt =====
-- The loop of `DoCommit` over one TW list that has no entry later than the transaction.
use cs.Prelude.{
  ℕ, zero, suc, ◌+◌, ◌≤◌, ◌<◌, ◌≡◌, refl, sym, ◌∙◌, ap, true, false, none, some, List, [], ◌∷◌,
  ◌++◌, ◌||◌, length, get_elem?, take, drop, Option-cases, Bool-cases, inl, inr, arith, All,
  get_elem?-lt, get_elem?-ge, drop-get_elem?, take-suc, take-past, drop-past, append_assoc,
  append-nil, subst,
}
use cs.Prelude.Int.{ℤ, leb_ℤ, eqb_ℤ, eqb_ℤ_comm, ◌≤ℤ◌, add64}
use cs.Bank.Outcome.{returns}
use cs.Bank.State.{WriteVale}
use cs.Bank.Read.{has_entry}
use cs.Bank.Abort.{delete_at}
use cs.Bank.Abort.Lists.{others, length-delete_at, take-delete_at, drop-delete_at}
use cs.Bank.Commit.{balance_at, Tally, commit_loop}

-- No entry is later than the transaction.
abbrev pub UpTo : ℤ → List WriteVale → Type 0
UpTo ts = All (λ w. w.timestamp ≤ℤ ts)

module _ (f : ℕ) (ts : ℤ) (i : ℕ) (t : Tally) where
  pub commit_loop-end : get_elem? t.tw i ≡ none → commit_loop (suc f) ts i t ≡ returns t
  unfolding commit_loop
  commit_loop-end past = ground arith

  pub commit_loop-later :
      (w : WriteVale)
      → get_elem? t.tw i ≡ some w
      → leb_ℤ w.timestamp ts ≡ false
      → commit_loop (suc f) ts i t ≡ commit_loop f ts i t
  unfolding commit_loop
  commit_loop-later w found later = ground arith

  pub commit_loop-own :
      (w : WriteVale)
      → get_elem? t.tw i ≡ some w
      → leb_ℤ w.timestamp ts ≡ true
      → eqb_ℤ w.timestamp ts ≡ true
      → commit_loop (suc f) ts i t
        ≡ commit_loop f ts i
            (record { tw = delete_at i t.tw; ds = add64 t.ds w.value; flag = true })
  unfolding commit_loop
  commit_loop-own w found upto own = ground arith

  pub commit_loop-other :
      (w : WriteVale)
      → get_elem? t.tw i ≡ some w
      → leb_ℤ w.timestamp ts ≡ true
      → eqb_ℤ w.timestamp ts ≡ false
      → commit_loop (suc f) ts i t ≡ commit_loop f ts (suc i) (record t { ds = add64 t.ds w.value })
  unfolding commit_loop
  commit_loop-other w found upto other = ground arith

-- What the loop makes of the list from index `i` on.
tallied : ℤ → ℕ → Tally → Tally
tallied ts i t = record {
  tw = take i t.tw ++ others ts (drop i t.tw);
  ds = balance_at ts t.ds (drop i t.tw);
  flag = t.flag || has_entry ts (drop i t.tw);
}

tallied-end : (ts : ℤ) (i : ℕ) (t : Tally) → length t.tw ≤ i → tallied ts i t ≡ t
unfolding tallied others balance_at has_entry
tallied-end ts i t ends =
    rw (drop-past i t.tw ends, take-past i t.tw ends) (ground (arith, append-nil t.tw))

module _ (ts : ℤ) (i : ℕ) (t : Tally) (w : WriteVale) (found : get_elem? t.tw i ≡ some w) where
  tallied-own :
      leb_ℤ w.timestamp ts ≡ true
      → eqb_ℤ w.timestamp ts ≡ true
      → tallied ts i (record { tw = delete_at i t.tw; ds = add64 t.ds w.value; flag = true })
        ≡ tallied ts i t
  unfolding tallied others balance_at has_entry
  tallied-own upto own =
      let inside = get_elem?-lt t.tw i found in
      rw (take-delete_at t.tw i inside, drop-delete_at t.tw i inside, drop-get_elem? t.tw i found)
        (ground (arith, eqb_ℤ_comm w.timestamp ts))

  tallied-other :
      leb_ℤ w.timestamp ts ≡ true
      → eqb_ℤ w.timestamp ts ≡ false
      → tallied ts (suc i) (record t { ds = add64 t.ds w.value }) ≡ tallied ts i t
  unfolding tallied others balance_at has_entry
  tallied-other upto other =
      rw (take-suc t.tw i found, drop-get_elem? t.tw i found)
        (ground (
          arith,
          eqb_ℤ_comm w.timestamp ts,
          append_assoc (take i t.tw) (w ∷ []) (others ts (drop (suc i) t.tw)),
        ))

  UpTo-head : UpTo ts (drop i t.tw) → (w.timestamp ≤ℤ ts) × UpTo ts (drop (suc i) t.tw)
  UpTo-head h = subst (UpTo ts) (drop-get_elem? t.tw i found) h

commit_loop_from :
    (f : ℕ) (ts : ℤ) (i : ℕ) (t : Tally)
    → i ≤ length t.tw
    → length t.tw < i + f
    → UpTo ts (drop i t.tw)
    → commit_loop f ts i t ≡ returns (tallied ts i t)
commit_loop_from zero ts i t le lt upto = absurd (omega arith)
commit_loop_from (suc f) ts i t le lt upto = elim (Option-cases (get_elem? t.tw i)) [
  | inl past ↦
      commit_loop-end f ts i t past
      ∙ ap returns (sym (tallied-end ts i t (get_elem?-ge t.tw i past)))
  | inr (w, found) ↦
      let inside = get_elem?-lt t.tw i found in
      let (earlier, rest) = UpTo-head ts i t w found upto in
      let le_w : leb_ℤ w.timestamp ts ≡ true = ground arith in
      elim (Bool-cases (eqb_ℤ w.timestamp ts)) [
        | inl own ↦
            let shorter = length-delete_at t.tw i inside in
            commit_loop-own f ts i t w found le_w own
            ∙ commit_loop_from f ts i _ (omega arith) (omega arith)
                (subst (UpTo ts) (sym (drop-delete_at t.tw i inside)) rest)
            ∙ ap returns (tallied-own ts i t w found le_w own)
        | inr other ↦
            commit_loop-other f ts i t w found le_w other
            ∙ commit_loop_from f ts (suc i) _ inside (omega arith) rest
            ∙ ap returns (tallied-other ts i t w found le_w other)
      ]
]

-- Where no entry of the list is later than the transaction and the fuel is above its length, the
-- loop ends: the transaction's entries are gone, and the sum is the balance at the transaction.
pub commit_loop_lem :
    (f : ℕ) (ts ds : ℤ) (tw : List WriteVale)
    → length tw < f
    → UpTo ts tw
    → commit_loop f ts 0 (record { tw = tw; ds = ds; flag = false })
      ≡ returns (record { tw = others ts tw; ds = balance_at ts ds tw; flag = has_entry ts tw })
commit_loop_lem f ts ds tw lt upto =
    commit_loop_from f ts 0 _ (omega arith) (omega arith) upto ∙ unfold tallied in refl
