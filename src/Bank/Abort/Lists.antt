-- ===== src/Bank/Abort/Lists.antt =====
-- The loops of `DoAbort` over one list, against a filter.
use cs.Prelude.{
  ℕ, zero, suc, ◌+◌, ◌≤◌, ◌<◌, ◌≡◌, ◌∙◌, ap, true, false, none, some, List, [], ◌∷◌, ◌++◌, length,
  get_elem?, take, drop, if◌then◌else◌, Option-cases, Bool-cases, inl, inr, arith, get_elem?-lt,
  get_elem?-ge, drop-get_elem?, take-suc, take-past, drop-past, take-take_append, drop-take_append,
  length-append, length-take, length-drop, append_assoc, append-nil,
}
use cs.Prelude.Int.{ℤ, eqb_ℤ}
use cs.Bank.Outcome.{returns}
use cs.Bank.State.{WriteVale}
use cs.Bank.Abort.{delete_at, abort_tw_loop, abort_tw}

module _ {ℓ} {A : Type ℓ} (xs : List A) (i : ℕ) (lt : i < length xs) where
  pub length-delete_at : suc (length (delete_at i xs)) ≡ length xs
  length-delete_at =
      omega (
        arith,
        length-append (take i xs) (drop (suc i) xs),
        length-take i xs,
        length-drop (suc i) xs,
      )

  pub take-delete_at : take i (delete_at i xs) ≡ take i xs
  take-delete_at = take-take_append i xs (drop (suc i) xs) (omega arith)

  pub drop-delete_at : drop i (delete_at i xs) ≡ drop (suc i) xs
  drop-delete_at = drop-take_append i xs (drop (suc i) xs) (omega arith)

-- The entries of other transactions.
unfoldable pub others : ℤ → List WriteVale → List WriteVale
others ts [] = []
others ts (w ∷ ws) = if eqb_ℤ ts w.timestamp then others ts ws else w ∷ others ts ws

others-own :
    (ts : ℤ) (w : WriteVale) (ws : List WriteVale)
    → eqb_ℤ ts w.timestamp ≡ true
    → others ts (w ∷ ws) ≡ others ts ws
unfolding others
others-own ts w ws h = rw h

others-other :
    (ts : ℤ) (w : WriteVale) (ws : List WriteVale)
    → eqb_ℤ ts w.timestamp ≡ false
    → others ts (w ∷ ws) ≡ w ∷ others ts ws
unfolding others
others-other ts w ws h = rw h

abort_tw_loop-own :
    (f : ℕ) (ts : ℤ) (i : ℕ) (tw : List WriteVale) (w : WriteVale)
    → get_elem? tw i ≡ some w
    → eqb_ℤ ts w.timestamp ≡ true
    → abort_tw_loop (suc f) ts i tw ≡ abort_tw_loop f ts i (delete_at i tw)
unfolding abort_tw_loop
abort_tw_loop-own f ts i tw w found own = ground arith

abort_tw_loop-other :
    (f : ℕ) (ts : ℤ) (i : ℕ) (tw : List WriteVale) (w : WriteVale)
    → get_elem? tw i ≡ some w
    → eqb_ℤ ts w.timestamp ≡ false
    → abort_tw_loop (suc f) ts i tw ≡ abort_tw_loop f ts (suc i) tw
unfolding abort_tw_loop
abort_tw_loop-other f ts i tw w found other = ground arith

abort_tw_loop-end :
    (f : ℕ) (ts : ℤ) (i : ℕ) (tw : List WriteVale)
    → get_elem? tw i ≡ none
    → abort_tw_loop (suc f) ts i tw ≡ returns tw
unfolding abort_tw_loop
abort_tw_loop-end f ts i tw past = rw (past, abort_tw_loop)

abort_tw_loop_lem :
    (f : ℕ) (ts : ℤ) (i : ℕ) (tw : List WriteVale)
    → i ≤ length tw
    → length tw < i + f
    → abort_tw_loop f ts i tw ≡ returns (take i tw ++ others ts (drop i tw))
abort_tw_loop_lem zero ts i tw le lt = absurd (omega arith)
abort_tw_loop_lem (suc f) ts i tw le lt = elim (Option-cases (get_elem? tw i)) [
  | inl past ↦
      let ends = get_elem?-ge tw i past in
      rw (abort_tw_loop-end f ts i tw past, drop-past i tw ends, take-past i tw ends)
        (unfold others in rw append-nil)
  | inr (w, found) ↦
      let inside = get_elem?-lt tw i found in
      elim (Bool-cases (eqb_ℤ ts w.timestamp)) [
        | inl own ↦
            let shorter = length-delete_at tw i inside in
            abort_tw_loop-own f ts i tw w found own
            ∙ abort_tw_loop_lem f ts i (delete_at i tw) (omega arith) (omega arith)
            ∙ rw (
              take-delete_at tw i inside,
              drop-delete_at tw i inside,
              drop-get_elem? tw i found,
              others-own ts w _ own,
            )
        | inr other ↦
            abort_tw_loop-other f ts i tw w found other
            ∙ abort_tw_loop_lem f ts (suc i) tw inside (omega arith)
            ∙ rw (take-suc tw i found, drop-get_elem? tw i found, others-other ts w _ other)
                (ap returns (append_assoc (take i tw) _ _))
      ]
]

-- The loop over a TW list ends, and leaves the entries of the other transactions in their order.
pub abort_tw_lem : (ts : ℤ) (tw : List WriteVale) → abort_tw ts tw ≡ returns (others ts tw)
unfolding abort_tw
abort_tw_lem ts tw = abort_tw_loop_lem (length tw + 1) ts 0 tw (omega arith) (omega arith)
