-- ===== src/Bank/Abort/Reads.antt =====
-- The loop of `DoAbort` over one RTS list, whose bound is the number of lists.
use cs.Prelude.{
  ℕ, zero, suc, ◌+◌, ◌≤◌, ◌<◌, ◌≡◌, ◌≢◌, refl, sym, ◌∙◌, ap, true, false, Option, none, some, List,
  [], ◌∷◌, ◌++◌, length, get_elem?, take, drop, ltb, if◌then◌else◌, Option-cases, Bool-cases, inl,
  inr, arith, get_elem?-lt, get_elem?-ge, drop-get_elem?, take-suc, drop-past, take-append-drop,
  append_assoc,
}
use cs.Prelude.Int.{ℤ, eqb_ℤ}
use cs.Bank.Outcome.{Outcome, returns, panics}
use cs.Bank.Abort.{delete_at, abort_rts_loop, abort_rts}
use cs.Bank.Abort.Lists.{length-delete_at, take-delete_at, drop-delete_at}

-- The reads of other transactions.
unfoldable pub other_reads : ℤ → List ℤ → List ℤ
other_reads ts [] = []
other_reads ts (r ∷ rs) = if eqb_ℤ ts r then other_reads ts rs else r ∷ other_reads ts rs

-- The reads of other transactions up to the `n`th, and what stands behind it untouched; `none` if
-- there are fewer.
unfoldable pub first_others : ℕ → ℤ → List ℤ → Option (List ℤ)
first_others zero ts rs = some rs
first_others (suc n) ts [] = none
first_others (suc n) ts (r ∷ rs) = elim (eqb_ℤ ts r) [
  | true ↦ first_others (suc n) ts rs
  | false ↦ elim (first_others n ts rs) [ none ↦ none | some ys ↦ some (r ∷ ys) ]
]

-- The outcome for a list whose beginning is done.
ending : List ℤ → Option (List ℤ) → Outcome (List ℤ)
ending done none = panics
ending done (some ys) = returns (done ++ ys)

module _ (f n : ℕ) (ts : ℤ) (i : ℕ) (rs : List ℤ) where
  abort_rts_loop-end : ltb i n ≡ false → abort_rts_loop (suc f) n ts i rs ≡ returns rs
  unfolding abort_rts_loop
  abort_rts_loop-end h = ground arith

  abort_rts_loop-panics :
      ltb i n ≡ true → get_elem? rs i ≡ none → abort_rts_loop (suc f) n ts i rs ≡ panics
  unfolding abort_rts_loop
  abort_rts_loop-panics h past = ground arith

  abort_rts_loop-own :
      (r : ℤ)
      → ltb i n ≡ true
      → get_elem? rs i ≡ some r
      → eqb_ℤ ts r ≡ true
      → abort_rts_loop (suc f) n ts i rs ≡ abort_rts_loop f n ts i (delete_at i rs)
  unfolding abort_rts_loop
  abort_rts_loop-own r h found own = ground arith

  abort_rts_loop-other :
      (r : ℤ)
      → ltb i n ≡ true
      → get_elem? rs i ≡ some r
      → eqb_ℤ ts r ≡ false
      → abort_rts_loop (suc f) n ts i rs ≡ abort_rts_loop f n ts (suc i) rs
  unfolding abort_rts_loop
  abort_rts_loop-other r h found other = ground arith

first_others-own :
    (m : ℕ) (ts r : ℤ) (rs : List ℤ)
    → eqb_ℤ ts r ≡ true
    → first_others (suc m) ts (r ∷ rs) ≡ first_others (suc m) ts rs
unfolding first_others
first_others-own m ts r rs h = ground arith

ending-other :
    (m : ℕ) (ts r : ℤ) (rs done : List ℤ)
    → eqb_ℤ ts r ≡ false
    → ending (done ++ r ∷ []) (first_others m ts rs)
      ≡ ending done (first_others (suc m) ts (r ∷ rs))
unfolding first_others ending
ending-other m ts r rs done h = elim (Option-cases (first_others m ts rs)) [
  | inl short ↦ ground arith
  | inr (ys, found) ↦ ground (arith, append_assoc done (r ∷ []) ys)
]

-- `m` rounds without a deletion are left.
abort_rts_loop_lem :
    (f m n : ℕ) (ts : ℤ) (i : ℕ) (rs : List ℤ)
    → n ≡ i + m
    → i ≤ length rs
    → length rs < i + f
    → abort_rts_loop f n ts i rs ≡ ending (take i rs) (first_others m ts (drop i rs))
abort_rts_loop_lem zero m n ts i rs bound le lt = absurd (omega arith)
abort_rts_loop_lem (suc f) zero n ts i rs bound le lt =
    abort_rts_loop-end f n ts i rs (ground arith)
    ∙ unfold ending first_others in ap returns (sym (take-append-drop i rs))
abort_rts_loop_lem (suc f) (suc m) n ts i rs bound le lt =
    let more : ltb i n ≡ true = ground arith in
    elim (Option-cases (get_elem? rs i)) [
      | inl past ↦
          abort_rts_loop-panics f n ts i rs more past
          ∙ rw (drop-past i rs (get_elem?-ge rs i past)) (unfold ending first_others in refl)
      | inr (r, found) ↦
          let inside = get_elem?-lt rs i found in
          elim (Bool-cases (eqb_ℤ ts r)) [
            | inl own ↦
                let shorter = length-delete_at rs i inside in
                abort_rts_loop-own f n ts i rs r more found own
                ∙ abort_rts_loop_lem f (suc m) n ts i (delete_at i rs) bound (omega arith)
                    (omega arith)
                ∙ rw (
                  take-delete_at rs i inside,
                  drop-delete_at rs i inside,
                  drop-get_elem? rs i found,
                  first_others-own m ts r _ own,
                )
            | inr other ↦
                abort_rts_loop-other f n ts i rs r more found other
                ∙ abort_rts_loop_lem f m n ts (suc i) rs (omega arith) inside (omega arith)
                ∙ rw (take-suc rs i found, drop-get_elem? rs i found)
                    (ending-other m ts r _ (take i rs) other)
          ]
    ]

first_others-short :
    (n : ℕ) (ts : ℤ) (rs : List ℤ) → length (other_reads ts rs) < n → first_others n ts rs ≡ none
unfolding first_others other_reads
first_others-short zero ts rs h = absurd (omega arith)
first_others-short (suc n) ts [] h = refl
first_others-short (suc n) ts (r ∷ rs) h =
    ground (arith, first_others-short (suc n) ts rs, first_others-short n ts rs)

first_others-long :
    (n : ℕ) (ts : ℤ) (rs : List ℤ) → n ≤ length (other_reads ts rs) → first_others n ts rs ≢ none
unfolding first_others other_reads
first_others-long zero ts rs h = ground arith
first_others-long (suc n) ts [] h = absurd (omega arith)
first_others-long (suc n) ts (r ∷ rs) h =
    ground (arith, first_others-long (suc n) ts rs, first_others-long n ts rs)

-- With `n` lists in RTS, the loop over one of them ends without a panic exactly when that list has
-- at least `n` reads of other transactions.
pub abort_rts_panics :
    (n : ℕ) (ts : ℤ) (rs : List ℤ)
    → (length (other_reads ts rs) < n → abort_rts n ts rs ≡ panics)
      × (n ≤ length (other_reads ts rs) → (ys : List ℤ) × (abort_rts n ts rs ≡ returns ys))
unfolding abort_rts
abort_rts_panics n ts rs =
    let run =
      abort_rts_loop_lem (length rs + 1) n n ts 0 rs (omega arith) (omega arith) (omega arith) in
    (
      λ short. run ∙ rw (first_others-short n ts rs short) (unfold ending in refl),
      λ long. elim (Option-cases (first_others n ts rs)) [
        | inl short ↦ absurd (first_others-long n ts rs long short)
        | inr (ys, found) ↦ (ys, run ∙ rw found (unfold ending in refl))
      ],
    )
