-- ===== src/Bank/Commit/Stuck.antt =====
-- `DoCommit` with an entry of TW that is later than the transaction.
use cs.Prelude.{
  ℕ, zero, suc, ◌≡◌, ◌⊎◌, refl, sym, ◌∙◌, true, List, [], ◌∷◌, get_elem?, drop, Option-cases,
  Bool-cases, inl, inr, arith, get_elem?-lt, get_elem?-ge, drop-get_elem?, drop-past, subst,
}
use cs.Prelude.Int.{ℤ, leb_ℤ, eqb_ℤ, ◌<ℤ◌}
use cs.Prelude.Dict.{Dict}
use cs.Bank.Outcome.{returns, loops, >>=-eq-returns}
use cs.Bank.State.{WriteVale, Account, Server}
use cs.Bank.Abort.Lists.{drop-delete_at}
use cs.Bank.Commit.{Tally, commit_loop, settle, start_tally, commit_lists, do_commit}
use cs.Bank.Commit.Loop.{commit_loop-later, commit_loop-own, commit_loop-other}

-- Some entry is later than the transaction.
abbrev pub HasLater : ℤ → List WriteVale → Type 0
HasLater ts [] = ⊥
HasLater ts (w ∷ ws) = (ts <ℤ w.timestamp) ⊎ HasLater ts ws

HasLater-rest :
    (ts : ℤ) (w : WriteVale) (ws : List WriteVale)
    → leb_ℤ w.timestamp ts ≡ true
    → HasLater ts (w ∷ ws)
    → HasLater ts ws
HasLater-rest ts w ws earlier (inl later) = absurd (ground arith)
HasLater-rest ts w ws earlier (inr rest) = rest

commit_loop_stuck :
    (f : ℕ) (ts : ℤ) (i : ℕ) (t : Tally) → HasLater ts (drop i t.tw) → commit_loop f ts i t ≡ loops
commit_loop_stuck zero ts i t later = unfold commit_loop in refl
commit_loop_stuck (suc f) ts i t later = elim (Option-cases (get_elem? t.tw i)) [
  | inl past ↦ absurd (subst (HasLater ts) (drop-past i t.tw (get_elem?-ge t.tw i past)) later)
  | inr (w, found) ↦
      let inside = get_elem?-lt t.tw i found in
      let here = subst (HasLater ts) (drop-get_elem? t.tw i found) later in
      elim (Bool-cases (leb_ℤ w.timestamp ts)) [
        | inr beyond ↦ commit_loop-later f ts i t w found beyond ∙ commit_loop_stuck f ts i t later
        | inl upto ↦
            let rest = HasLater-rest ts w (drop (suc i) t.tw) upto here in
            elim (Bool-cases (eqb_ℤ w.timestamp ts)) [
              | inl own ↦
                  commit_loop-own f ts i t w found upto own
                  ∙ commit_loop_stuck f ts i _
                      (subst (HasLater ts) (sym (drop-delete_at t.tw i inside)) rest)
              | inr other ↦
                  commit_loop-other f ts i t w found upto other
                  ∙ commit_loop_stuck f ts (suc i) _ rest
            ]
      ]
]

-- Some list of TW has an entry later than the transaction.
abbrev pub SomeLater : ℤ → Dict (List WriteVale) → Type 0
SomeLater ts [] = ⊥
SomeLater ts ((k, tw) ∷ m) = HasLater ts tw ⊎ SomeLater ts m

commit_lists_stuck :
    (f : ℕ) (ts : ℤ) (m : Dict (List WriteVale)) (accounts : Dict Account)
    (r : Dict (List WriteVale) × Dict Account)
    → SomeLater ts m
    → ¬ (commit_lists f ts m accounts ≡ returns r)
unfolding commit_lists
commit_lists_stuck f ts [] accounts r later h = later
commit_lists_stuck f ts ((k, tw) ∷ m) accounts r (inl here) h =
    let stuck = commit_loop_stuck f ts 0 (start_tally k tw accounts) here in
    let (t, done, _) = >>=-eq-returns (commit_loop f ts 0 (start_tally k tw accounts)) _ h in cc
commit_lists_stuck f ts ((k, tw) ∷ m) accounts r (inr rest) h =
    let (t, _, h') = >>=-eq-returns (commit_loop f ts 0 (start_tally k tw accounts)) _ h in
    let (accounts', _, h'') = >>=-eq-returns (settle ts k t accounts) _ h' in
    let (r', done, _) = >>=-eq-returns (commit_lists f ts m accounts') _ h'' in
    commit_lists_stuck f ts m accounts' r' rest done

-- While any account has a tentative write later than the transaction, its commit never returns,
-- however many rounds the loops are given.
pub do_commit-stuck :
    (fuel : ℕ) (ts : ℤ) (sv sv' : Server)
    → SomeLater ts sv.tw
    → ¬ (do_commit fuel ts sv ≡ returns sv')
unfolding do_commit
do_commit-stuck fuel ts sv sv' later h =
    let (r, done, _) = >>=-eq-returns (commit_lists fuel ts sv.tw sv.accounts) _ h in
    commit_lists_stuck fuel ts sv.tw sv.accounts r later done
