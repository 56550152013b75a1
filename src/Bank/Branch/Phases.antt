-- ===== src/Bank/Branch/Phases.antt =====
-- READY messages at the coordinator.
use cs.Prelude.{
  ℕ, zero, suc, ◌+◌, ◌<◌, ◌≡◌, refl, ◌∙◌, ap, false, [], ◌++◌, ◌==◌, if◌then◌else◌, arith,
}
use cs.Prelude.Text.{Text}
use cs.Prelude.Dict.{Dict, insert, lookup-insert_self, insert-insert}
use cs.Bank.Outcome.{returns, panics, waits, loops, ◌>>=◌}
use cs.Bank.State.{Server}
use cs.Bank.Branch.{Reply, coordinator_commit, ready_count, branch_ready}

-- A number of READY messages in a row, with what they send.
unfoldable pub readies : ℕ → ℕ → Text → Server → Reply
readies zero fuel word sv = returns (sv, [])
readies (suc n) fuel word sv =
    readies n fuel word sv >>= λ r. branch_ready fuel word r.0 >>= λ s. returns (s.0, r.1 ++ s.1)

-- The server with a counter for the transaction.
abbrev pub counted : ℕ → Text → Server → Server
counted n word sv = record sv { commit_count = insert word n sv.commit_count }

below : (n : ℕ) → suc n < 4 → ((n + 1) == 4) ≡ false
below n few = ground arith

unchanged : (m : Reply) → (m >>= λ s. returns (s.0, [] ++ s.1)) ≡ m
unchanged (returns a) = refl
unchanged panics = refl
unchanged waits = refl
unchanged loops = refl

module _ (fuel : ℕ) (word : Text) (sv : Server) where
  ready_count-counted : (n : ℕ) → ready_count word (counted n word sv) ≡ n + 1
  ready_count-counted n = rw (ready_count, lookup-insert_self word n sv.commit_count) refl

  branch_ready-counted :
      (n : ℕ)
      → branch_ready fuel word (counted n word sv) ≡ (
          if (n + 1) == 4
          then coordinator_commit fuel word (counted (n + 1) word sv)
          else returns (counted (n + 1) word sv, []))
  unfolding branch_ready
  branch_ready-counted n =
      let again = insert-insert word (n + 1) n sv.commit_count in
      let next : Dict ℕ → Server = λ m. record sv { commit_count = m } in
      ap
        (λ k.
          let sv' : Server = next (insert word k (insert word n sv.commit_count)) in
          if k == 4 then coordinator_commit fuel word sv' else returns (sv', []))
        (ready_count-counted n)
      ∙ ap
          (λ m.
            if (n + 1) == 4 then coordinator_commit fuel word (next m) else returns (next m, []))
          again

  readies-few :
      (n : ℕ) → n < 4 → readies n fuel word (counted 0 word sv) ≡ returns (counted n word sv, [])
  unfolding readies
  readies-few zero few = refl
  readies-few (suc n) few = rw (readies-few n (omega arith)) (
      rw (branch_ready-counted n)
        (rw (below n few) (ap (λ k. returns (counted k word sv, [])) (omega arith))))

  -- With the counter at 0, as `COMMIT` leaves it, up to three READY messages only raise the counter
  -- and send nothing; the fourth does what the coordinator's commit does on the counted state.
  pub readies_lem :
      (n : ℕ)
      → n < 4
      → (readies n fuel word (counted 0 word sv) ≡ returns (counted n word sv, []))
        × (readies 4 fuel word (counted 0 word sv)
            ≡ coordinator_commit fuel word (counted 4 word sv))
  unfolding readies
  readies_lem n few = (
    readies-few n few,
    rw (readies-few 3 (omega arith)) (
        rw (branch_ready-counted 3) (unchanged (coordinator_commit fuel word (counted 4 word sv)))),
  )
