-- ===== src/Raft/Cluster/Safety.antt =====
-- The votes of a cluster through each of its steps.
use cs.Prelude.{
  update, ℕ, ◌≡◌, ◌≢◌, inl, inr, refl, sym, true, false, List, ◌==◌, ==_iff, Bool-cases, arith,
  subst,
}
use cs.Raft.State.{Raft, Intn, make, turn_leader}
use cs.Raft.Cluster.{
  Ballot, Cluster, Step, handles, grants, times_out, counts, wins, starts, sends, appends, Reach,
  begin, then_,
}
use cs.Raft.Cluster.Handled.{Handles-Calm, start-Calm, append_entries-Calm}
use cs.Raft.Cluster.Fair.{IsFair, Calm-IsFair, other-IsFair, OneEach, grants-IsFair, grants-OneEach}
use cs.Raft.Cluster.Counted.{timeout-IsFair, counts-IsFair}

-- Every voter votes for one candidate in a term, and every peer's election is fair.
pub record IsSafe {C : Type 0} (n : ℕ) (s : Cluster C) : Type 0 where
  pub one : OneEach s.ballots
  pub fair : (j : ℕ) → IsFair n j (s.peer j) (s.voters j) s.ballots

module _ {C : Type 0} (n i : ℕ) (s : Cluster C) (rf : Raft C) (bs : List Ballot)
    (rest : (j : ℕ) → i ≢ j → IsFair n j (s.peer j) (s.voters j) bs) where
  unequal : (j : ℕ) → (i == j) ≡ false → i ≢ j
  unequal j h e = ground (arith, h, e)

  -- One peer has changed, with its voters or without.
  update-IsFair :
      (vs : List ℕ)
      → IsFair n i rf vs bs
      → (j : ℕ) → IsFair n j (update s.peer i rf j) (update s.voters i vs j) bs
  update-IsFair vs f j = elim (Bool-cases (i == j)) [
    | inl same ↦ rw same (subst (λ k. IsFair n k rf vs bs) ((==_iff i j).0 same) f)
    | inr other ↦ rw other (rest j (unequal j other))
  ]

  update_peer-IsFair :
      IsFair n i rf (s.voters i) bs → (j : ℕ) → IsFair n j (update s.peer i rf j) (s.voters j) bs
  update_peer-IsFair f j = elim (Bool-cases (i == j)) [
    | inl same ↦ rw same (subst (λ k. IsFair n k rf (s.voters k) bs) ((==_iff i j).0 same) f)
    | inr other ↦ rw other (rest j (unequal j other))
  ]

pub Step-IsSafe : {C : Type 0} {n : ℕ} {s s' : Cluster C} → Step n s s' → IsSafe n s → IsSafe n s'
Step-IsSafe {n = n} {s = s} (handles i {rf} lt h) safe = record {
  one = safe.one;
  fair =
      update_peer-IsFair n i s rf s.ballots (λ j _. safe.fair j)
        (Calm-IsFair n i (s.peer i) rf (s.voters i) s.ballots (safe.fair i) (Handles-Calm h));
}
Step-IsSafe {n = n} {s = s} (grants i intn args {rf} {reply} lt other h granted) safe = record {
  one =
      grants-OneEach n i intn args (s.peer i) rf reply (s.voters i) s.ballots (safe.fair i) other h
        granted safe.one;
  fair =
      update_peer-IsFair n i s rf _
        (λ j ne.
          other-IsFair n j (s.peer j) (s.voters j) _ s.ballots (safe.fair j) (λ e. ne (sym e)))
        (grants-IsFair n i intn args (s.peer i) rf reply (s.voters i) s.ballots (safe.fair i) other
          h granted);
}
Step-IsSafe {n = n} {s = s} (times_out i intn {rf} lt h) safe = record {
  one = safe.one;
  fair =
      update-IsFair n i s rf s.ballots (λ j _. safe.fair j) _
        (timeout-IsFair n i intn (s.peer i) rf (s.voters i) s.ballots lt (safe.fair i) h);
}
Step-IsSafe {n = n} {s = s} (counts i q intn {rf} {votes} lt lt' alive candidate cast fresh h)
      safe =
    record {
      one = safe.one;
      fair =
          update-IsFair n i s rf s.ballots (λ j _. safe.fair j) _
            (counts-IsFair n i q intn (s.peer i) rf votes false (s.voters i) s.ballots lt' alive
              candidate cast fresh (safe.fair i) h);
    }
Step-IsSafe {n = n} {s = s} (wins i q intn {rf} {votes} lt lt' alive candidate cast fresh h) safe =
    record {
      one = safe.one;
      fair =
          update-IsFair n i s (turn_leader rf) s.ballots (λ j _. safe.fair j) _
            (counts-IsFair n i q intn (s.peer i) rf votes true (s.voters i) s.ballots lt' alive
              candidate cast fresh (safe.fair i) h);
    }
Step-IsSafe {n = n} {s = s} (starts i command lt leads) safe = record {
  one = safe.one;
  fair =
      update_peer-IsFair n i s _ s.ballots (λ j _. safe.fair j)
        (Calm-IsFair n i (s.peer i) _ (s.voters i) s.ballots (safe.fair i)
          (start-Calm command (s.peer i)));
}
Step-IsSafe (sends i p lt other h) safe = record { one = safe.one; fair = safe.fair }
Step-IsSafe {n = n} {s = s} (appends i intn m {rf} {reply} lt on to h) safe = record {
  one = safe.one;
  fair =
      update_peer-IsFair n i s rf s.ballots (λ j _. safe.fair j)
        (Calm-IsFair n i (s.peer i) rf (s.voters i) s.ballots (safe.fair i)
          (append_entries-Calm intn m.args (s.peer i) rf reply h));
}

pub Reach-IsSafe : {C : Type 0} {intn : Intn} {n : ℕ} {s : Cluster C} → Reach intn n s → IsSafe n s
unfolding make
Reach-IsSafe begin = record {
  one = λ q t c c' x y. absurd x;
  fair = λ j. record {
    size = refl;
    named = refl;
    own = λ active. absurd (active refl);
    given = λ t c cast. absurd cast;
    distinct = tt;
    inside = tt;
    backed = λ active. tt;
    won = λ leads. absurd (ground (arith, leads));
  };
}
Reach-IsSafe (then_ r st) = Step-IsSafe st (Reach-IsSafe r)
