-- ===== src/Raft/Cluster/Counted.antt =====
-- A candidate's election: the timeout that begins it and the votes that it counts.
use cs.Prelude.{
  ℕ, ◌+◌, ◌/◌, ◌<◌, ◌≡◌, ◌≢◌, ◌⊎◌, inl, inr, refl, ◌∙◌, Bool, true, false, some, List, [], ◌∷◌,
  length, All, Bool-cases, arith, sym, ap, subst, ltb, if◌then◌else◌,
}
use cs.Raft.State.{Raft, Role, Intn, killed, turn_leader}
use cs.Raft.Election.{check_election_timeout, vote_reply}
use cs.Raft.Cluster.{Ballot, Cast, yes_vote}
use cs.Raft.Cluster.Quorum.{mem}
use cs.Raft.Cluster.Fair.{Backs, IsFair}

pub timeout_fields :
    {C : Type 0} (intn : Intn) (rf rf' : Raft C)
    → check_election_timeout intn rf ≡ (rf', true)
    → (rf'.peers ≡ rf.peers)
      × (rf'.me ≡ rf.me)
      × (rf'.current_term ≡ rf.current_term + 1)
      × (rf'.state ≡ Role.candidate)
      × (rf'.voted_for ≡ some rf.me)
unfolding check_election_timeout
timeout_fields intn rf rf' h = ground arith

pub timeout-IsFair :
    {C : Type 0} (n i : ℕ) (intn : Intn) (rf rf' : Raft C) (voters : List ℕ) (bs : List Ballot)
    → i < n
    → IsFair n i rf voters bs
    → check_election_timeout intn rf ≡ (rf', true)
    → IsFair n i rf' (i ∷ []) bs
unfolding mem
timeout-IsFair n i intn rf rf' voters bs inside f h =
    let fields = timeout_fields intn rf rf' h in
    record {
      size = fields.0 ∙ f.size;
      named = fields.1 ∙ f.named;
      own = λ active. fields.4 ∙ ap some f.named;
      given = λ t c cast.
          let g = f.given t c cast in
          (omega (arith, g.0, fields.2), λ now. absurd (omega (arith, g.0, fields.2)));
      distinct = (refl, tt);
      inside = (inside, tt);
      backed = λ active. (inl refl, tt);
      won = λ leads. absurd (ground (arith, fields.3));
    }

-- A vote that a live candidate counts in the term of the vote.
pub count_fields :
    {C : Type 0} (intn : Intn) (rf rf' : Raft C) (n votes : ℕ) (leads : Bool)
    → killed rf ≡ false
    → rf.state ≡ Role.candidate
    → vote_reply intn (some (yes_vote rf.current_term)) n rf ≡ (rf', votes, leads)
    → let after = if leads then turn_leader rf' else rf' in
      (after.peers ≡ rf.peers)
      × (after.me ≡ rf.me)
      × (after.current_term ≡ rf.current_term)
      × (after.voted_for ≡ rf.voted_for)
      × (((after.state ≡ Role.candidate) × (leads ≡ false))
          ⊎ ((after.state ≡ Role.leader) × (leads ≡ true) × (rf.peers / 2 < n + 1)))
      × (after.log ≡ rf.log)
unfolding vote_reply turn_leader
count_fields intn rf rf' n votes leads alive candidate h =
    elim (Bool-cases (ltb (rf.peers / 2) (n + 1))) [
      | inl most ↦
          let on : leads ≡ true = ground arith in
          let elected : rf' ≡ record rf { state = Role.leader } = ground arith in
          rw (on, elected) (refl, refl, refl, refl, inr (refl, refl, ground arith), refl)
      | inr few ↦
          let off : leads ≡ false = ground arith in
          let same : rf' ≡ rf = ground arith in
          rw (off, same) (refl, refl, refl, refl, inl (candidate, refl), refl)
    ]

pub counts-IsFair :
    {C : Type 0} (n i q : ℕ) (intn : Intn) (rf rf' : Raft C) (votes : ℕ) (leads : Bool)
    (voters : List ℕ) (bs : List Ballot)
    → q < n
    → killed rf ≡ false
    → rf.state ≡ Role.candidate
    → Cast q rf.current_term i bs
    → mem q voters ≡ false
    → IsFair n i rf voters bs
    → vote_reply intn (some (yes_vote rf.current_term)) (length voters) rf ≡ (rf', votes, leads)
    → IsFair n i (if leads then turn_leader rf' else rf') (q ∷ voters) bs
counts-IsFair n i q intn rf rf' votes leads voters bs inside alive candidate cast fresh f h =
    let k = count_fields intn rf rf' (length voters) votes leads alive candidate h in
    let active : rf.state ≢ Role.follower = λ e. ground (arith, candidate, e) in
    record {
      size = k.0 ∙ f.size;
      named = k.1 ∙ f.named;
      own = λ _. k.3 ∙ f.own active;
      given = λ t c given.
          let g = f.given t c given in
          (omega (arith, g.0, k.2), λ now. absurd (active (g.1 (now ∙ k.2)).0));
      distinct = (fresh, f.distinct);
      inside = (inside, f.inside);
      backed =
          λ _. subst (λ t. All (Backs i t bs) (q ∷ voters)) (sym k.2) (inr cast, f.backed active);
      won = λ leading. elim k.4 [
        | inl (still, _) ↦ absurd (ground (arith, still, leading))
        | inr (_, _, most) ↦ omega (arith, most, f.size)
      ];
    }
