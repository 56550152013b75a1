-- ===== src/Raft/Cluster/Fair.antt =====
-- What each step of a cluster keeps of one peer's votes.
use cs.Prelude.{
  ℕ, ◌/◌, ◌≤◌, ◌<◌, ◌≡◌, ◌≢◌, ◌⊎◌, inl, inr, refl, ◌∙◌, true, some, List, [], ◌∷◌, length, All,
  Bool-cases, arith, sym, ap, subst, ltb,
}
use cs.Raft.State.{Raft, Role, RequestVoteArgs, RequestVoteReply, Intn}
use cs.Raft.Vote.{request_vote}
use cs.Raft.Vote.Grant.{request_vote-IsGranted}
use cs.Raft.Cluster.{Ballot, Cast}
use cs.Raft.Cluster.Quorum.{NoDup}
use cs.Raft.Cluster.Handled.{Calm}

-- A counted voter is the candidate itself, or cast its vote for it.
abbrev pub Backs : ℕ → ℕ → List Ballot → ℕ → Type 0
Backs i t bs q = (q ≡ i) ⊎ Cast q t i bs

-- The votes that peer `i` gave are those on record, and the voters that it counts in an election
-- are different peers that vote for it; a leader has more than half of them.
pub record IsFair {C : Type 0} (n i : ℕ) (rf : Raft C) (voters : List ℕ) (bs : List Ballot)
    : Type 0 where
  pub size : rf.peers ≡ n
  pub named : rf.me ≡ i
  pub own : rf.state ≢ Role.follower → rf.voted_for ≡ some i
  pub given :
      (t c : ℕ)
      → Cast i t c bs
      → (t ≤ rf.current_term)
        × (t ≡ rf.current_term → (rf.state ≡ Role.follower) × (rf.voted_for ≡ some c))
  pub distinct : NoDup voters
  pub inside : All (λ q. q < n) voters
  pub backed : rf.state ≢ Role.follower → All (Backs i rf.current_term bs) voters
  pub won : rf.state ≡ Role.leader → n / 2 < length voters

module _ {C : Type 0} (n i : ℕ) (rf rf' : Raft C) (voters : List ℕ) (bs : List Ballot)
    (f : IsFair n i rf voters bs) where
  pub Calm-IsFair : Calm rf rf' → IsFair n i rf' voters bs
  Calm-IsFair m = record {
    size = ground (arith, f.size, m.same_peers);
    named = ground (arith, f.named, m.same_me);
    own = λ active. ground (arith, f.own, m.role);
    given = λ t c cast.
        let g = f.given t c cast in
        (omega (arith, g.0, m.grows), λ now. ground (arith, g, m.grows, m.role, m.keeps c));
    distinct = f.distinct;
    inside = f.inside;
    backed = λ active. elim m.role [
      | inl following ↦ absurd (active following)
      | inr (state, term, vote) ↦
          subst (λ t. All (Backs i t bs) voters) (sym term)
            (f.backed (λ following. active (state ∙ following)))
    ];
    won = λ leads. ground (arith, f.won, m.role);
  }

pub All-Backs_cons :
    (i t : ℕ) (b : Ballot) (bs : List Ballot) (voters : List ℕ)
    → All (Backs i t bs) voters
    → All (Backs i t (b ∷ bs)) voters
All-Backs_cons i t b bs [] h = tt
All-Backs_cons i t b bs (q ∷ voters) h = (
  elim h.0 [ inl self ↦ inl self | inr cast ↦ inr (inr cast) ],
  All-Backs_cons i t b bs voters h.1,
)

-- A ballot of another peer.
pub other-IsFair :
    {C : Type 0} (n i : ℕ) (rf : Raft C) (voters : List ℕ) (b : Ballot) (bs : List Ballot)
    → IsFair n i rf voters bs
    → i ≢ b.voter
    → IsFair n i rf voters (b ∷ bs)
other-IsFair n i rf voters b bs f other = record {
  size = f.size;
  named = f.named;
  own = f.own;
  given =
      λ t c cast. elim cast [ inl (same, _, _) ↦ absurd (other same) | inr old ↦ f.given t c old ];
  distinct = f.distinct;
  inside = f.inside;
  backed = λ active. All-Backs_cons i rf.current_term b bs voters (f.backed active);
  won = f.won;
}

-- The role, and what stays, of a peer that grants a vote.
grant_fields :
    {C : Type 0} (intn : Intn) (args : RequestVoteArgs) (rf rf' : Raft C) (reply : RequestVoteReply)
    → request_vote intn args rf ≡ some (rf', reply)
    → reply.vote_granted ≡ true
    → (rf'.peers ≡ rf.peers)
      × (rf'.me ≡ rf.me)
      × ((rf'.state ≡ Role.follower) ⊎ ((rf'.state ≡ rf.state) × (rf.current_term ≡ args.term)))
unfolding request_vote
grant_fields intn args rf rf' reply h yes_ = (
  ground arith,
  ground arith,
  elim (Bool-cases (ltb rf.current_term args.term)) [
    | inl newer ↦ inl (ground arith)
    | inr same ↦ inr (ground arith)
  ],
)

pub follower-cases : (r : Role) → (r ≡ Role.follower) ⊎ (r ≢ Role.follower)
follower-cases Role.follower = inl refl
follower-cases Role.candidate = inr (λ e. cc)
follower-cases Role.leader = inr (λ e. cc)

-- Each voter votes for one candidate in a term.
abbrev pub OneEach : List Ballot → Type 0
OneEach bs = (q t c c' : ℕ) → Cast q t c bs → Cast q t c' bs → c ≡ c'

module _ {C : Type 0} (n i : ℕ) (intn : Intn) (args : RequestVoteArgs) (rf rf' : Raft C)
    (reply : RequestVoteReply) (voters : List ℕ) (bs : List Ballot) (f : IsFair n i rf voters bs)
    (other : args.candidate_id ≢ i) (h : request_vote intn args rf ≡ some (rf', reply))
    (granted : reply.vote_granted ≡ true) where
  abbrev pub ballot : Ballot
  ballot = record { voter = i; term = args.term; candidate = args.candidate_id }

  -- A vote that the peer has on record for the request's term is one for its candidate.
  same_choice : (c : ℕ) → Cast i args.term c bs → args.candidate_id ≡ c
  same_choice c cast =
      let g = request_vote-IsGranted intn args rf rf' reply h granted in
      let (le, now) = f.given args.term c cast in
      let vote = now (omega (arith, g.current)) in ground (arith, g.free, g.current)

  pub granted-follows : rf'.state ≡ Role.follower
  granted-follows =
      let g = request_vote-IsGranted intn args rf rf' reply h granted in
      let fields = grant_fields intn args rf rf' reply h granted in
      elim fields.2 [
        | inl follows ↦ follows
        | inr (state, term) ↦ elim (follower-cases rf.state) [
          | inl follows ↦ state ∙ follows
          | inr active ↦ let own = f.own active in absurd (ground (arith, g.free))
        ]
      ]

  pub grants-IsFair : IsFair n i rf' voters (ballot ∷ bs)
  grants-IsFair =
      let g = request_vote-IsGranted intn args rf rf' reply h granted in
      let fields = grant_fields intn args rf rf' reply h granted in
      record {
        size = fields.0 ∙ f.size;
        named = fields.1 ∙ f.named;
        own = λ active. absurd (active granted-follows);
        given = λ t c cast. elim cast [
          | inl (_, term, choice) ↦ (
            omega (arith, g.term_taken),
            λ now. (granted-follows, g.voted ∙ ap some (sym choice)),
          )
          | inr old ↦
              let (le, now) = f.given t c old in
              (
                omega (arith, g.current, g.term_taken),
                λ at.
                    let same : t ≡ args.term = at ∙ g.term_taken in
                    let choice = same_choice c (subst (λ u. Cast i u c bs) same old) in
                    (granted-follows, g.voted ∙ ap some choice),
              )
        ];
        distinct = f.distinct;
        inside = f.inside;
        backed = λ active. absurd (active granted-follows);
        won = λ leads. ground (arith, granted-follows);
      }

  pub grants-OneEach : OneEach bs → OneEach (ballot ∷ bs)
  grants-OneEach one q t c c' (inl (_, _, a)) (inl (_, _, b)) = a ∙ sym b
  grants-OneEach one q t c c' (inl (v, e, a)) (inr old) =
      a ∙ same_choice c' (subst (λ u. Cast u args.term c' bs) v (subst (λ u. Cast q u c' bs) e old))
  grants-OneEach one q t c c' (inr old) (inl (v, e, b)) =
      sym (
        b ∙ same_choice c (subst (λ u. Cast u args.term c bs) v (subst (λ u. Cast q u c bs) e old)))
  grants-OneEach one q t c c' (inr x) (inr y) = one q t c c' x y
