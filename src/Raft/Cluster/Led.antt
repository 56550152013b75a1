-- ===== src/Raft/Cluster/Led.antt =====
-- The leaderships of a cluster, and what a step that elects nobody does to them.
use cs.Prelude.{
  update, update-elim, In, ℕ, ◌/◌, ◌<◌, ◌≡◌, ◌≢◌, inl, inr, sym, ◌∙◌, some, List, ◌∷◌, length, All,
  arith, subst,
}
use cs.Raft.State.{Raft, Role, LogEntry, AppendEntriesArgs}
use cs.Raft.Leader.{heart_beat_args, entries_from}
use cs.Raft.Cluster.{Ballot, Cast, Leader, Sent, Cluster}
use cs.Raft.Cluster.Quorum.{NoDup, quorum, All-mem}
use cs.Raft.Cluster.Handled.{Calm}
use cs.Raft.Cluster.Fair.{Backs}
use cs.Raft.Cluster.Firm.{After}
use cs.Raft.Cluster.Safety.{IsSafe}

-- A leader was elected by more than half of the peers and voted for no other; it is past its term,
-- or leads it.
pub record IsElected {C : Type 0} (n : ℕ) (bs : List Ballot) (rf : Raft C) (l : Leader)
    : Type 0 where
  pub distinct : NoDup l.voters
  pub inside : All (λ q. q < n) l.voters
  pub many : n / 2 < length l.voters
  pub backed : All (Backs l.peer l.term bs) l.voters
  pub loyal : (c : ℕ) → ¬ Cast l.peer l.term c bs
  pub after : After l.term rf

-- The record of a peer's leadership.
abbrev pub Leads : ℕ → ℕ → List Leader → Type 0
Leads t i ls = (l : Leader) × In l ls × (l.term ≡ t) × (l.peer ≡ i)

pub record IsLed {C : Type 0} (n : ℕ) (s : Cluster C) : Type 0 where
  pub elected : (l : Leader) → In l s.leaders → IsElected n s.ballots (s.peer l.peer) l
  pub leading : (j : ℕ) → (s.peer j).state ≡ Role.leader → Leads (s.peer j).current_term j s.leaders
  pub active : (j : ℕ) → (s.peer j).state ≢ Role.follower → 0 < (s.peer j).current_term
  pub mail : (m : Sent C) → In m s.sent → (i : ℕ) × Leads m.args.term i s.leaders × (i ≢ m.receiver)

-- Two leaderships of one term are one peer's.
pub one_leader :
    {C : Type 0} {n : ℕ} {s : Cluster C} (t i j : ℕ)
    → IsSafe n s
    → IsLed n s
    → Leads t i s.leaders
    → Leads t j s.leaders
    → i ≡ j
one_leader {s = s} t i j safe led (l, in_l, term_l, peer_l) (k, in_k, term_k, peer_k) =
    let e = led.elected l in_l in
    let f = led.elected k in_k in
    let (q, for_l, for_k) =
      quorum _ l.voters k.voters e.distinct f.distinct e.inside f.inside e.many f.many in
    let back_l = All-mem (Backs l.peer l.term s.ballots) q l.voters e.backed for_l in
    let back_k = All-mem (Backs k.peer k.term s.ballots) q k.voters f.backed for_k in
    let same : l.term ≡ k.term = term_l ∙ sym term_k in
    sym peer_l
    ∙ (elim back_l [
      | inl self ↦ elim back_k [
        | inl self' ↦ sym self ∙ self'
        | inr cast ↦ absurd (
            e.loyal k.peer (
              subst (λ p. Cast p l.term k.peer s.ballots) self
                (subst (λ u. Cast q u k.peer s.ballots) (sym same) cast)))
      ]
      | inr cast ↦ elim back_k [
        | inl self ↦ absurd (
            f.loyal l.peer (
              subst (λ p. Cast p k.term l.peer s.ballots) self
                (subst (λ u. Cast q u l.peer s.ballots) same cast)))
        | inr cast' ↦
            safe.one q l.term l.peer k.peer cast
              (subst (λ u. Cast q u k.peer s.ballots) (sym same) cast')
      ]
    ])
    ∙ peer_k

-- One peer has changed.
module _ {C : Type 0} (n i : ℕ) (s : Cluster C) (rf : Raft C) where
  pub update-peer :
      (P : ℕ → Raft C → Type 0)
      → P i rf
      → ((j : ℕ) → P j (s.peer j))
      → (j : ℕ) → P j (update s.peer i rf j)
  update-peer P here rest = update-elim s.peer i rf P here (λ j _. rest j)

  pub update-After :
      ((t : ℕ) → After t (s.peer i) → After t rf)
      → (j t : ℕ) → After t (s.peer j)
      → After t (update s.peer i rf j)
  update-After firm =
      update-peer (λ j r. (t : ℕ) → After t (s.peer j) → After t r) firm (λ j t after. after)

pub after-IsElected :
    {C : Type 0} {n : ℕ} {bs : List Ballot} {rf rf' : Raft C} {l : Leader}
    → IsElected n bs rf l
    → After l.term rf'
    → IsElected n bs rf' l
after-IsElected e after = record {
  distinct = e.distinct;
  inside = e.inside;
  many = e.many;
  backed = e.backed;
  loyal = e.loyal;
  after = after;
}

module _ {C : Type 0} (n i : ℕ) (s : Cluster C) (rf : Raft C) (led : IsLed n s) where
  -- A step that elects nobody and gives no vote.
  pub changed-IsLed :
      (voters : ℕ → List ℕ) (term_log : ℕ → List (LogEntry C))
      → ((t : ℕ) → After t (s.peer i) → After t rf)
      → (rf.state ≡ Role.leader
          → ((s.peer i).state ≡ Role.leader) × (rf.current_term ≡ (s.peer i).current_term))
      → (rf.state ≢ Role.follower → 0 < rf.current_term)
      → IsLed n (record s { peer = update s.peer i rf; voters = voters; term_log = term_log })
  changed-IsLed voters term_log firm back active = record {
    elected = λ l in_l.
        let e = led.elected l in_l in
        after-IsElected e (update-After n i s rf firm l.peer l.term e.after);
    leading =
        update-peer n i s rf (λ j r. r.state ≡ Role.leader → Leads r.current_term j s.leaders)
          (λ leads.
            let (before, term) = back leads in
            subst (λ t. Leads t i s.leaders) (sym term) (led.leading i before))
          led.leading;
    active =
        update-peer n i s rf (λ j r. r.state ≢ Role.follower → 0 < r.current_term) active
          led.active;
    mail = led.mail;
  }

  pub Calm-IsLed :
      (term_log : ℕ → List (LogEntry C))
      → ((t : ℕ) → After t (s.peer i) → After t rf)
      → Calm (s.peer i) rf
      → IsLed n (record s { peer = update s.peer i rf; term_log = term_log })
  Calm-IsLed term_log firm calm =
      changed-IsLed s.voters term_log firm
        (λ leads. elim calm.role [
          | inl follows ↦ absurd (ground (arith, follows, leads))
          | inr (state, term, _) ↦ (sym state ∙ leads, term)
        ])
        (λ active. elim calm.role [
          | inl follows ↦ absurd (active follows)
          | inr (state, term, _) ↦
              let before = led.active i (λ f. active (state ∙ f)) in omega (arith, before, term)
        ])

pub sends_fields :
    {C : Type 0} (p : ℕ) (rf : Raft C) (args : AppendEntriesArgs C)
    → heart_beat_args p rf ≡ some (some args)
    → (rf.state ≡ Role.leader) × (args.term ≡ rf.current_term)
unfolding heart_beat_args entries_from
sends_fields p rf args h = ground arith

pub Leads-cons : (t i : ℕ) (k : Leader) (ls : List Leader) → Leads t i ls → Leads t i (k ∷ ls)
Leads-cons t i k ls (l, in_l, term, peer) = (l, inr in_l, term, peer)
