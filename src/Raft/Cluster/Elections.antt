-- ===== src/Raft/Cluster/Elections.antt =====
-- The leaderships of a cluster through each of its steps.
use cs.Prelude.{
  update, update_self, ℕ, ◌<◌, ◌≡◌, ◌≢◌, ◌⊎◌, inl, inr, refl, sym, ◌∙◌, ap, true, false, some, ◌∷◌,
  length, All, arith, subst,
}
use cs.Raft.State.{Raft, Role, Intn, killed, make, turn_leader}
use cs.Raft.Vote.Grant.{request_vote-IsGranted}
use cs.Raft.Election.{vote_reply}
use cs.Raft.Cluster.{
  Cast, Leader, Cluster, Step, handles, grants, times_out, counts, wins, yes_vote, starts, sends,
  appends, Reach, begin, then_,
}
use cs.Raft.Cluster.Quorum.{mem}
use cs.Raft.Cluster.Handled.{Handles-Calm, start-Calm, append_entries-Calm}
use cs.Raft.Cluster.Fair.{Backs, All-Backs_cons, granted-follows}
use cs.Raft.Cluster.Counted.{timeout_fields, count_fields, counts-IsFair}
use cs.Raft.Cluster.Firm.{
  After, Handles-Firm, start-Firm, grants-later, timeout-Firm, append_entries-Firm,
}
use cs.Raft.Cluster.Safety.{IsSafe, Reach-IsSafe}
use cs.Raft.Cluster.Led.{
  IsElected, Leads, IsLed, one_leader, update-peer, update-After, after-IsElected, changed-IsLed,
  Calm-IsLed, sends_fields, Leads-cons,
}

-- Counting a vote, with a majority or without.
module _ {C : Type 0} (n i q : ℕ) (intn : Intn) (s : Cluster C) (rf : Raft C) (votes : ℕ)
    (inside : q < n) (alive : killed (s.peer i) ≡ false)
    (candidate : (s.peer i).state ≡ Role.candidate)
    (cast : Cast q (s.peer i).current_term i s.ballots) (fresh : mem q (s.voters i) ≡ false)
    (safe : IsSafe n s) (led : IsLed n s) where
  -- A candidate is past every term that it has led.
  candidate-After : (t : ℕ) → After t (s.peer i) → t < (s.peer i).current_term
  candidate-After t (inl past) = past
  candidate-After t (inr (now, leads)) = absurd (ground (arith, candidate, leads))

  counts-IsLed :
      vote_reply intn (some (yes_vote (s.peer i).current_term)) (length (s.voters i)) (s.peer i)
        ≡ (rf, votes, false)
      → IsLed n
          (record s { peer = update s.peer i rf; voters = update s.voters i (q ∷ s.voters i) })
  counts-IsLed h =
      let k = count_fields intn (s.peer i) rf (length (s.voters i)) votes false alive candidate h in
      let waits : rf.state ≡ Role.candidate = elim k.4 [
        | inl (waits, _) ↦ waits
        | inr (_, leads, _) ↦ absurd (ground (arith, leads))
      ] in
      let term = led.active i (λ f. ground (arith, candidate, f)) in
      changed-IsLed n i s rf led _ s.term_log
        (λ t after. let past = candidate-After t after in inl (omega (arith, past, k.2)))
        (λ leads. absurd (ground (arith, waits, leads))) (λ active. omega (arith, term, k.2))

  wins-IsLed :
      vote_reply intn (some (yes_vote (s.peer i).current_term)) (length (s.voters i)) (s.peer i)
        ≡ (rf, votes, true)
      → IsLed n (record s {
        peer = update s.peer i (turn_leader rf);
        voters = update s.voters i (q ∷ s.voters i);
        leaders =
            record { term = (s.peer i).current_term; peer = i; voters = q ∷ s.voters i }
            ∷ s.leaders;
        term_log = update s.term_log (s.peer i).current_term (s.peer i).log;
      })
  wins-IsLed h =
      let k = count_fields intn (s.peer i) rf (length (s.voters i)) votes true alive candidate h in
      let leads : (turn_leader rf).state ≡ Role.leader = elim k.4 [
        | inl (_, waits) ↦ absurd (ground (arith, waits))
        | inr (leads, _, _) ↦ leads
      ] in
      let f =
        counts-IsFair n i q intn (s.peer i) rf votes true (s.voters i) s.ballots inside alive
          candidate cast fresh (safe.fair i) h in
      let firm : (t : ℕ) → After t (s.peer i) → After t (turn_leader rf) =
        λ t after. let past = candidate-After t after in inl (omega (arith, past, k.2)) in
      let active : (turn_leader rf).state ≢ Role.follower = λ e. ground (arith, leads, e) in
      let self = update-peer n i s (turn_leader rf) in
      let new : Leader = record {
        term = (s.peer i).current_term;
        peer = i;
        voters = q ∷ s.voters i;
      } in
      let elected_now : IsElected n s.ballots (turn_leader rf) new = record {
        distinct = f.distinct;
        inside = f.inside;
        many = f.won leads;
        backed = subst (λ t. All (Backs i t s.ballots) (q ∷ s.voters i)) k.2 (f.backed active);
        loyal = λ c given.
            let follows = (((safe.fair i).given (s.peer i).current_term c given).1 refl).0 in
            ground (arith, candidate, follows);
        after = inr (sym k.2, leads);
      } in
      record {
        elected = λ l in_l. elim in_l [
          | inl e ↦
              subst (λ k. IsElected n s.ballots (update s.peer i (turn_leader rf) k.peer) k) (sym e)
                (subst (λ r. IsElected n s.ballots r new)
                  (sym (update_self s.peer i (turn_leader rf))) elected_now)
          | inr old ↦
              let e = led.elected l old in
              after-IsElected e (update-After n i s (turn_leader rf) firm l.peer l.term e.after)
        ];
        leading =
            self (λ j r. r.state ≡ Role.leader → Leads r.current_term j (new ∷ s.leaders))
              (λ _. (new, inl refl, sym k.2, refl))
              (λ j before. Leads-cons _ j new s.leaders (led.leading j before));
        active =
            self (λ j r. r.state ≢ Role.follower → 0 < r.current_term)
              (λ _.
                let term = led.active i (λ e. ground (arith, candidate, e)) in
                omega (arith, term, k.2))
              led.active;
        mail = λ m in_m.
            let (j, was, other) = led.mail m in_m in (j, Leads-cons _ j new s.leaders was, other);
      }

pub Step-IsLed :
    {C : Type 0} {n : ℕ} {s s' : Cluster C} → Step n s s' → IsSafe n s → IsLed n s → IsLed n s'
Step-IsLed {n = n} {s = s} (handles i {rf} lt h) safe led =
    Calm-IsLed n i s rf led s.term_log (Handles-Firm h).stays (Handles-Calm h)
Step-IsLed {n = n} {s = s} (grants i intn args {rf} {reply} lt other h granted) safe led =
    let f = safe.fair i in
    let g = request_vote-IsGranted intn args (s.peer i) rf reply h granted in
    let later =
      grants-later n i intn args (s.peer i) rf reply (s.voters i) s.ballots f other h granted in
    let follows =
      granted-follows n i intn args (s.peer i) rf reply (s.voters i) s.ballots f other h granted in
    let base =
      changed-IsLed n i s rf led s.voters s.term_log
        (λ t after. inl (omega (arith, later t after, g.term_taken)))
        (λ leads. absurd (ground (arith, follows, leads))) (λ active. absurd (active follows)) in
    record {
      elected = λ l in_l.
          let e = base.elected l in_l in
          let old = led.elected l in_l in
          record {
            distinct = e.distinct;
            inside = e.inside;
            many = e.many;
            backed = All-Backs_cons l.peer l.term _ s.ballots l.voters e.backed;
            loyal = λ c cast. elim cast [
              | inl (voter, term, _) ↦
                  let before =
                    later l.term (subst (λ p. After l.term (s.peer p)) voter old.after) in
                  omega (arith, before, term)
              | inr cast' ↦ e.loyal c cast'
            ];
            after = e.after;
          };
      leading = base.leading;
      active = base.active;
      mail = base.mail;
    }
Step-IsLed {n = n} {s = s} (times_out i intn {rf} lt h) safe led =
    let fields = timeout_fields intn (s.peer i) rf h in
    changed-IsLed n i s rf led _ s.term_log (timeout-Firm intn (s.peer i) rf h).stays
      (λ leads. absurd (ground (arith, fields.3, leads))) (λ active. omega (arith, fields.2))
Step-IsLed {n = n} {s = s} (counts i q intn {rf} {votes} lt lt' alive candidate cast fresh h) safe
      led =
    counts-IsLed n i q intn s rf votes lt' alive candidate cast fresh safe led h
Step-IsLed {n = n} {s = s} (wins i q intn {rf} {votes} lt lt' alive candidate cast fresh h) safe
      led =
    wins-IsLed n i q intn s rf votes lt' alive candidate cast fresh safe led h
Step-IsLed {n = n} {s = s} (starts i command lt leads) safe led =
    Calm-IsLed n i s _ led _ (start-Firm command (s.peer i)).stays (start-Calm command (s.peer i))
Step-IsLed {n = n} {s = s} (sends i p {args} lt other h) safe led =
    let (leads, term) = sends_fields p (s.peer i) args h in
    record {
      elected = led.elected;
      leading = led.leading;
      active = led.active;
      mail = λ m in_m. elim in_m [
        | inl e ↦
            let (l, in_l, term_l, peer_l) = led.leading i leads in
            (
              i,
              (l, in_l, term_l ∙ sym term ∙ sym (ap (λ x. x.args.term) e), peer_l),
              λ same. other (sym (same ∙ ap (λ x. x.receiver) e)),
            )
        | inr old ↦ led.mail m old
      ];
    }
Step-IsLed {n = n} {s = s} (appends i intn m {rf} {reply} lt on to h) safe led =
    let calm = append_entries-Calm intn m.args (s.peer i) rf reply h in
    Calm-IsLed n i s rf led s.term_log
      (λ t after. elim after [
        | inl past ↦ inl (omega (arith, calm.grows))
        | inr (now, leads) ↦
            let (j, sender, other) = led.mail m on in
            let ne : m.args.term ≢ (s.peer i).current_term = λ same. other (
              one_leader m.args.term j i safe led sender
                (subst (λ u. Leads u i s.leaders) (sym same) (led.leading i leads))
              ∙ sym to) in
            (append_entries-Firm intn m.args (s.peer i) rf reply h ne).stays t (inr (now, leads))
      ])
      calm

pub Reach-IsLed : {C : Type 0} {intn : Intn} {n : ℕ} {s : Cluster C} → Reach intn n s → IsLed n s
unfolding make
Reach-IsLed begin = record {
  elected = λ l in_l. absurd in_l;
  leading = λ j leads. absurd (ground (arith, leads));
  active = λ j active. absurd (active refl);
  mail = λ m in_m. absurd in_m;
}
Reach-IsLed (then_ r st) = Step-IsLed st (Reach-IsSafe r) (Reach-IsLed r)

-- The peer leads the term now, or was elected in it at some time.
abbrev pub HasLed : {C : Type 0} → Cluster C → ℕ → ℕ → Type 0
HasLed s t i =
    (((s.peer i).state ≡ Role.leader) × ((s.peer i).current_term ≡ t)) ⊎ Leads t i s.leaders

HasLed-Leads :
    {C : Type 0} {n : ℕ} {s : Cluster C} (t i : ℕ) → IsLed n s → HasLed s t i → Leads t i s.leaders
HasLed-Leads {s = s} t i led (inl (leads, term)) =
    subst (λ u. Leads u i s.leaders) term (led.leading i leads)
HasLed-Leads t i led (inr leads) = leads

-- In every state that the peers reach, by any interleaving of their handlers and any loss, delay
-- and repetition of requests, two peers that lead or have led the same term are the same peer;
-- provided each granted vote is counted at most once and while its candidate is in the term of the
-- vote, and `TurnLeader` follows the last vote at once.
pub election_safety :
    {C : Type 0} {intn : Intn} {n : ℕ} {s : Cluster C} (t i j : ℕ)
    → Reach intn n s
    → HasLed s t i
    → HasLed s t j
    → i ≡ j
election_safety t i j r led_i led_j =
    let led = Reach-IsLed r in
    one_leader t i j (Reach-IsSafe r) led (HasLed-Leads t i led led_i) (HasLed-Leads t j led led_j)
