-- ===== src/Raft/Cluster/Renewed.antt =====
-- What a new leader and a new command do to the logs and their history.
use cs.Prelude.{
  update, update-elim, update_other, update_self, ℕ, suc, ◌<◌, ◌≡◌, ◌≢◌, inl, inr, refl, sym, ◌∙◌,
  ap, true, false, Option, some, List, [], ◌∷◌, ◌++◌, ◌==◌, ==_iff, length, take, Bool-cases,
  take-append, arith, subst,
}
use cs.Raft.State.{Raft, Role, LogEntry, Intn, killed, turn_leader}
use cs.Raft.Election.{vote_reply}
use cs.Raft.Leader.{start}
use cs.Raft.Cluster.{Cast, Leader, Cluster, wins, yes_vote}
use cs.Raft.Cluster.Quorum.{mem}
use cs.Raft.Cluster.Handled.{start-Calm}
use cs.Raft.Cluster.Counted.{count_fields}
use cs.Raft.Cluster.Firm.{After}
use cs.Raft.Cluster.Safety.{IsSafe, Step-IsSafe}
use cs.Raft.Cluster.Led.{Leads, IsLed, Leads-cons, one_leader}
use cs.Raft.Cluster.Elections.{Step-IsLed}
use cs.Raft.Cluster.Logs.{Good, Good-later, Good-append}
use cs.Raft.Cluster.Kept.{start-log}
use cs.Raft.Cluster.Matched.{Known, Known-cons, IsMatched, Calm-back}

module _ {C : Type 0} where
  module _ (n i q : ℕ) (intn : Intn) (s : Cluster C) (rf : Raft C) (votes : ℕ) (lt : i < n)
      (inside : q < n) (alive : killed (s.peer i) ≡ false)
      (candidate : (s.peer i).state ≡ Role.candidate)
      (cast : Cast q (s.peer i).current_term i s.ballots) (fresh : mem q (s.voters i) ≡ false)
      (safe : IsSafe n s) (led : IsLed n s) (matched : IsMatched s)
      (h : vote_reply intn
          (some (yes_vote (s.peer i).current_term))
          (length (s.voters i))
          (s.peer i)
        ≡ (rf, votes, true)) where
    -- A term that is being won had no leader.
    unknown : (t : ℕ) → Known s.leaders t → (s.peer i).current_term ≢ t
    unknown t (inl first) now =
        let term = led.active i (λ f. ground (arith, candidate, f)) in omega (arith, term)
    unknown t (inr (j, leads)) now =
        let step = wins i q intn {rf = rf} {votes = votes} lt inside alive candidate cast fresh h in
        let safe' = Step-IsSafe step safe in
        let led' = Step-IsLed step safe led in
        let same : i ≡ j =
          one_leader t i j safe' led'
            (
              record { term = (s.peer i).current_term; peer = i; voters = q ∷ s.voters i },
              inl refl,
              now,
              refl,
            )
            (Leads-cons t j _ s.leaders leads) in
        let (l, in_l, term_l, peer_l) = leads in
        let after =
          subst (λ k. After l.term (s.peer k)) (peer_l ∙ sym same) (led.elected l in_l).after in
        elim after [
          | inl past ↦ omega (arith, past, now, term_l)
          | inr (_, leading) ↦ ground (arith, leading, candidate)
        ]

    pub wins-IsMatched : IsMatched (record s {
      peer = update s.peer i (turn_leader rf);
      voters = update s.voters i (q ∷ s.voters i);
      leaders =
          record { term = (s.peer i).current_term; peer = i; voters = q ∷ s.voters i } ∷ s.leaders;
      term_log = update s.term_log (s.peer i).current_term (s.peer i).log;
    })
    wins-IsMatched =
        let k =
          count_fields intn (s.peer i) rf (length (s.voters i)) votes true alive candidate h in
        let new : Leader = record {
          term = (s.peer i).current_term;
          peer = i;
          voters = q ∷ s.voters i;
        } in
        let term_log = update s.term_log (s.peer i).current_term (s.peer i).log in
        let old : (t : ℕ) → Known s.leaders t → term_log t ≡ s.term_log t = λ t known.
          update_other s.term_log (s.peer i).current_term (s.peer i).log t (unknown t known) in
        let later : (xs : List (LogEntry C))
            → Good (Known s.leaders) s.term_log xs
            → Good (Known (new ∷ s.leaders)) term_log xs =
          λ xs.
            Good-later (Known s.leaders) (Known (new ∷ s.leaders)) s.term_log term_log xs
              (λ t. Known-cons new s.leaders t) (λ t k known _. ap (take (suc k)) (old t known)) in
        record {
          logs =
              update-elim s.peer i (turn_leader rf)
                (λ j r. Good (Known (new ∷ s.leaders)) term_log r.log)
                (subst (Good (Known (new ∷ s.leaders)) term_log) (sym k.5)
                  (later (s.peer i).log (matched.logs i)))
                (λ j _. later (s.peer j).log (matched.logs j));
          mail = λ m on. later m.log (matched.mail m on);
          carried = matched.carried;
          newest =
              update-elim s.peer i (turn_leader rf)
                (λ j r. r.state ≡ Role.leader → term_log r.current_term ≡ r.log)
                (λ _.
                  ap term_log k.2
                  ∙ update_self s.term_log (s.peer i).current_term (s.peer i).log
                  ∙ sym k.5)
                (λ j _ leads.
                  old (s.peer j).current_term (inr (j, led.leading j leads))
                  ∙ matched.newest j leads);
        }

  pub starts-IsMatched :
      (n i : ℕ) (command : Option C) (s : Cluster C)
      → (s.peer i).state ≡ Role.leader
      → IsSafe n s
      → IsLed n s
      → IsMatched s
      → IsMatched (record s {
        peer = update s.peer i (start command (s.peer i)).0;
        term_log = update s.term_log (s.peer i).current_term (start command (s.peer i)).0.log;
      })
  starts-IsMatched n i command s leads safe led matched =
      let T = (s.peer i).current_term in
      let rf = (start command (s.peer i)).0 in
      let entry : LogEntry C = record { term = T; command = command } in
      let longer : rf.log ≡ (s.peer i).log ++ entry ∷ [] = start-log command (s.peer i) leads in
      let term_log = update s.term_log T rf.log in
      let now : term_log T ≡ rf.log = update_self s.term_log T rf.log in
      let known : Known s.leaders T = inr (i, led.leading i leads) in
      let later : (xs : List (LogEntry C))
          → Good (Known s.leaders) s.term_log xs
          → Good (Known s.leaders) term_log xs =
        λ xs.
          Good-later (Known s.leaders) (Known s.leaders) s.term_log term_log xs (λ t k. k)
            (λ t k _ inside. elim (Bool-cases (T == t)) [
              | inl same ↦
                  let at : T ≡ t = (==_iff T t).0 same in
                  let before : s.term_log t ≡ (s.peer i).log =
                    ap s.term_log (sym at) ∙ matched.newest i leads in
                  ap (λ u. take (suc k) (term_log u)) (sym at)
                  ∙ ap (take (suc k)) (now ∙ longer)
                  ∙ take-append (suc k) (s.peer i).log (entry ∷ [])
                      (omega (arith, inside, ap length before))
                  ∙ ap (take (suc k)) (sym before)
              | inr other ↦
                  ap (take (suc k))
                    (update_other s.term_log T rf.log t (λ e. ground (arith, other, e)))
            ]) in
      let calm = start-Calm command (s.peer i) in
      record {
        logs =
            update-elim s.peer i rf (λ j r. Good (Known s.leaders) term_log r.log)
              (subst (Good (Known s.leaders) term_log) (sym longer) (
                Good-append (Known s.leaders) term_log (s.peer i).log entry known (now ∙ longer)
                  (later (s.peer i).log (matched.logs i))))
              (λ j _. later (s.peer j).log (matched.logs j));
        mail = λ m on. later m.log (matched.mail m on);
        carried = matched.carried;
        newest =
            update-elim s.peer i rf (λ j r. r.state ≡ Role.leader → term_log r.current_term ≡ r.log)
              (λ leading. ap term_log (Calm-back (s.peer i) rf calm leading).1 ∙ now)
              (λ j ne leading.
                update_other s.term_log T rf.log (s.peer j).current_term (λ same. ne (
                  one_leader T i j safe led (led.leading i leads)
                    (subst (λ t. Leads t j s.leaders) (sym same) (led.leading j leading))))
                ∙ matched.newest j leading);
      }
