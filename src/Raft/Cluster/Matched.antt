-- ===== src/Raft/Cluster/Matched.antt =====
-- What ties the logs of the peers to those of the terms' leaders.
use cs.Prelude.{
  update, update-elim, In, ℕ, ◌≡◌, ◌⊎◌, inl, inr, sym, ◌∙◌, ap, List, ◌∷◌, arith, subst,
}
use cs.Prelude.Int.{pos}
use cs.Raft.State.{Raft, Role}
use cs.Raft.Cluster.{Ballot, Leader, Sent, Cluster}
use cs.Raft.Cluster.Handled.{Calm}
use cs.Raft.Cluster.Led.{Leads, Leads-cons}
use cs.Raft.Cluster.Logs.{Good}
use cs.Raft.Cluster.Kept.{IsFrom}

-- The first term, or one that had a leader.
abbrev pub Known : List Leader → ℕ → Type 0
Known ls t = (t ≡ 0) ⊎ ((i : ℕ) × Leads t i ls)

pub Known-cons : (l : Leader) (ls : List Leader) (t : ℕ) → Known ls t → Known (l ∷ ls) t
Known-cons l ls t (inl first) = inl first
Known-cons l ls t (inr (i, leads)) = inr (i, Leads-cons t i l ls leads)

module _ {C : Type 0} where
  -- Each log, of a peer or behind a heartbeat, is a beginning of the last logs of the terms of its
  -- entries, and a leader has the last log of its term.
  pub record IsMatched (s : Cluster C) : Type 0 where
    pub logs : (j : ℕ) → Good (Known s.leaders) s.term_log (s.peer j).log
    pub mail : (m : Sent C) → In m s.sent → Good (Known s.leaders) s.term_log m.log
    pub carried :
        (m : Sent C)
        → In m s.sent
        → (prev : ℕ) → m.args.prev_log_index ≡ pos prev
        → IsFrom m.args m.log prev
    pub newest :
        (j : ℕ)
        → (s.peer j).state ≡ Role.leader
        → s.term_log (s.peer j).current_term ≡ (s.peer j).log

  module _ (i : ℕ) (s : Cluster C) (rf : Raft C) (matched : IsMatched s) (voters : ℕ → List ℕ)
      (ballots : List Ballot) where
    -- Peer `i` has a log that fits, and leads only if its log is the last one of its term.
    pub peer-IsMatched :
        Good (Known s.leaders) s.term_log rf.log
        → (rf.state ≡ Role.leader → s.term_log rf.current_term ≡ rf.log)
        → IsMatched (record s { peer = update s.peer i rf; voters = voters; ballots = ballots })
    peer-IsMatched good newest = record {
      logs =
          update-elim s.peer i rf (λ j r. Good (Known s.leaders) s.term_log r.log) good
            (λ j _. matched.logs j);
      mail = matched.mail;
      carried = matched.carried;
      newest =
          update-elim s.peer i rf (λ j r. r.state ≡ Role.leader → s.term_log r.current_term ≡ r.log)
            newest (λ j _. matched.newest j);
    }

    -- Its log is as before, and if it leads it did so before, in the same term.
    pub kept-IsMatched :
        rf.log ≡ (s.peer i).log
        → (rf.state ≡ Role.leader
            → ((s.peer i).state ≡ Role.leader) × (rf.current_term ≡ (s.peer i).current_term))
        → IsMatched (record s { peer = update s.peer i rf; voters = voters; ballots = ballots })
    kept-IsMatched same back =
        peer-IsMatched (subst (Good (Known s.leaders) s.term_log) (sym same) (matched.logs i))
          (λ leads.
            let (before, term) = back leads in
            ap s.term_log term ∙ matched.newest i before ∙ sym same)

  -- A step that is not of elections leads back to the same leadership.
  pub Calm-back :
      (rf rf' : Raft C)
      → Calm rf rf'
      → rf'.state ≡ Role.leader
      → (rf.state ≡ Role.leader) × (rf'.current_term ≡ rf.current_term)
  Calm-back rf rf' calm leads = elim calm.role [
    | inl follows ↦ absurd (ground (arith, follows, leads))
    | inr (state, term, _) ↦ (sym state ∙ leads, term)
  ]
