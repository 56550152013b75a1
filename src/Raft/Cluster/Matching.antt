-- ===== src/Raft/Cluster/Matching.antt =====
-- The logs of a cluster through each of its steps.
use cs.Prelude.{
  update, In, ℕ, zero, suc, ◌≡◌, inl, inr, refl, sym, ◌∙◌, ap, false, none, some, [], ◌∷◌, length,
  get_elem?, take, some_inj, arith, subst,
}
use cs.Raft.State.{Raft, LogEntry, AppendEntriesArgs, AppendEntriesReply, Intn, make}
use cs.Raft.Append.{append_entries, install}
use cs.Raft.Vote.Grant.{request_vote-IsGranted}
use cs.Raft.Append.Answer.{append_entries-IsAccepted}
use cs.Raft.Leader.{heart_beat_args}
use cs.Raft.Cluster.{
  Sent, Cluster, Step, handles, grants, times_out, counts, wins, starts, sends, appends, initial,
  Reach, begin, then_,
}
use cs.Raft.Cluster.Handled.{Handles-Calm, append_entries-Calm}
use cs.Raft.Cluster.Fair.{granted-follows}
use cs.Raft.Cluster.Counted.{timeout_fields, count_fields}
use cs.Raft.Cluster.Safety.{IsSafe, Reach-IsSafe}
use cs.Raft.Cluster.Led.{IsLed}
use cs.Raft.Cluster.Elections.{Reach-IsLed}
use cs.Raft.Cluster.Logs.{Good, Good-Agree, install-one}
use cs.Raft.Cluster.Kept.{
  Handles-log, timeout-log, append_entries-log, IsFrom, heart_beat_args-IsFrom,
}
use cs.Raft.Cluster.Matched.{Known, IsMatched, peer-IsMatched, kept-IsMatched, Calm-back}
use cs.Raft.Cluster.Renewed.{wins-IsMatched, starts-IsMatched}

module _ {C : Type 0} where
  appends-IsMatched :
      (i : ℕ) (intn : Intn) (m : Sent C) (s : Cluster C) (rf : Raft C) (reply : AppendEntriesReply)
      → In m s.sent
      → append_entries intn m.args (s.peer i) ≡ some (rf, reply)
      → IsMatched s
      → IsMatched (record s { peer = update s.peer i rf })
  appends-IsMatched i intn m s rf reply on h matched =
      elim (append_entries-log intn m.args (s.peer i) rf reply h) [
        | inl same ↦
            kept-IsMatched i s rf matched s.voters s.ballots same
              (Calm-back (s.peer i) rf (append_entries-Calm intn m.args (s.peer i) rf reply h))
        | inr ok ↦
            let a = append_entries-IsAccepted intn m.args (s.peer i) rf reply h ok in
            let c = matched.carried m on a.prev a.prev_index in
            let good = Good (Known s.leaders) s.term_log in
            let agree =
              Good-Agree (Known s.leaders) s.term_log (s.peer i).log m.log (matched.logs i)
                (matched.mail m on) in
            let made = a.installed ∙ ap (install (s.peer i).log a.prev) c.behind in
            peer-IsMatched i s rf matched s.voters s.ballots
              (elim (install-one (s.peer i).log m.log a.prev a.entry c.entry agree a.found c.found
                (a.matching ∙ sym c.same_term)) [
                  | inl old ↦ subst good (sym (made ∙ old)) (matched.logs i)
                  | inr new ↦ subst good (sym (made ∙ new)) (matched.mail m on)
                ])
              (λ leads. absurd (ground (arith, a.following, leads)))
      ]

  sends-IsMatched :
      (i p : ℕ) (s : Cluster C) (args : AppendEntriesArgs C)
      → heart_beat_args p (s.peer i) ≡ some (some args)
      → IsMatched s
      → IsMatched
          (record s { sent = record { receiver = p; args = args; log = (s.peer i).log } ∷ s.sent })
  sends-IsMatched i p s args h matched = record {
    logs = matched.logs;
    mail = λ m on. elim on [
      | inl e ↦ subst (λ k. Good (Known s.leaders) s.term_log k.log) (sym e) (matched.logs i)
      | inr old ↦ matched.mail m old
    ];
    carried = λ m on prev at. elim on [
      | inl e ↦
          subst (λ k. IsFrom k.args k.log prev) (sym e)
            (heart_beat_args-IsFrom p (s.peer i) args prev h
              (ap (λ k. k.args.prev_log_index) (sym e) ∙ at))
      | inr old ↦ matched.carried m old prev at
    ];
    newest = matched.newest;
  }

  Step-IsMatched :
      {n : ℕ} {s s' : Cluster C} → Step n s s' → IsSafe n s → IsLed n s → IsMatched s → IsMatched s'
  Step-IsMatched {s = s} (handles i {rf} lt h) safe led matched =
      kept-IsMatched i s rf matched s.voters s.ballots (Handles-log h)
        (Calm-back (s.peer i) rf (Handles-Calm h))
  Step-IsMatched {n} {s} (grants i intn args {rf} {reply} lt other h granted) safe led matched =
      let g = request_vote-IsGranted intn args (s.peer i) rf reply h granted in
      let follows =
        granted-follows n i intn args (s.peer i) rf reply (s.voters i) s.ballots (safe.fair i) other
          h granted in
      kept-IsMatched i s rf matched s.voters _ g.log_kept
        (λ leads. absurd (ground (arith, follows, leads)))
  Step-IsMatched {s = s} (times_out i intn {rf} lt h) safe led matched =
      let fields = timeout_fields intn (s.peer i) rf h in
      kept-IsMatched i s rf matched _ s.ballots (timeout-log intn (s.peer i) rf h)
        (λ leads. absurd (ground (arith, fields.3, leads)))
  Step-IsMatched {s = s} (counts i q intn {rf} {votes} lt lt' alive candidate cast fresh h) safe led
        matched =
      let k = count_fields intn (s.peer i) rf (length (s.voters i)) votes false alive candidate h in
      kept-IsMatched i s rf matched _ s.ballots k.5 (λ leads. elim k.4 [
        | inl (waits, _) ↦ absurd (ground (arith, waits, leads))
        | inr (_, won, _) ↦ absurd (ground (arith, won))
      ])
  Step-IsMatched {n} {s} (wins i q intn {rf} {votes} lt lt' alive candidate cast fresh h) safe led
        matched =
      wins-IsMatched n i q intn s rf votes lt lt' alive candidate cast fresh safe led matched h
  Step-IsMatched {n} {s} (starts i command lt leads) safe led matched =
      starts-IsMatched n i command s leads safe led matched
  Step-IsMatched {s = s} (sends i p {args} lt other h) safe led matched =
      sends-IsMatched i p s args h matched
  Step-IsMatched {s = s} (appends i intn m {rf} {reply} lt on to h) safe led matched =
      appends-IsMatched i intn m s rf reply on h matched

  initial_log-Good : (x : LogEntry C) → x.term ≡ 0 → Good (Known []) (λ t. x ∷ []) (x ∷ [])
  initial_log-Good x first zero y found =
      (inl (ap (λ z. z.term) (sym (some_inj found)) ∙ first), refl)
  initial_log-Good x first (suc k) y found = absurd (ground (arith, found))

  initial-IsMatched : (intn : Intn) (n : ℕ) → IsMatched {C = C} (initial intn n)
  unfolding make
  initial-IsMatched intn n = record {
    logs = λ j. initial_log-Good (record { term = 0; command = none }) refl;
    mail = λ m on. absurd on;
    carried = λ m on. absurd on;
    newest = λ j leads. absurd (ground (arith, leads));
  }

  Reach-IsMatched : {intn : Intn} {n : ℕ} {s : Cluster C} → Reach intn n s → IsMatched s
  Reach-IsMatched {intn} {n} begin = initial-IsMatched intn n
  Reach-IsMatched (then_ r st) =
      Step-IsMatched st (Reach-IsSafe r) (Reach-IsLed r) (Reach-IsMatched r)

-- In every state that the peers reach, by any interleaving of their handlers and any loss, delay
-- and repetition of requests, two logs that hold entries of one term at the same position are the
-- same up to there, commands included; provided each granted vote is counted at most once and
-- while its candidate is in the term of the vote, `TurnLeader` follows the last vote at once, and a
-- heartbeat carries the log that its sender had when it took the arguments.
pub log_matching :
    {C : Type 0} {intn : Intn} {n : ℕ} {s : Cluster C} (i j k : ℕ) (x y : LogEntry C)
    → Reach intn n s
    → get_elem? (s.peer i).log k ≡ some x
    → get_elem? (s.peer j).log k ≡ some y
    → x.term ≡ y.term
    → take (suc k) (s.peer i).log ≡ take (suc k) (s.peer j).log
log_matching {s = s} i j k x y r =
    let matched = Reach-IsMatched r in
    Good-Agree (Known s.leaders) s.term_log (s.peer i).log (s.peer j).log (matched.logs i)
      (matched.logs j) k x y
