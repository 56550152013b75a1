-- ===== src/Bank/Protocol/Agreement/Runs.antt =====
-- Every run of a commit.
use cs.Prelude.{
  ℕ, ◌+◌, ◌<◌, ◌≤◌, ◌≡◌, ◌≢◌, ◌⊎◌, inl, inr, refl, sym, ◌∙◌, ap, subst, Bool, true, false, List, [],
  ◌∷◌, ◌++◌, ◌==◌, update, ltb, arith, if◌then◌else◌,
}
use cs.Prelude.Int.{ℤ, IsInt64}
use cs.Prelude.Text.{Text, format_int}
use cs.Bank.Outcome.{returns}
use cs.Bank.State.{Server, Event, sent}
use cs.Bank.Commit.{check_commit}
use cs.Bank.Branch.{ready_count, other_branches, handle_branch}
use cs.Bank.Protocol.{
  branches, Packet, packets, System, line, Step, begins, prepares, counts, commits, gives_up,
  aborts, works, prepare_text, ready_text, refused_text, ok_text, abort_text,
}
use cs.Bank.Protocol.Sends.{Spread, nothing-Spread, packets-near}
use cs.Bank.Protocol.Kept.{Same}
use cs.Bank.Protocol.Requests.{begins_fields}
use cs.Bank.Protocol.Replies.{
  prepares_fields, counts_fields, commits_fields, gives_up_fields, aborts_fields,
}
use cs.Bank.Protocol.Counting.{one_if, count_changed}
use cs.Bank.Protocol.Kinds.{says, Kind, text_of, same_kind, text_eq-text_of, Spread-says}
use cs.Bank.Protocol.Agreement.{IsAtomic}
use cs.Bank.Protocol.Agreement.Steps.{quiet-IsAtomic}
use cs.Bank.Protocol.Agreement.Votes.{route, ready-IsAtomic, refused-IsAtomic}
use cs.Bank.Protocol.Agreement.Answers.{counts-IsAtomic}
use cs.Bank.Protocol.Agreement.Begins.{IsStart, start-IsAtomic, begins-IsAtomic, works-IsAtomic}

-- The states that a commit can reach at coordinator `c`.
pub data Reach (ts : ℤ) (c : ℕ) : System → Type 0 where
  start : {s : System} → IsStart s → Reach ts c s
  then_ : {s s' : System} → Reach ts c s → Step ts c s s' → Reach ts c s'

packets-vote :
    (c i j : ℕ) (text : Text) (events : List Event)
    → events ≡ sent i text ∷ []
    → i ≡ c
    → c < branches
    → packets j events ≡ record { sender = j; receiver = c; text = text } ∷ []
unfolding packets
packets-vote c i j text events e at lt =
    let near : ltb c branches ≡ true = ground (arith, lt) in
    ap (packets j) (e ∙ ap (λ k. sent k text ∷ []) at) ∙ packets-near j c text [] near

packets_nil : (i : ℕ) → packets i [] ≡ []
unfolding packets
packets_nil i = refl

module _ (ts : ℤ) (c : ℕ) (s : System) (atomic : IsAtomic ts c s) (lt : c < branches) (fuel i j : ℕ)
    (a b : List Packet) (sv : Server) (events : List Event) (int : IsInt64 ts) where
  prepares-IsAtomic :
      (ok : Bool) (sv' : Server)
      → s.net ≡ a ++ record { sender = i; receiver = j; text = prepare_text ts } ∷ b
      → handle_branch fuel (line (prepare_text ts)) i (s.server j) ≡ returns (sv, events)
      → check_commit ts (s.server j) ≡ returns (ok, sv')
      → IsAtomic ts c (record s {
        server = update s.server j sv;
        net = packets j events ++ a ++ b;
        ready = if ok then j ∷ s.ready else s.ready;
        refusing = if ok then s.refusing else j ∷ s.refusing;
        aborted = if ok then s.aborted else j ∷ s.aborted;
      })
  prepares-IsAtomic true sv' e handled checked =
      let (same, told) =
        prepares_fields ts fuel j (s.server j) sv events int i true sv' checked handled in
      let at = (route ts c s atomic i j a b e lt sv same).0 in
      rw (packets-vote c i j (ready_text ts) events told at lt)
        (ready-IsAtomic ts c s atomic i j a b e lt sv same)
  prepares-IsAtomic false sv' e handled checked =
      let (same, told) =
        prepares_fields ts fuel j (s.server j) sv events int i false sv' checked handled in
      let at = (route ts c s atomic i j a b e lt sv same).0 in
      rw (packets-vote c i j (refused_text ts) events told at lt)
        (refused-IsAtomic ts c s atomic i j a b e lt sv same)

  count_answer-IsAtomic :
      s.net ≡ a ++ record { sender = i; receiver = j; text = ready_text ts } ∷ b
      → handle_branch fuel (line (ready_text ts)) i (s.server j) ≡ returns (sv, events)
      → IsAtomic ts c (record s {
        server = update s.server j sv;
        net = packets j events ++ a ++ b;
        counted = i ∷ s.counted;
        committed =
            if ready_count (format_int ts) (s.server j) == other_branches
            then j ∷ s.committed
            else s.committed;
      })
  count_answer-IsAtomic e handled =
      let (wired, counter, sends) =
        counts_fields ts fuel j (s.server j) sv events int i (atomic.wired j) handled in
      let new = packets j events in
      let (spread, few) : Spread (ok_text ts) j new
          × (ready_count (format_int ts) (s.server j) ≢ 4 → new ≡ []) =
        elim sends [
          | inl (four, spread) ↦ (spread, λ other. absurd (other four))
          | inr (_, none_) ↦ (
            subst (Spread (ok_text ts) j) (sym none_) (nothing-Spread (ok_text ts) j),
            λ _. none_,
          )
        ] in
      counts-IsAtomic ts c s atomic i j a b new e sv wired counter spread few

-- A packet that is neither a question nor an answer, and what its receiver sends.
module _ (ts : ℤ) (c : ℕ) (s : System) (atomic : IsAtomic ts c s) (i j : ℕ) (a b : List Packet)
    (sv : Server) (same : Same (s.server j) sv) where
  commits-IsAtomic :
      s.net ≡ a ++ record { sender = i; receiver = j; text = ok_text ts } ∷ b
      → IsAtomic ts c
          (record s { server = update s.server j sv; net = a ++ b; committed = j ∷ s.committed })
  commits-IsAtomic e =
      let p : Packet = record { sender = i; receiver = j; text = text_of ts Kind.ok } in
      let took = λ (k : Kind). count_changed (says (text_of ts k)) p [] a b s.net e in
      let at = λ (k : Kind). text_eq-text_of ts Kind.ok k in
      quiet-IsAtomic ts c s atomic Kind.ok i j a b [] e refl refl sv same
        (nothing-Spread (abort_text ts) j) (j ∷ s.committed) s.aborted
        (λ some_. ground (arith, took Kind.ok, at Kind.ok))
        (λ some_.
          ground (arith, took Kind.abort, took Kind.refused, at Kind.abort, at Kind.refused, some_))

  aborts-IsAtomic :
      (k : Kind) (new : List Packet)
      → (k ≡ Kind.abort) ⊎ (k ≡ Kind.refused)
      → Spread (abort_text ts) j new
      → s.net ≡ a ++ record { sender = i; receiver = j; text = text_of ts k } ∷ b
      → IsAtomic ts c
          (record s { server = update s.server j sv; net = new ++ a ++ b; aborted = j ∷ s.aborted })
  aborts-IsAtomic k new loses spread e =
      let p : Packet = record { sender = i; receiver = j; text = text_of ts k } in
      let took = λ (k' : Kind). count_changed (says (text_of ts k')) p new a b s.net e in
      let at = λ (k' : Kind). text_eq-text_of ts k k' in
      let there = λ (k' : Kind). count_changed (says (text_of ts k')) p [] a b s.net e in
      let none_ = Spread-says ts Kind.abort j new spread Kind.ok refl in
      let lost_here : 1 ≤ one_if (same_kind k Kind.abort) + one_if (same_kind k Kind.refused) =
        elim loses [
          | inl x ↦
              subst
                (λ k'. 1 ≤ one_if (same_kind k' Kind.abort) + one_if (same_kind k' Kind.refused))
                (sym x) (omega arith)
          | inr x ↦
              subst
                (λ k'. 1 ≤ one_if (same_kind k' Kind.abort) + one_if (same_kind k' Kind.refused))
                (sym x) (omega arith)
        ] in
      let plain : (same_kind k Kind.prepare ≡ false)
          × (same_kind k Kind.ready ≡ false)
          × (same_kind k Kind.ok ≡ false) =
        elim loses [ inl x ↦ rw x (refl, refl, refl) | inr x ↦ rw x (refl, refl, refl) ] in
      quiet-IsAtomic ts c s atomic k i j a b new e plain.0 plain.1 sv same spread s.committed
        (j ∷ s.aborted) (λ some_. ground (arith, took Kind.ok, at Kind.ok, none_, plain.2, some_))
        (λ _.
          ground (
            arith,
            there Kind.abort,
            there Kind.refused,
            at Kind.abort,
            at Kind.refused,
            lost_here,
          ))

Step-IsAtomic :
    (ts : ℤ) (c : ℕ) (s s' : System)
    → c < branches
    → IsInt64 ts
    → IsAtomic ts c s
    → Step ts c s s'
    → IsAtomic ts c s'
Step-IsAtomic ts c s s' lt int atomic (begins conn sv refused events off client handled) =
    let (wired, counter, spread) =
      begins_fields ts c conn (s.server c) sv refused events client (atomic.wired c) handled in
    begins-IsAtomic ts c s sv refused (packets c events) atomic off lt wired counter spread
Step-IsAtomic ts c s s' lt int atomic (prepares fuel i j a b sv sv' ok events e handled checked) =
    prepares-IsAtomic ts c s atomic lt fuel i j a b sv events int ok sv' e handled checked
Step-IsAtomic ts c s s' lt int atomic (counts fuel i j a b sv events e handled) =
    count_answer-IsAtomic ts c s atomic lt fuel i j a b sv events int e handled
Step-IsAtomic ts c s s' lt int atomic (commits fuel i j a b sv events e handled) =
    let (same, silent) = commits_fields ts fuel j (s.server j) sv events int i handled in
    rw (ap (packets j) silent ∙ packets_nil j) (commits-IsAtomic ts c s atomic i j a b sv same e)
Step-IsAtomic ts c s s' lt int atomic (gives_up fuel i j a b sv events e handled) =
    let (same, spread) =
      gives_up_fields ts fuel j (s.server j) sv events int i (atomic.wired j) handled in
    aborts-IsAtomic ts c s atomic i j a b sv same Kind.refused (packets j events) (inr refl) spread
      e
Step-IsAtomic ts c s s' lt int atomic (aborts fuel i j a b sv events e handled) =
    let (same, silent) = aborts_fields ts fuel j (s.server j) sv events int i handled in
    rw (ap (packets j) silent ∙ packets_nil j) (
      aborts-IsAtomic ts c s atomic i j a b sv same Kind.abort [] (inl refl)
        (nothing-Spread (abort_text ts) j) e)
Step-IsAtomic ts c s s' lt int atomic (works i sv keeps) = works-IsAtomic ts c s i sv atomic keeps

pub Reach-IsAtomic :
    (ts : ℤ) (c : ℕ) (s : System) → c < branches → IsInt64 ts → Reach ts c s → IsAtomic ts c s
Reach-IsAtomic ts c s lt int (start h) = start-IsAtomic ts c s h
Reach-IsAtomic ts c s lt int (then_ {s = before} r step) =
    Step-IsAtomic ts c before s lt int (Reach-IsAtomic ts c before lt int r) step
