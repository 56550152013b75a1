-- ===== src/Raft/Sound/Returns.antt =====
-- `AppendEntries` does not panic on a request of a leader that keeps to the protocol.
use cs.Prelude.{
  ℕ, ◌+◌, ◌≤◌, ◌<◌, ◌≡◌, false, Option, some, length, get_elem?, ltb, ◌==◌, arith, Bool-cases,
  Option-cases, inl, inr, sym, subst, get_elem?-lt,
}
use cs.Prelude.Int.{pos}
use cs.Raft.State.{Raft, AppendEntriesArgs, Intn, killed}
use cs.Raft.Apply.{applymsg}
use cs.Raft.Apply.Order.{applymsg_lem}
use cs.Raft.Append.{take_over, step_down, accept, check_prev, append_entries}
use cs.Raft.Append.Merge.{length-install}
use cs.Raft.Append.Answer.{
  append_entries-dead, append_entries-stale, append_entries-current, step_down_fields,
  check_prev-go, check_prev-past, check_prev-other, accept-done,
}
use cs.Raft.Append.Keeps.{KeepsCommitted}
use cs.Raft.Sound.Defs.{IsSound, IsPending}
use cs.Raft.Sound.Handlers.{RespectsCommitted, take_over-IsPending, step_down-IsSound}

-- The call does not panic.
abbrev pub Returns : {A : Type 0} → Option A → Type 0
Returns {A} r = (a : A) × (r ≡ some a)

module _ {C : Type 0} where
  applymsg-Returns :
      (c : ℕ) (rf : Raft C)
      → killed rf ≡ false
      → IsPending c rf
      → rf.commit_index < length rf.log
      → Returns (applymsg rf)
  applymsg-Returns c rf alive p lt = (_, applymsg_lem rf alive (omega arith) lt)

  accept-Returns :
      (args : AppendEntriesArgs C) (prev : ℕ) (rf : Raft C)
      → killed rf ≡ false
      → KeepsCommitted rf.log prev args.entries rf.commit_index
      → IsSound rf
      → prev < length rf.log
      → args.leader_commit ≤ prev + length args.entries
      → Returns (accept args prev rf)
  accept-Returns args prev rf alive keeps s inside bound =
      let pending = take_over-IsPending args prev keeps s in
      let long = length-install rf.log prev args.entries inside in
      let lt : (take_over args prev rf).commit_index < length (take_over args prev rf).log =
        ground (arith, pending.inside) in
      let (rf', done) =
        applymsg-Returns rf.commit_index (take_over args prev rf) alive pending lt in
      (_, accept-done args prev rf rf' done)

  check_prev-Returns :
      (args : AppendEntriesArgs C) (prev : ℕ) (rf : Raft C)
      → killed rf ≡ false
      → KeepsCommitted rf.log prev args.entries rf.commit_index
      → IsSound rf
      → args.leader_commit ≤ prev + length args.entries
      → Returns (check_prev args (pos prev) rf)
  check_prev-Returns args prev rf alive keeps s bound =
      elim (Option-cases (get_elem? rf.log prev)) [
        | inl past ↦ (_, check_prev-past args prev rf past)
        | inr (entry, found) ↦ elim (Bool-cases (entry.term == args.prev_log_term)) [
          | inl same ↦
              rw (check_prev-go args prev rf entry found same)
                (accept-Returns args prev rf alive keeps s (get_elem?-lt rf.log prev found) bound)
          | inr other ↦ (_, check_prev-other args prev rf entry found other)
        ]
      ]

  -- A sound peer answers, on every branch, a request whose entries agree with what the peer has
  -- committed, whose previous position is not negative, and whose commit index is at most the
  -- position of its last entry.
  pub append_entries-Returns :
      (intn : Intn) (args : AppendEntriesArgs C) (prev : ℕ) (rf : Raft C)
      → IsSound rf
      → args.prev_log_index ≡ pos prev
      → RespectsCommitted args rf
      → args.leader_commit ≤ prev + length args.entries
      → Returns (append_entries intn args rf)
  append_entries-Returns intn args prev rf s at respects bound = elim (Bool-cases (killed rf)) [
    | inl dead ↦ (_, append_entries-dead intn args rf dead)
    | inr alive ↦ elim (Bool-cases (ltb args.term rf.current_term)) [
      | inl stale ↦ (_, append_entries-stale intn args rf alive stale)
      | inr current ↦
          let down = step_down_fields intn args rf current in
          rw (append_entries-current intn args rf alive current) (
            subst (λ i. Returns (check_prev args i (step_down intn args rf))) (sym at)
              (check_prev-Returns args prev (step_down intn args rf) (rw down.5 alive)
                (rw (down.2, down.3) (respects prev at)) (step_down-IsSound intn args s) bound))
    ]
  ]
