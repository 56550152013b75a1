-- ===== src/Raft/Sound/Late.antt =====
-- The invariant across the rest of a handler that a `Kill` landed in.
use cs.Prelude.{
  ℕ, ◌≡◌, refl, true, some, get_elem?, length, set, ltb, ◌==◌, arith, Bool-cases, Option-cases, inl,
  inr, sym, ◌∙◌, ap, subst, length-set, ◌-◌,
}
use cs.Prelude.Int.{ℤ, pos, negsuc}
use cs.Raft.State.{
  Raft, AppendEntriesArgs, AppendEntriesReply, RequestVoteArgs, RequestVoteReply, Intn, killed,
  kill, revive, turn_follower,
}
use cs.Raft.Apply.Order.{announce}
use cs.Raft.Vote.{request_vote}
use cs.Raft.Append.{take_over, step_down, accept, check_prev, append_entries_locked}
use cs.Raft.Append.Answer.{step_down_fields}
use cs.Raft.Append.Keeps.{KeepsCommitted, install-keeps_length, install-keeps_tail}
use cs.Raft.Leader.{record_success, record_failure, pred_int, heart_beat_locked, handle_leader}
use cs.Raft.Leader.Majority.{advance-IsHighest}
use cs.Raft.Election.{check_election_timeout}
use cs.Raft.Sound.Defs.{IsKept, applymsg-dead}
use cs.Raft.Sound.Handlers.{RespectsCommitted}

module _ {C : Type 0} where
  pub request_vote-late :
      (intn : Intn) (args : RequestVoteArgs) {rf rf' : Raft C} {reply : RequestVoteReply}
      → IsKept rf
      → request_vote intn args (revive rf) ≡ some (rf', reply)
      → IsKept (kill rf')
  unfolding request_vote kill
  request_vote-late intn args k h = ground arith

  pub check_election_timeout-late :
      (intn : Intn) {rf : Raft C}
      → IsKept rf
      → IsKept (kill (check_election_timeout intn (revive rf)).0)
  unfolding check_election_timeout kill
  check_election_timeout-late intn k = ground arith

  pub handle_leader-late : {rf : Raft C} → IsKept rf → IsKept (kill (handle_leader (revive rf)))
  unfolding handle_leader kill
  handle_leader-late k = ground arith

  step_down-IsKept :
      (intn : Intn) (args : AppendEntriesArgs C) {rf : Raft C}
      → IsKept rf
      → IsKept (step_down intn args rf)
  unfolding step_down
  step_down-IsKept intn args k = ground arith

  take_over-late :
      (args : AppendEntriesArgs C) (prev : ℕ) {rf : Raft C}
      → killed rf ≡ true
      → KeepsCommitted rf.log prev args.entries rf.commit_index
      → IsKept rf
      → IsKept (take_over args prev rf)
  take_over-late args prev {rf} dead keeps k =
      let keeps' : KeepsCommitted rf.log prev args.entries rf.last_applied =
        λ point found. omega (arith, k.behind, keeps point found) in
      let inside = install-keeps_length rf.log prev args.entries rf.last_applied k.inside keeps' in
      record {
        inside = inside;
        behind = ground (arith, k.behind, inside);
        sent =
            k.sent
            ∙ ap (announce 1)
                (sym (install-keeps_tail rf.log prev args.entries rf.last_applied k.inside keeps'));
        caught_up = λ alive. ground arith;
        next_length = k.next_length;
        match_length = k.match_length;
      }

  check_prev-late :
      (args : AppendEntriesArgs C) (i : ℤ) {rf rf' : Raft C} {reply : AppendEntriesReply}
      → killed rf ≡ true
      → ((prev : ℕ) → i ≡ pos prev → KeepsCommitted rf.log prev args.entries rf.commit_index)
      → IsKept rf
      → check_prev args i rf ≡ some (rf', reply)
      → IsKept rf'
  unfolding check_prev accept
  check_prev-late args (negsuc n) dead keeps k h = ground arith
  check_prev-late args (pos prev) {rf} {rf'} {reply} dead keeps k h =
      let taken = take_over-late args prev dead (keeps prev refl) k in
      let same = applymsg-dead (take_over args prev rf) rf' dead in
      elim (Option-cases (get_elem? rf.log prev)) [
        | inl past ↦ ground arith
        | inr (entry, found) ↦ elim (Bool-cases (entry.term == args.prev_log_term)) [
          | inl matches ↦
              let done : rf' ≡ take_over args prev rf = ground (arith, same) in
              subst IsKept (sym done) taken
          | inr other ↦ let done : rf' ≡ rf = ground arith in subst IsKept (sym done) k
        ]
      ]

  pub append_entries-late :
      (intn : Intn) (args : AppendEntriesArgs C) {rf rf' : Raft C} {reply : AppendEntriesReply}
      → killed rf ≡ true
      → RespectsCommitted args rf
      → IsKept rf
      → append_entries_locked intn args rf ≡ some (rf', reply)
      → IsKept rf'
  append_entries-late intn args {rf} {rf'} {reply} dead respects k h =
      elim (Bool-cases (ltb args.term rf.current_term)) [
        | inl stale ↦ let same : rf' ≡ rf = ground arith in subst IsKept (sym same) k
        | inr current ↦
            let down = step_down_fields intn args rf current in
            check_prev-late args args.prev_log_index (rw down.5 dead)
              (λ prev at. rw (down.2, down.3) (respects prev at)) (step_down-IsKept intn args k)
              (rw current at h)
      ]

  record_success-late :
      (peer : ℕ) {rf rf' : Raft C}
      → killed rf ≡ true
      → IsKept rf
      → record_success peer rf ≡ some rf'
      → IsKept rf'
  unfolding record_success
  record_success-late peer {rf} {rf'} dead k h =
      let found =
        advance-IsHighest rf.peers (set rf.match_index peer (length rf.log - 1)) rf.commit_index
          (length rf.log - 1) in
      subst IsKept (sym (applymsg-dead _ rf' dead h)) (record {
        inside = k.inside;
        behind = omega (arith, k.behind, found.grows);
        sent = k.sent;
        caught_up = λ alive. ground arith;
        next_length = length-set rf.next_index peer _ ∙ k.next_length;
        match_length = length-set rf.match_index peer _ ∙ k.match_length;
      })

  record_failure-late :
      (peer : ℕ) {rf rf' : Raft C} → IsKept rf → record_failure peer rf ≡ some rf' → IsKept rf'
  unfolding record_failure
  record_failure-late peer {rf} k h = elim (Option-cases (get_elem? rf.next_index peer)) [
    | inl panics ↦ ground arith
    | inr (next, found) ↦ ground (arith, length-set rf.next_index peer (pred_int next))
  ]

  pub heart_beat_reply-late :
      (intn : Intn) (peer : ℕ) (reply : AppendEntriesReply) {rf rf' : Raft C}
      → killed rf ≡ true
      → IsKept rf
      → heart_beat_locked intn peer reply rf ≡ some rf'
      → IsKept rf'
  unfolding turn_follower
  heart_beat_reply-late intn peer reply {rf} {rf'} dead k h = ground (
    arith,
    record_success-late peer {rf = rf} {rf' = rf'} dead k,
    record_failure-late peer {rf = rf} {rf' = rf'} k,
  )
