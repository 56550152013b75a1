-- ===== src/Raft/Sound/Handlers.antt =====
-- The invariant across `AppendEntries` and what `sendHeartBeat` does with a reply.
use cs.Prelude.{
  ℕ, ◌-◌, ◌≡◌, refl, false, Option, none, some, length, get_elem?, set, ltb, arith, Bool-cases,
  Option-cases, inl, inr, sym, ◌∙◌, subst, length-set, ap,
}
use cs.Prelude.Int.{ℤ, pos, negsuc}
use cs.Raft.State.{Raft, AppendEntriesArgs, AppendEntriesReply, Intn, killed, turn_follower}
use cs.Raft.Apply.{applymsg}
use cs.Raft.Apply.Order.{announce}
use cs.Raft.Append.{take_over, step_down, accept, check_prev, append_entries}
use cs.Raft.Append.Answer.{
  append_entries-dead, append_entries-stale, append_entries-current, step_down_fields,
}
use cs.Raft.Append.Keeps.{KeepsCommitted, install-keeps_length, install-keeps_tail}
use cs.Raft.Leader.{record_success, record_failure, pred_int, heart_beat_reply}
use cs.Raft.Leader.Majority.{advance-IsHighest}
use cs.Raft.Sound.Defs.{IsSound, IsPending, applymsg-IsSound}

module _ {C : Type 0} where
  pub turn_follower-IsSound :
      (intn : Intn) (term : ℕ) (vote : Option ℕ) {rf : Raft C}
      → IsSound rf
      → IsSound (turn_follower intn term vote rf)
  unfolding turn_follower
  turn_follower-IsSound intn term vote s = ground arith

  record_success-IsSound :
      (peer : ℕ) {rf rf' : Raft C}
      → killed rf ≡ false
      → IsSound rf
      → record_success peer rf ≡ some rf'
      → IsSound rf'
  unfolding record_success
  record_success-IsSound peer {rf} {rf'} alive s h =
      let found =
        advance-IsHighest rf.peers (set rf.match_index peer (length rf.log - 1)) rf.commit_index
          (length rf.log - 1) in
      applymsg-IsSound rf.commit_index _ rf' alive
        (record {
          inside = s.committed;
          grown = found.grows;
          applied = s.caught_up;
          sent = s.sent;
          next_length = length-set rf.next_index peer _ ∙ s.next_length;
          match_length = length-set rf.match_index peer _ ∙ s.match_length;
        })
        h

  record_failure-IsSound :
      (peer : ℕ) {rf rf' : Raft C} → IsSound rf → record_failure peer rf ≡ some rf' → IsSound rf'
  unfolding record_failure
  record_failure-IsSound peer {rf} s h = elim (Option-cases (get_elem? rf.next_index peer)) [
    | inl panics ↦ ground arith
    | inr (next, found) ↦ ground (arith, length-set rf.next_index peer (pred_int next))
  ]

  pub heart_beat_reply-IsSound :
      (intn : Intn) (peer : ℕ) (reply : Option AppendEntriesReply) {rf rf' : Raft C}
      → IsSound rf
      → heart_beat_reply intn peer reply rf ≡ some rf'
      → IsSound rf'
  unfolding heart_beat_reply
  heart_beat_reply-IsSound intn peer none s h = ground arith
  heart_beat_reply-IsSound intn peer (some reply) {rf} {rf'} s h = ground (
    arith,
    λ (alive : killed rf ≡ false). record_success-IsSound peer {rf = rf} {rf' = rf'} alive s,
    turn_follower-IsSound intn reply.term none s,
    record_failure-IsSound peer {rf = rf} {rf' = rf'} s,
  )

  pub step_down-IsSound :
      (intn : Intn) (args : AppendEntriesArgs C) {rf : Raft C}
      → IsSound rf
      → IsSound (step_down intn args rf)
  unfolding step_down
  step_down-IsSound intn args s = ground arith

  pub take_over-IsPending :
      (args : AppendEntriesArgs C) (prev : ℕ) {rf : Raft C}
      → KeepsCommitted rf.log prev args.entries rf.commit_index
      → IsSound rf
      → IsPending rf.commit_index (take_over args prev rf)
  take_over-IsPending args prev {rf} keeps s =
      let inside =
        install-keeps_length rf.log prev args.entries rf.commit_index s.committed keeps in
      record {
        inside = inside;
        grown = ground arith;
        applied = s.caught_up;
        sent =
            s.sent
            ∙ ap (announce 1) (
                sym
                  (install-keeps_tail rf.log prev args.entries rf.commit_index s.committed keeps));
        next_length = s.next_length;
        match_length = s.match_length;
      }

  accept-IsSound :
      (args : AppendEntriesArgs C) (prev : ℕ) {rf rf' : Raft C} {reply : AppendEntriesReply}
      → killed rf ≡ false
      → KeepsCommitted rf.log prev args.entries rf.commit_index
      → IsSound rf
      → accept args prev rf ≡ some (rf', reply)
      → IsSound rf'
  unfolding accept
  accept-IsSound args prev {rf} {rf'} alive keeps s h =
      elim (Option-cases (applymsg (take_over args prev rf))) [
        | inl panics ↦ ground arith
        | inr (after, done) ↦
            let same : after ≡ rf' = ground arith in
            subst IsSound same (
              applymsg-IsSound rf.commit_index _ after alive (take_over-IsPending args prev keeps s)
                done)
      ]

  check_prev-IsSound :
      (args : AppendEntriesArgs C) (i : ℤ) {rf rf' : Raft C} {reply : AppendEntriesReply}
      → killed rf ≡ false
      → ((prev : ℕ) → i ≡ pos prev → KeepsCommitted rf.log prev args.entries rf.commit_index)
      → IsSound rf
      → check_prev args i rf ≡ some (rf', reply)
      → IsSound rf'
  unfolding check_prev
  check_prev-IsSound args (negsuc n) alive keeps s h = ground arith
  check_prev-IsSound args (pos prev) {rf} {rf'} {reply} alive keeps s h =
      let accepted =
        accept-IsSound args prev {rf = rf} {rf' = rf'} {reply = reply} alive (keeps prev refl) s in
      elim (Option-cases (get_elem? rf.log prev)) [
        | inl past ↦ ground arith
        | inr (entry, found) ↦ ground (arith, accepted)
      ]

  -- The entries of a request, where it passes the test of its previous position, agree with what
  -- the peer has committed.
  abbrev pub RespectsCommitted : AppendEntriesArgs C → Raft C → Type 0
  RespectsCommitted args rf =
      (prev : ℕ)
      → args.prev_log_index ≡ pos prev
      → KeepsCommitted rf.log prev args.entries rf.commit_index

  pub append_entries-IsSound :
      (intn : Intn) (args : AppendEntriesArgs C) {rf rf' : Raft C} {reply : AppendEntriesReply}
      → RespectsCommitted args rf
      → IsSound rf
      → append_entries intn args rf ≡ some (rf', reply)
      → IsSound rf'
  append_entries-IsSound intn args {rf} {rf'} {reply} respects s h = elim (Bool-cases (killed rf)) [
    | inl dead ↦ ground (arith, append_entries-dead intn args rf dead)
    | inr alive ↦ elim (Bool-cases (ltb args.term rf.current_term)) [
      | inl stale ↦ ground (arith, append_entries-stale intn args rf alive stale)
      | inr current ↦
          let down = step_down_fields intn args rf current in
          check_prev-IsSound args args.prev_log_index (rw down.5 alive)
            (λ prev at. rw (down.2, down.3) (respects prev at)) (step_down-IsSound intn args s)
            (sym (append_entries-current intn args rf alive current) ∙ h)
    ]
  ]
