-- ===== src/Raft/Append/Answer.antt =====
-- How `AppendEntries` ends, on each of its branches.
use cs.Prelude.{
  ℕ, ◌≤◌, ◌≡◌, refl, true, false, none, some, get_elem?, ltb, ◌==◌, arith, inl, inr, Option-cases,
  Bool-cases, sym, ◌∙◌,
}
use cs.Prelude.Int.{ℤ, pos, negsuc}
use cs.Raft.State.{Raft, Role, LogEntry, AppendEntriesArgs, AppendEntriesReply, Intn, killed}
use cs.Raft.Apply.{applymsg}
use cs.Raft.Append.{
  take_over, refusal, no_reply, install, step_down, accept, check_prev, append_entries,
}

module _ {C : Type 0} where
  pub step_down_fields :
      (intn : Intn) (args : AppendEntriesArgs C) (rf : Raft C)
      → ltb args.term rf.current_term ≡ false
      → ((step_down intn args rf).current_term ≡ args.term)
        × ((step_down intn args rf).state ≡ Role.follower)
        × ((step_down intn args rf).log ≡ rf.log)
        × ((step_down intn args rf).commit_index ≡ rf.commit_index)
        × ((step_down intn args rf).apply_msg_ch ≡ rf.apply_msg_ch)
        × ((step_down intn args rf).dead ≡ rf.dead)
  unfolding step_down
  step_down_fields intn args rf h = ground arith

  accept_fields :
      (args : AppendEntriesArgs C) (prev : ℕ) (rf rf' : Raft C) (reply : AppendEntriesReply)
      → accept args prev rf ≡ some (rf', reply)
      → (reply.success ≡ true)
        × (rf'.log ≡ install rf.log prev args.entries)
        × (rf'.current_term ≡ rf.current_term)
        × (rf'.state ≡ rf.state)
  unfolding accept applymsg
  accept_fields args prev rf rf' reply h = ground arith

  -- What a follower has checked and done when it answers with success.
  pub record IsAccepted (args : AppendEntriesArgs C) (rf rf' : Raft C) : Type 0 where
    pub prev : ℕ
    pub entry : LogEntry C
    pub prev_index : args.prev_log_index ≡ pos prev
    pub current : rf.current_term ≤ args.term
    pub found : get_elem? rf.log prev ≡ some entry
    pub matching : entry.term ≡ args.prev_log_term
    pub installed : rf'.log ≡ install rf.log prev args.entries
    pub term_taken : rf'.current_term ≡ args.term
    pub following : rf'.state ≡ Role.follower

  check_prev-accepted :
      (args : AppendEntriesArgs C) (i : ℤ) (rf rf' : Raft C) (reply : AppendEntriesReply)
      → check_prev args i rf ≡ some (rf', reply)
      → reply.success ≡ true
      → (prev : ℕ) × (entry : LogEntry C) × (i ≡ pos prev)
        × (get_elem? rf.log prev ≡ some entry)
        × (entry.term ≡ args.prev_log_term)
        × (accept args prev rf ≡ some (rf', reply))
  unfolding check_prev
  check_prev-accepted args (negsuc n) rf rf' reply h ok = ground arith
  check_prev-accepted args (pos prev) rf rf' reply h ok =
      elim (Option-cases (get_elem? rf.log prev)) [
        | inl past ↦ ground arith
        | inr (entry, found) ↦ (prev, entry, refl, found, ground arith, ground arith)
      ]

  pub append_entries-dead :
      (intn : Intn) (args : AppendEntriesArgs C) (rf : Raft C)
      → killed rf ≡ true
      → append_entries intn args rf ≡ some (rf, no_reply)
  unfolding append_entries
  append_entries-dead intn args rf h = rw h

  pub append_entries-stale :
      (intn : Intn) (args : AppendEntriesArgs C) (rf : Raft C)
      → killed rf ≡ false
      → ltb args.term rf.current_term ≡ true
      → append_entries intn args rf ≡ some (rf, record { term = rf.current_term; success = false })
  unfolding append_entries
  append_entries-stale intn args rf h k = rw h (rw k)

  pub append_entries-current :
      (intn : Intn) (args : AppendEntriesArgs C) (rf : Raft C)
      → killed rf ≡ false
      → ltb args.term rf.current_term ≡ false
      → append_entries intn args rf ≡ check_prev args args.prev_log_index (step_down intn args rf)
  unfolding append_entries
  append_entries-current intn args rf h k = rw h (rw k)

  -- A reply of success is given only by a live peer that takes part in a term up to the request's.
  append_entries-success :
      (intn : Intn) (args : AppendEntriesArgs C) (rf rf' : Raft C) (reply : AppendEntriesReply)
      → append_entries intn args rf ≡ some (rf', reply)
      → reply.success ≡ true
      → (ltb args.term rf.current_term ≡ false)
        × (check_prev args args.prev_log_index (step_down intn args rf) ≡ some (rf', reply))
  append_entries-success intn args rf rf' reply h ok = elim (Bool-cases (killed rf)) [
    | inl dead ↦ ground (arith, append_entries-dead intn args rf dead)
    | inr alive ↦ elim (Bool-cases (ltb args.term rf.current_term)) [
      | inl stale ↦ ground (arith, append_entries-stale intn args rf alive stale)
      | inr current ↦ (current, sym (append_entries-current intn args rf alive current) ∙ h)
    ]
  ]

  -- A successful reply means: the request's term is not older than the peer's, the log held an
  -- entry of the previous term at the previous position, and now the peer follows in that term
  -- with the entries installed behind that position.
  pub append_entries-IsAccepted :
      (intn : Intn) (args : AppendEntriesArgs C) (rf rf' : Raft C) (reply : AppendEntriesReply)
      → append_entries intn args rf ≡ some (rf', reply)
      → reply.success ≡ true
      → IsAccepted args rf rf'
  append_entries-IsAccepted intn args rf rf' reply h ok =
      let (current, checked) = append_entries-success intn args rf rf' reply h ok in
      let down = step_down_fields intn args rf current in
      let (prev, entry, at, found, matching, accepted) =
        check_prev-accepted args args.prev_log_index (step_down intn args rf) rf' reply checked
          ok in
      let done = accept_fields args prev (step_down intn args rf) rf' reply accepted in
      record {
        prev = prev;
        entry = entry;
        prev_index = at;
        current = ground arith;
        found = rw down.2 at found;
        matching = matching;
        installed = rw (done.1, down.2);
        term_taken = rw (done.2, down.0);
        following = rw (done.3, down.1);
      }

  pub accept-done :
      (args : AppendEntriesArgs C) (prev : ℕ) (rf rf' : Raft C)
      → applymsg (take_over args prev rf) ≡ some rf'
      → accept args prev rf ≡ some (rf', record { term = 0; success = true })
  unfolding accept
  accept-done args prev rf rf' h = rw (h, accept)

  pub check_prev-past :
      (args : AppendEntriesArgs C) (prev : ℕ) (rf : Raft C)
      → get_elem? rf.log prev ≡ none
      → check_prev args (pos prev) rf ≡ some (refusal rf)
  unfolding check_prev
  check_prev-past args prev rf h = rw (h, check_prev)

  pub check_prev-other :
      (args : AppendEntriesArgs C) (prev : ℕ) (rf : Raft C) (entry : LogEntry C)
      → get_elem? rf.log prev ≡ some entry
      → (entry.term == args.prev_log_term) ≡ false
      → check_prev args (pos prev) rf ≡ some (refusal rf)
  unfolding check_prev
  check_prev-other args prev rf entry found other = rw (found, check_prev) (rw other)

  pub check_prev-go :
      (args : AppendEntriesArgs C) (prev : ℕ) (rf : Raft C) (entry : LogEntry C)
      → get_elem? rf.log prev ≡ some entry
      → (entry.term == args.prev_log_term) ≡ true
      → check_prev args (pos prev) rf ≡ accept args prev rf
  unfolding check_prev
  check_prev-go args prev rf entry found same = rw (found, check_prev) (rw same)

  -- A refusal leaves the log, what is committed and what was sent to the service as they are.
  check_prev-refused :
      (args : AppendEntriesArgs C) (i : ℤ) (rf rf' : Raft C) (reply : AppendEntriesReply)
      → check_prev args i rf ≡ some (rf', reply)
      → reply.success ≡ false
      → (rf' ≡ rf) × (reply.term ≡ rf.current_term)
  unfolding check_prev
  check_prev-refused args (negsuc n) rf rf' reply h bad = ground arith
  check_prev-refused args (pos prev) rf rf' reply h bad =
      elim (Option-cases (get_elem? rf.log prev)) [
        | inl past ↦ ground arith
        | inr (entry, found) ↦ elim (Bool-cases (entry.term == args.prev_log_term)) [
          | inl same ↦
              let go = check_prev-go args prev rf entry found same in
              let yes_reply = (accept_fields args prev rf rf' reply (sym go ∙ h)).0 in ground arith
          | inr other ↦ ground arith
        ]
      ]

  -- A live peer's refusal changes neither its log, nor what is committed, nor what the service
  -- was sent; it carries the peer's term after the call, which is not below its term before.
  pub append_entries-refused :
      (intn : Intn) (args : AppendEntriesArgs C) (rf rf' : Raft C) (reply : AppendEntriesReply)
      → killed rf ≡ false
      → append_entries intn args rf ≡ some (rf', reply)
      → reply.success ≡ false
      → (rf'.log ≡ rf.log)
        × (rf'.commit_index ≡ rf.commit_index)
        × (rf'.apply_msg_ch ≡ rf.apply_msg_ch)
        × (reply.term ≡ rf'.current_term)
        × (rf.current_term ≤ rf'.current_term)
  append_entries-refused intn args rf rf' reply alive h bad =
      elim (Bool-cases (ltb args.term rf.current_term)) [
        | inl stale ↦ ground (arith, append_entries-stale intn args rf alive stale)
        | inr current ↦
            let checked = sym (append_entries-current intn args rf alive current) ∙ h in
            let (same, term) =
              check_prev-refused args args.prev_log_index (step_down intn args rf) rf' reply checked
                bad in
            let down = step_down_fields intn args rf current in
            rw same (down.2, down.3, down.4, term, rw down.0 (ground arith))
      ]
