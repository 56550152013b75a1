-- ===== src/Raft/Leader.antt =====
-- mp2/src/raft/raft.go: the leader's side, `Start`, `sendHeartBeat` and `handleLeader`.
-- `sendHeartBeat` is two steps, for the lock is released while the call is under way: the
-- arguments that it sends, and what it does with the reply, which labrpc delivers or loses.
pub mod Majority
use cs.Prelude.{
  ℕ, zero, suc, ◌+◌, ◌-◌, ◌/◌, Bool, true, false, Option, none, some, List, [], ◌∷◌, ◌++◌, length,
  get_elem?, set, drop, count, ltb, leb, not, ◌||◌, if◌then◌else◌,
}
use cs.Prelude.Int.{ℤ, pos, negsuc}
use cs.Raft.State.{
  Raft, AppendEntriesArgs, AppendEntriesReply, Intn, is_leader, killed, index?, turn_follower,
  reset_timer, heartbeat_interval,
}
use cs.Raft.Apply.{applymsg}

-- mp2/src/raft/util.go `Max`.
abbrev pub max_int : ℕ → ℕ → ℕ
max_int a b = if ltb b a then a else b

-- `x - 1` on an `int`.
abbrev pub pred_int : ℤ → ℤ
pred_int (pos zero) = negsuc 0
pred_int (pos (suc n)) = pos n
pred_int (negsuc n) = negsuc (suc n)

-- `xs[from:]`: a position below 0 or past the end panics.
abbrev pub slice_from {ℓ} : {A : Type ℓ} → List A → ℤ → Option (List A)
slice_from xs (pos n) = if leb n (length xs) then some (drop n xs) else none
slice_from xs (negsuc n) = none

-- `total > half` for position `i`.
abbrev pub has_majority : ℕ → List ℕ → ℕ → Bool
has_majority peers matches i = ltb (peers / 2) (count (λ m. leb i m) matches)

-- The loop over `i` from `n` down to `commit + 1`, and the commit index after it.
unfoldable pub advance : ℕ → List ℕ → ℕ → ℕ → ℕ
advance peers matches commit zero = commit
advance peers matches commit (suc n) = elim (ltb commit (suc n)) [
  | false ↦ commit
  | true ↦ elim (has_majority peers matches (suc n)) [
    | true ↦ max_int (suc n) commit
    | false ↦ advance peers matches commit n
  ]
]

module _ {C : Type 0} where
  -- The index, the term and whether this peer leads; -1 is `none`.
  unfoldable pub start : Option C → Raft C → Raft C × (Option ℕ × Option ℕ × Bool)
  start command rf =
      if is_leader rf.state
      then (
        record rf {
          log = rf.log ++ record { term = rf.current_term; command = command } ∷ [];
          match_index = set rf.match_index rf.me (length rf.log);
          next_index = set rf.next_index rf.me (pos (length rf.log + 1));
        },
        (some (length rf.log), some rf.current_term, true),
      )
      else (rf, (none, none, false))

  -- The entries and the previous position for a peer whose `nextIndex` is `next`.
  unfoldable pub entries_from : Raft C → ℤ → Option (AppendEntriesArgs C)
  entries_from rf next = elim (slice_from rf.log next) [
    | none ↦ none
    | some entries ↦ elim (index? rf.log (pred_int next)) [
      | none ↦ none
      | some prev ↦ some (record {
        term = rf.current_term;
        leader_id = rf.me;
        prev_log_index = pred_int next;
        prev_log_term = prev.term;
        entries = entries;
        leader_commit = rf.commit_index;
      })
    ]
  ]

  -- What `sendHeartBeat` sends: `some none` if it returns before the call, `none` if it panics.
  unfoldable pub heart_beat_args : ℕ → Raft C → Option (Option (AppendEntriesArgs C))
  heart_beat_args peer rf =
      if killed rf || not (is_leader rf.state)
      then some none
      else elim (get_elem? rf.next_index peer) [
        | none ↦ none
        | some next ↦ elim (entries_from rf next) [ none ↦ none | some args ↦ some (some args) ]
      ]

  -- The branch of a successful reply. `len(rf.log) - 1` is 0 at least after `make`.
  unfoldable pub record_success : ℕ → Raft C → Option (Raft C)
  record_success peer rf =
      let matches = set rf.match_index peer (length rf.log - 1) in
      applymsg (record rf {
        next_index = set rf.next_index peer (pos (length rf.log));
        match_index = matches;
        commit_index = advance rf.peers matches rf.commit_index (length rf.log - 1);
      })

  -- The branch of a refusal.
  unfoldable pub record_failure : ℕ → Raft C → Option (Raft C)
  record_failure peer rf = elim (get_elem? rf.next_index peer) [
    | none ↦ none
    | some next ↦ some (record rf { next_index = set rf.next_index peer (pred_int next) })
  ]

  -- The part of `sendHeartBeat` under its second lock, behind the look at `killed`; `applymsg`
  -- looks again.
  abbrev pub heart_beat_locked : Intn → ℕ → AppendEntriesReply → Raft C → Option (Raft C)
  heart_beat_locked intn peer reply rf =
      if not (is_leader rf.state)
      then some rf
      else if ltb rf.current_term reply.term
      then some (turn_follower intn reply.term none rf)
      else if reply.success
      then record_success peer rf
      else record_failure peer rf

  -- What `sendHeartBeat` does after its call, with no `Kill` within it; `none` for a call that
  -- failed.
  unfoldable pub heart_beat_reply : Intn → ℕ → Option AppendEntriesReply → Raft C → Option (Raft C)
  heart_beat_reply intn peer none rf = some rf
  heart_beat_reply intn peer (some reply) rf =
      if killed rf then some rf else heart_beat_locked intn peer reply rf

  -- `handleLeader` waits for the tick; its heartbeats are `heart_beat_args` of each other peer.
  unfoldable pub handle_leader : Raft C → Raft C
  handle_leader rf = if killed rf || not rf.heart_beat_timer.tick then rf else record rf {
    heart_beat_timer = reset_timer (record rf.heart_beat_timer { tick = false }) heartbeat_interval;
  }
