-- ===== src/Raft/Apply/Order.antt =====
-- What `applymsg` sends: each newly committed entry once, in the order of the log.
use cs.Prelude.{
  ℕ, zero, suc, ◌+◌, ◌-◌, ◌≤◌, ◌<◌, ◌≡◌, refl, false, none, some, List, [], ◌∷◌, ◌++◌, get_elem?,
  length, drop, take, drop-get_elem?, get_elem?-some, get_elem?-none, arith, take-add, length-take,
  length-drop, drop-drop_one, ap,
}
use cs.Raft.State.{Raft, LogEntry, ApplyMsg, killed}
use cs.Raft.Apply.{apply_msg, apply_loop, applymsg}

module _ {C : Type 0} where
  -- The messages for a stretch of the log that begins at position `i`.
  unfoldable pub announce : ℕ → List (LogEntry C) → List (ApplyMsg C)
  announce i [] = []
  announce i (e ∷ es) = apply_msg e i ∷ announce (suc i) es

  apply_loop-suc :
      (log : List (LogEntry C)) (commit n : ℕ) (e : LogEntry C) (msgs : List (ApplyMsg C))
      → get_elem? log (commit + 1 - suc n) ≡ some e
      → apply_loop log commit n ≡ some msgs
      → apply_loop log commit (suc n) ≡ some (apply_msg e (commit + 1 - suc n) ∷ msgs)
  unfolding apply_loop
  apply_loop-suc log commit n e msgs found rest = ground arith

  -- In bounds, the loop announces the last `n` committed entries.
  pub apply_loop_lem :
      (log : List (LogEntry C)) (commit n : ℕ)
      → commit < length log
      → n ≤ commit
      → apply_loop log commit n
        ≡ some (announce (commit + 1 - n) (take n (drop (commit + 1 - n) log)))
  unfolding announce
  apply_loop_lem log commit zero h k = unfold apply_loop in refl
  apply_loop_lem log commit (suc n) h k =
      let (e, found) = get_elem?-some log (commit + 1 - suc n) (omega arith) in
      let next : suc (commit + 1 - suc n) ≡ commit + 1 - n = omega arith in
      rw (drop-get_elem? log _ found, next)
        (apply_loop-suc log commit n e _ found (apply_loop_lem log commit n h (omega arith)))

  -- Past the end of the log the loop panics.
  pub apply_loop_past :
      (log : List (LogEntry C)) (commit n : ℕ)
      → length log ≤ commit
      → 0 < n
      → apply_loop log commit n ≡ none
  unfolding apply_loop
  apply_loop_past log commit zero h k = absurd (omega arith)
  apply_loop_past log commit (suc zero) h k = ground (arith, get_elem?-none log (commit + 1 - 1))
  apply_loop_past log commit (suc (suc n)) h k =
      ground (arith, apply_loop_past log commit (suc n) h)

  -- A live peer whose last applied position is at most its commit index, which lies in the log,
  -- sends the service the entries behind the former up to the latter, in the order of the log,
  -- and then has everything committed applied.
  pub applymsg_lem :
      (rf : Raft C)
      → killed rf ≡ false
      → rf.last_applied ≤ rf.commit_index
      → rf.commit_index < length rf.log
      → applymsg rf
        ≡ some (record rf {
          last_applied = rf.commit_index;
          apply_msg_ch =
              rf.apply_msg_ch
              ++ announce
                  (suc rf.last_applied)
                  (take (rf.commit_index - rf.last_applied) (drop (suc rf.last_applied) rf.log));
        })
  unfolding applymsg
  applymsg_lem rf alive le lt =
      let start : rf.commit_index + 1 - (rf.commit_index - rf.last_applied) ≡ suc rf.last_applied =
        omega arith in
      let sent =
        apply_loop_lem rf.log rf.commit_index (rf.commit_index - rf.last_applied) lt
          (omega arith) in
      ground (arith, rw start at sent)

  -- A call that does not panic leaves everything committed applied, and changes nothing else.
  pub applymsg-some :
      (rf rf' : Raft C)
      → killed rf ≡ false
      → rf.last_applied < length rf.log
      → applymsg rf ≡ some rf'
      → (rf.commit_index < length rf.log)
        × (rf'.last_applied ≡ rf.commit_index)
        × (rf' ≡ record rf { last_applied = rf'.last_applied; apply_msg_ch = rf'.apply_msg_ch })
  unfolding applymsg
  applymsg-some rf rf' alive lt done =
      ground (arith, apply_loop_past rf.log rf.commit_index (rf.commit_index - rf.last_applied))

  announce-append :
      (i : ℕ) (xs ys : List (LogEntry C))
      → announce i (xs ++ ys) ≡ announce i xs ++ announce (i + length xs) ys
  unfolding announce
  announce-append i [] ys = let stay : i + 0 ≡ i = omega arith in rw stay
  announce-append i (x ∷ xs) ys =
      let shift : i + suc (length xs) ≡ suc i + length xs = omega arith in
      rw shift (ap (λ ms. apply_msg x i ∷ ms) (announce-append (suc i) xs ys))

  -- The announcements up to `c`, then those from `c` to `c'`, are those up to `c'`.
  pub announce_resume :
      (log : List (LogEntry C)) (c c' : ℕ)
      → c < length log
      → c ≤ c'
      → announce 1 (take c (drop 1 log)) ++ announce (suc c) (take (c' - c) (drop (suc c) log))
        ≡ announce 1 (take c' (drop 1 log))
  announce_resume log c c' lt le =
      let whole : c + (c' - c) ≡ c' = omega arith in
      let split : take c' (drop 1 log)
          ≡ take c (drop 1 log) ++ take (c' - c) (drop c (drop 1 log)) =
        rw whole at (take-add c (c' - c) (drop 1 log)) in
      let next : 1 + length (take c (drop 1 log)) ≡ suc c =
        omega (arith, length-take c (drop 1 log), length-drop 1 log) in
      rw (split, announce-append, next, drop-drop_one)

  -- `applymsg` leaves the term, the vote and the log alone.
  pub applymsg-frame :
      (rf rf' : Raft C)
      → applymsg rf ≡ some rf'
      → (rf'.current_term ≡ rf.current_term)
        × (rf'.voted_for ≡ rf.voted_for)
        × (rf'.log ≡ rf.log)
        × (rf'.match_index ≡ rf.match_index)
        × (rf'.commit_index ≡ rf.commit_index)
  unfolding applymsg
  applymsg-frame rf rf' h = ground arith
