-- ===== src/Raft/Sound/Defs.antt =====
-- What holds of a peer between two critical sections.
use cs.Prelude.{
  ℕ, ◌≤◌, ◌<◌, ◌≡◌, refl, true, false, some, take, drop, length, arith, subst, sym, ◌∙◌, some_inj,
}
use cs.Raft.State.{Raft, killed}
use cs.Raft.Apply.{applymsg}
use cs.Raft.Apply.Order.{announce, applymsg_lem, applymsg-some, announce_resume}

module _ {C : Type 0} where
  -- The commit index lies in the log; the service has been sent exactly the committed entries,
  -- each once and in order; the leader's lists have a place for each peer.
  pub record IsSound (rf : Raft C) : Type 0 where
    pub committed : rf.commit_index < length rf.log
    pub caught_up : rf.last_applied ≡ rf.commit_index
    pub sent : rf.apply_msg_ch ≡ announce 1 (take rf.commit_index (drop 1 rf.log))
    pub next_length : length rf.next_index ≡ rf.peers
    pub match_length : length rf.match_index ≡ rf.peers

  -- The same before a call of `applymsg`, with `c` applied.
  pub record IsPending (c : ℕ) (rf : Raft C) : Type 0 where
    pub inside : c < length rf.log
    pub grown : c ≤ rf.commit_index
    pub applied : rf.last_applied ≡ c
    pub sent : rf.apply_msg_ch ≡ announce 1 (take c (drop 1 rf.log))
    pub next_length : length rf.next_index ≡ rf.peers
    pub match_length : length rf.match_index ≡ rf.peers

  pub applymsg-IsSound :
      (c : ℕ) (rf rf' : Raft C)
      → killed rf ≡ false
      → IsPending c rf
      → applymsg rf ≡ some rf'
      → IsSound rf'
  applymsg-IsSound c rf rf' alive p done =
      let lt = (applymsg-some rf rf' alive (omega arith) done).0 in
      let sent = applymsg_lem rf alive (omega arith) lt in
      subst IsSound (some_inj (sym sent ∙ done)) (record {
        committed = lt;
        caught_up = refl;
        sent = rw (p.sent, p.applied) (announce_resume rf.log c rf.commit_index p.inside p.grown);
        next_length = p.next_length;
        match_length = p.match_length;
      })

  -- What holds of any peer, a dead one included: the service has been sent exactly the entries up to
  -- the last applied one, each once and in order, and a live peer has all committed ones applied.
  pub record IsKept (rf : Raft C) : Type 0 where
    pub inside : rf.last_applied < length rf.log
    pub behind : rf.last_applied ≤ rf.commit_index
    pub sent : rf.apply_msg_ch ≡ announce 1 (take rf.last_applied (drop 1 rf.log))
    pub caught_up : killed rf ≡ false → rf.last_applied ≡ rf.commit_index
    pub next_length : length rf.next_index ≡ rf.peers
    pub match_length : length rf.match_index ≡ rf.peers

  pub IsKept-IsSound : {rf : Raft C} → killed rf ≡ false → IsKept rf → IsSound rf
  IsKept-IsSound {rf} alive k =
      let done = k.caught_up alive in
      record {
        committed = omega (arith, k.inside);
        caught_up = done;
        sent = rw done at k.sent;
        next_length = k.next_length;
        match_length = k.match_length;
      }

  pub IsSound-IsKept : {rf : Raft C} → IsSound rf → IsKept rf
  IsSound-IsKept {rf} s = record {
    inside = omega (arith, s.committed, s.caught_up);
    behind = omega (arith, s.caught_up);
    sent = rw s.caught_up s.sent;
    caught_up = λ alive. s.caught_up;
    next_length = s.next_length;
    match_length = s.match_length;
  }

  pub applymsg-dead : (rf rf' : Raft C) → killed rf ≡ true → applymsg rf ≡ some rf' → rf' ≡ rf
  unfolding applymsg
  applymsg-dead rf rf' dead h = ground arith
