-- ===== src/Raft/Elected.antt =====
-- A run of three peers: peer 0 is elected by peer 1, starts a command and sends it to peer 1.
use cs.Prelude.{ℕ, ◌≡◌, refl, inl, inr, some, take, arith}
use cs.Raft.State.{Intn, RequestVoteArgs, make, turn_leader}
use cs.Raft.Apply.{applymsg, apply_loop}
use cs.Raft.Vote.{request_vote}
use cs.Raft.Append.{install, find_point, step_down, accept, check_prev, append_entries}
use cs.Raft.Leader.{start, heart_beat_args, entries_from}
use cs.Raft.Election.{check_election_timeout, vote_reply}
use cs.Raft.Cluster.{
  Cluster, handles, election_fires, grants, times_out, wins, starts, sends, appends, Reach, begin,
  then_, initial, Step,
}
use cs.Raft.Cluster.Quorum.{mem}
use cs.Raft.Cluster.Elections.{election_safety}
use cs.Raft.Cluster.Matching.{log_matching}

abbrev zeros : Intn
zeros = λ n. 0

abbrev Next : Cluster ℕ → Type 0
Next s = (s' : Cluster ℕ) × Step 3 s s'

abbrev ballot_paper : RequestVoteArgs
ballot_paper = record { term = 1; candidate_id = 0; last_log_index = 0; last_log_term = 0 }

unfoldable ticked : Next (initial zeros 3)
unfolding make
ticked = (_, handles 0 (omega arith) election_fires)

unfoldable asks : Next ticked.0
unfolding check_election_timeout make ticked
asks = (_, times_out 0 zeros (omega arith) refl)

unfoldable granted : Next asks.0
unfolding request_vote make ticked asks
granted = (_, grants 1 zeros ballot_paper (omega arith) (λ e. omega arith) refl refl)

unfoldable won : Next granted.0
unfolding vote_reply make ticked asks granted mem check_election_timeout request_vote
won = (_, wins 0 1 zeros (omega arith) (omega arith) refl refl (inl (refl, refl, refl)) refl refl)

unfoldable started : Next won.0
unfolding make ticked asks granted won start turn_leader vote_reply check_election_timeout
    request_vote
started = (_, starts 0 (some 10) (omega arith) refl)

unfoldable sent : Next started.0
unfolding make ticked asks granted won started start turn_leader vote_reply check_election_timeout
    request_vote heart_beat_args entries_from
sent = (_, sends 0 1 (omega arith) (λ e. omega arith) refl)

unfoldable appended : Next sent.0
unfolding make ticked asks granted won started sent start turn_leader vote_reply
    check_election_timeout request_vote heart_beat_args entries_from append_entries step_down
    check_prev accept applymsg apply_loop install find_point
appended = (_, appends 1 zeros _ (omega arith) (inl refl) refl refl)

run : Reach zeros 3 appended.0
run =
    then_
      (then_ (then_ (then_ (then_ (then_ (then_ begin ticked.1) asks.1) granted.1) won.1) started.1)
        sent.1)
      appended.1

election_safety_example : ◌≡◌ {A = ℕ} 0 0
unfolding make ticked asks granted won started sent appended start turn_leader vote_reply
    check_election_timeout request_vote
election_safety_example =
    election_safety 1 0 0 run (inl (refl, refl)) (inr (_, inl refl, refl, refl))

log_matching_example : take 2 (appended.0.peer 0).log ≡ take 2 (appended.0.peer 1).log
unfolding make ticked asks granted won started sent appended start turn_leader vote_reply
    check_election_timeout request_vote append_entries step_down check_prev accept applymsg
    apply_loop install find_point heart_beat_args entries_from
log_matching_example =
    log_matching 0 1 1 (record { term = 1; command = some 10 })
      (record { term = 1; command = some 10 }) run refl refl refl
