-- ===== src/Raft/Tests.antt =====
-- Runs of the peer on small states, with commands that are numbers.
use cs.Prelude.{
  ℕ, ◌+◌, ◌≤◌, ◌<◌, ◌≡◌, refl, true, false, none, some, List, [], ◌∷◌, get_elem?, take, drop, arith,
}
use cs.Prelude.Int.{pos}
use cs.Raft.State.{
  Role, Intn, LogEntry, ApplyMsg, Raft, RequestVoteArgs, RequestVoteReply, AppendEntriesArgs,
  AppendEntriesReply, new_timer, make, kill, turn_leader,
}
use cs.Raft.Apply.{applymsg, apply_loop}
use cs.Raft.Apply.Order.{announce, applymsg_lem}
use cs.Raft.Vote.{request_vote}
use cs.Raft.Vote.Grant.{IsGranted, request_vote-IsGranted}
use cs.Raft.Append.{install, find_point, step_down, accept, check_prev, append_entries}
use cs.Raft.Append.Merge.{overwrite, terms, install-eq-overwrite, install-terms, find_point-ge}
use cs.Raft.Append.Answer.{IsAccepted, append_entries-IsAccepted, append_entries-refused}
use cs.Raft.Leader.{start, advance, record_success, heart_beat_reply}
use cs.Raft.Leader.Majority.{IsHighest, advance-IsHighest}
use cs.Raft.Election.{check_election_timeout, vote_reply}
use cs.Raft.Sound.Defs.{IsSound, IsKept}
use cs.Raft.Sound.Handlers.{RespectsCommitted}
use cs.Raft.Sound.Returns.{Returns, append_entries-Returns}
use cs.Raft.Peer.{
  Step, Reach, made, next, votes, election_fires, times_out, counts, leads, restarts, appends, dies,
  starts, hears, fire_election,
}
use cs.Raft.Peer.Invariant.{Reach-IsKept}
use cs.Raft.Peer.Terms.{TermStep, Step-terms}
use cs.Raft.Peer.Votes.{stays, steps, one_vote_per_term}
use cs.Raft.Maintain.{Place, maintain, at_once, asked, then_}
use cs.Raft.Maintain.Waits.{maintain-waits}
use cs.Raft.Races.{
  stale_vote_leads, append_entries-forgets_vote, turn_leader-newer_term,
  heart_beat_reply-overcounts,
}

abbrev lowest : Intn
lowest = λ n. 0

abbrev blank : LogEntry ℕ
blank = record { term = 0; command = none }

abbrev entry : ℕ → ℕ → LogEntry ℕ
entry t c = record { term = t; command = some c }

abbrev old_log : List (LogEntry ℕ)
old_log = blank ∷ entry 1 10 ∷ entry 1 11 ∷ entry 1 12 ∷ []

abbrev new_log : List (LogEntry ℕ)
new_log = blank ∷ entry 1 10 ∷ entry 1 11 ∷ entry 2 20 ∷ []

abbrev new_entries : List (LogEntry ℕ)
new_entries = entry 1 11 ∷ entry 2 20 ∷ []

-- The last old entry gives way to the leader's.
install-eq-overwrite_example : install old_log 1 new_entries ≡ new_log
unfolding overwrite
install-eq-overwrite_example = install-eq-overwrite old_log 1 new_entries (omega arith)

install-terms_example : terms (take 2 (drop 2 (install old_log 1 new_entries))) ≡ 1 ∷ 2 ∷ []
install-terms_example = install-terms old_log 1 new_entries (omega arith)

abbrev peer : Raft ℕ
peer = record {
  peers = 3;
  me = 0;
  dead = 0;
  state = Role.follower;
  current_term = 1;
  voted_for = some 1;
  log = old_log;
  commit_index = 0;
  last_applied = 0;
  next_index = pos 1 ∷ pos 1 ∷ pos 1 ∷ [];
  match_index = 0 ∷ 0 ∷ 0 ∷ [];
  apply_msg_ch = [];
  election_timer = new_timer 200;
  heart_beat_timer = record { running = false; tick = false; duration = 150 };
}

abbrev append : AppendEntriesArgs ℕ
append = record {
  term = 2;
  leader_id = 2;
  prev_log_index = pos 1;
  prev_log_term = 1;
  entries = new_entries;
  leader_commit = 2;
}

abbrev applied : ℕ → ℕ → ApplyMsg ℕ
applied c i = record { command_valid = true; command = some c; command_index = i }

abbrev after_append : Raft ℕ
after_append = record peer {
  current_term = 2;
  voted_for = none;
  log = new_log;
  commit_index = 2;
  last_applied = 2;
  apply_msg_ch = applied 10 1 ∷ applied 11 2 ∷ [];
}

append_entries-IsAccepted_example : IsAccepted append peer after_append
unfolding append_entries check_prev step_down accept install find_point applymsg apply_loop
append_entries-IsAccepted_example =
    append_entries-IsAccepted lowest append peer after_append (record { term = 0; success = true })
      refl refl

-- The previous entry has another term.
abbrev clash : AppendEntriesArgs ℕ
clash = record append { prev_log_term = 2 }

abbrev after_clash : Raft ℕ
after_clash = record peer { current_term = 2; voted_for = none }

append_entries-refused_example :
    (after_clash.log ≡ peer.log)
    × (after_clash.commit_index ≡ peer.commit_index)
    × (after_clash.apply_msg_ch ≡ peer.apply_msg_ch)
    × (2 ≡ after_clash.current_term)
    × (peer.current_term ≤ after_clash.current_term)
unfolding append_entries check_prev step_down accept install find_point applymsg apply_loop
append_entries-refused_example =
    append_entries-refused lowest clash peer after_clash (record { term = 2; success = false }) refl
      refl refl

peer-IsSound : IsSound peer
unfolding announce
peer-IsSound = record {
  committed = omega arith;
  caught_up = refl;
  sent = refl;
  next_length = refl;
  match_length = refl;
}

append-RespectsCommitted : RespectsCommitted append peer
append-RespectsCommitted prev at point found =
    omega (arith, find_point-ge old_log (prev + 1) new_entries found)

append_entries-Returns_example : Returns (append_entries lowest append peer)
append_entries-Returns_example =
    append_entries-Returns lowest append 1 peer peer-IsSound refl append-RespectsCommitted
      (omega arith)

abbrev request : RequestVoteArgs
request = record { term = 3; candidate_id = 2; last_log_index = 3; last_log_term = 1 }

abbrev after_vote : Raft ℕ
after_vote = record peer { current_term = 3; voted_for = some 2 }

abbrev granted : ℕ → RequestVoteReply
granted t = record { term = t; vote_granted = true }

request_vote-IsGranted_example : IsGranted request peer after_vote (granted 3)
unfolding request_vote
request_vote-IsGranted_example =
    request_vote-IsGranted lowest request peer after_vote (granted 3) refl refl

-- The same candidate asks again in its term, after a heartbeat of an old leader was refused and a
-- tick of the election timer was sent.
one_vote_per_term_example : request.candidate_id ≡ 2
unfolding request_vote append_entries
one_vote_per_term_example =
    one_vote_per_term lowest lowest request request peer after_vote (fire_election after_vote)
      after_vote (granted 3) (granted 3) refl refl
      (steps
        (steps stays refl
          (appends lowest append {reply = record { term = 3; success = false }} refl))
        refl election_fires)
      refl refl refl

vote-Step : Step peer after_vote
unfolding request_vote
vote-Step = votes lowest request refl

Step-terms_example : TermStep peer after_vote
Step-terms_example = Step-terms vote-Step

-- Of five positions, two of three peers have the first three.
advance-IsHighest_example : IsHighest 3 (5 ∷ 3 ∷ 1 ∷ []) 1 5 3
unfolding advance
advance-IsHighest_example = advance-IsHighest 3 (5 ∷ 3 ∷ 1 ∷ []) 1 5

abbrev to_apply : Raft ℕ
to_apply = record peer { commit_index = 3; last_applied = 1 }

applymsg_example :
    applymsg to_apply
    ≡ some (record to_apply { last_applied = 3; apply_msg_ch = applied 11 2 ∷ applied 12 3 ∷ [] })
unfolding announce
applymsg_example = applymsg_lem to_apply refl (omega arith) (omega arith)

-- A peer that is elected, leads, starts a command and commits it.
abbrev started : Raft ℕ
started = make lowest 3 0

abbrev timed_out : Raft ℕ
timed_out = (check_election_timeout lowest (fire_election started)).0

abbrev elected : Raft ℕ
elected = (vote_reply lowest (some (granted 1)) 1 timed_out).0

abbrev leading : Raft ℕ
leading = (start (some 7) (turn_leader elected)).0

abbrev committed : Raft ℕ
committed = record leading {
  next_index = pos 2 ∷ pos 2 ∷ pos 1 ∷ [];
  match_index = 1 ∷ 1 ∷ 0 ∷ [];
  commit_index = 1;
  last_applied = 1;
  apply_msg_ch = applied 7 1 ∷ [];
}

abbrev success : AppendEntriesReply
success = record { term = 0; success = true }

replied : heart_beat_reply lowest 1 (some success) leading ≡ some committed
unfolding heart_beat_reply start turn_leader vote_reply check_election_timeout make record_success
    applymsg apply_loop advance
replied = refl

reached : Reach lowest 3 0 committed
unfolding make turn_leader
reached =
    next
      (next
        (next
          (next
            (next (next (next made election_fires tt) (times_out lowest (omega arith)) tt)
              (counts lowest (some (granted 1)) 1) tt)
            leads tt)
          restarts tt)
        (starts (some 7)) tt)
      (hears lowest 1 (some success) replied) tt

Reach-IsKept_example : IsKept committed
Reach-IsKept_example = Reach-IsKept reached

stale_vote_leads_example :
    let second = (check_election_timeout lowest (fire_election timed_out)).0 in
    let (after, n, goes_on) = vote_reply lowest (some (granted timed_out.current_term)) 1 second in
    (timed_out.current_term < after.current_term) × (after.state ≡ Role.leader) × (goes_on ≡ true)
unfolding make
stale_vote_leads_example = stale_vote_leads lowest 1 started refl (omega arith)

-- A candidate of term 1.
abbrev candidate : Raft ℕ
candidate = record peer { state = Role.candidate; voted_for = some 0 }

abbrev heard : AppendEntriesArgs ℕ
heard = record append { term = 1; entries = []; leader_commit = 0 }

abbrev after_heard : Raft ℕ
after_heard = record peer { voted_for = none }

append_entries-forgets_vote_example :
    (after_heard.voted_for ≡ none) × (after_heard.current_term ≡ 1)
unfolding append_entries check_prev step_down accept install find_point applymsg apply_loop
append_entries-forgets_vote_example =
    append_entries-forgets_vote lowest heard candidate after_heard success refl refl refl refl

abbrev winner : Raft ℕ
winner = record peer { state = Role.leader; voted_for = some 0 }

turn_leader-newer_term_example :
    (after_vote.state ≡ Role.follower)
    × ((turn_leader after_vote).state ≡ Role.leader)
    × ((turn_leader after_vote).current_term ≡ 3)
unfolding request_vote
turn_leader-newer_term_example =
    turn_leader-newer_term lowest request winner after_vote (granted 3) refl refl (omega arith) refl

heart_beat_reply-overcounts_example :
    get_elem? committed.match_index 1 ≡ (start (some 7) (turn_leader elected)).1.0
unfolding make check_election_timeout vote_reply turn_leader start
heart_beat_reply-overcounts_example =
    heart_beat_reply-overcounts lowest 1 (some 7) success (turn_leader elected) committed refl refl
      (omega arith) (omega arith) refl replied

-- The leader waits for its next heartbeat.
abbrev waiting : Raft ℕ
waiting = record winner { heart_beat_timer = new_timer 150 }

abbrev demoted : Raft ℕ
demoted = record (fire_election after_vote) { dead = 1 }

maintain-waits_example :
    (demoted.state ≡ Role.follower)
    × (maintain lowest Place.in_handle_leader demoted ≡ (Place.in_handle_leader, demoted))
unfolding request_vote kill
maintain-waits_example =
    maintain-waits lowest lowest waiting after_vote demoted refl refl
      (asked request {reply = granted 3} refl refl)
      (then_ (then_ at_once election_fires tt) dies tt)
