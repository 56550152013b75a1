-- ===== src/Raft/Cluster.antt =====
-- Several peers of mp2/src/raft that exchange messages: each critical section of each peer is a
-- step, in any order, and requests may be lost, repeated and late. Two orders of the code are left out
-- here: a granted vote is counted only while its candidate is in the term of the vote, and
-- `TurnLeader` follows the last vote at once. Raft/Races has what the code does in the others. A vote
-- is counted once, for `startElection` calls `sendvote` once for each peer. `Kill` comes between the
-- handlers, and terms do not outgrow their type.
pub mod Quorum
pub mod Handled
pub mod Fair
pub mod Counted
pub mod Safety
pub mod Firm
pub mod Led
pub mod Elections
pub mod Logs
pub mod Kept
pub mod Matched
pub mod Renewed
pub mod Matching
use cs.Prelude.{
  update, In, ℕ, ◌<◌, ◌≡◌, ◌≢◌, ◌⊎◌, Bool, true, false, Option, none, some, List, [], ◌∷◌, length,
  ◌==◌, if◌then◌else◌,
}
use cs.Raft.State.{
  Raft, Role, LogEntry, is_leader, AppendEntriesArgs, AppendEntriesReply, RequestVoteArgs,
  RequestVoteReply, Intn, killed, make, kill, turn_leader,
}
use cs.Raft.Vote.{request_vote}
use cs.Raft.Append.{append_entries}
use cs.Raft.Leader.{start, heart_beat_args, heart_beat_reply, handle_leader}
use cs.Raft.Election.{check_election_timeout, vote_reply}
use cs.Raft.Peer.{fire_election, fire_heart_beat}
use cs.Raft.Cluster.Quorum.{mem}

-- A vote that was granted.
pub record Ballot : Type 0 where
  pub voter : ℕ
  pub term : ℕ
  pub candidate : ℕ

-- The voter granted the candidate its vote of the term.
abbrev pub Cast : ℕ → ℕ → ℕ → List Ballot → Type 0
Cast q t c [] = ⊥
Cast q t c (b ∷ bs) = ((q ≡ b.voter) × (t ≡ b.term) × (c ≡ b.candidate)) ⊎ Cast q t c bs

-- A peer that was elected, with the voters that it had counted.
pub record Leader : Type 0 where
  pub term : ℕ
  pub peer : ℕ
  pub voters : List ℕ

-- A heartbeat under way, with the log that its sender had.
pub record Sent (C : Type 0) : Type 0 where
  pub receiver : ℕ
  pub args : AppendEntriesArgs C
  pub log : List (LogEntry C)

-- The peers; for each of them the peers whose votes its last election has counted, itself included;
-- the heartbeats on the network. The rest is history, which the code does not keep: the votes
-- granted, the leaders elected, and for each term the last log of its leader.
pub record Cluster (C : Type 0) : Type 0 where
  pub peer : ℕ → Raft C
  pub voters : ℕ → List ℕ
  pub sent : List (Sent C)
  pub ballots : List Ballot
  pub leaders : List Leader
  pub term_log : ℕ → List (LogEntry C)

abbrev pub yes_vote : ℕ → RequestVoteReply
yes_vote t = record { term = t; vote_granted = true }

-- What a peer does by itself, or with a message that changes neither an election nor a log.
pub data Handles {C : Type 0} : Raft C → Raft C → Type 0 where
  denies :
      (intn : Intn) (args : RequestVoteArgs) {rf rf' : Raft C} {reply : RequestVoteReply}
      → request_vote intn args rf ≡ some (rf', reply)
      → reply.vote_granted ≡ false
      → Handles rf rf'
  ignores :
      (command : Option C) {rf : Raft C}
      → is_leader rf.state ≡ false
      → Handles rf (start command rf).0
  loses : (intn : Intn) (n : ℕ) {rf : Raft C} → Handles rf (vote_reply intn none n rf).0
  is_denied :
      (intn : Intn) (term n : ℕ) {rf : Raft C}
      → Handles rf (vote_reply intn (some (record { term = term; vote_granted = false })) n rf).0
  hears :
      (intn : Intn) (peer : ℕ) (reply : Option AppendEntriesReply) {rf rf' : Raft C}
      → heart_beat_reply intn peer reply rf ≡ some rf'
      → Handles rf rf'
  beats : {rf : Raft C} → Handles rf (handle_leader rf)
  election_fires : {rf : Raft C} → Handles rf (fire_election rf)
  heart_beat_fires : {rf : Raft C} → Handles rf (fire_heart_beat rf)
  dies : {rf : Raft C} → Handles rf (kill rf)

pub data Step {C : Type 0} (n : ℕ) (s : Cluster C) : Cluster C → Type 0 where
  handles :
      (i : ℕ) {rf : Raft C}
      → i < n
      → Handles (s.peer i) rf
      → Step n s (record s { peer = update s.peer i rf })
  grants :
      (i : ℕ) (intn : Intn) (args : RequestVoteArgs) {rf : Raft C} {reply : RequestVoteReply}
      → i < n
      → args.candidate_id ≢ i
      → request_vote intn args (s.peer i) ≡ some (rf, reply)
      → reply.vote_granted ≡ true
      → Step n s (record s {
        peer = update s.peer i rf;
        ballots = record { voter = i; term = args.term; candidate = args.candidate_id } ∷ s.ballots;
      })
  times_out :
      (i : ℕ) (intn : Intn) {rf : Raft C}
      → i < n
      → check_election_timeout intn (s.peer i) ≡ (rf, true)
      → Step n s (record s { peer = update s.peer i rf; voters = update s.voters i (i ∷ []) })
  counts :
      (i q : ℕ) (intn : Intn) {rf : Raft C} {votes : ℕ}
      → i < n
      → q < n
      → killed (s.peer i) ≡ false
      → (s.peer i).state ≡ Role.candidate
      → Cast q (s.peer i).current_term i s.ballots
      → mem q (s.voters i) ≡ false
      → vote_reply intn (some (yes_vote (s.peer i).current_term)) (length (s.voters i)) (s.peer i)
        ≡ (rf, votes, false)
      → Step n s
          (record s { peer = update s.peer i rf; voters = update s.voters i (q ∷ s.voters i) })
  wins :
      (i q : ℕ) (intn : Intn) {rf : Raft C} {votes : ℕ}
      → i < n
      → q < n
      → killed (s.peer i) ≡ false
      → (s.peer i).state ≡ Role.candidate
      → Cast q (s.peer i).current_term i s.ballots
      → mem q (s.voters i) ≡ false
      → vote_reply intn (some (yes_vote (s.peer i).current_term)) (length (s.voters i)) (s.peer i)
        ≡ (rf, votes, true)
      → Step n s (record s {
        peer = update s.peer i (turn_leader rf);
        voters = update s.voters i (q ∷ s.voters i);
        leaders =
            record { term = (s.peer i).current_term; peer = i; voters = q ∷ s.voters i }
            ∷ s.leaders;
        term_log = update s.term_log (s.peer i).current_term (s.peer i).log;
      })
  starts :
      (i : ℕ) (command : Option C)
      → i < n
      → (s.peer i).state ≡ Role.leader
      → Step n s (record s {
        peer = update s.peer i (start command (s.peer i)).0;
        term_log = update s.term_log (s.peer i).current_term (start command (s.peer i)).0.log;
      })
  sends :
      (i p : ℕ) {args : AppendEntriesArgs C}
      → i < n
      → p ≢ i
      → heart_beat_args p (s.peer i) ≡ some (some args)
      → Step n s
          (record s { sent = record { receiver = p; args = args; log = (s.peer i).log } ∷ s.sent })
  appends :
      (i : ℕ) (intn : Intn) (m : Sent C) {rf : Raft C} {reply : AppendEntriesReply}
      → i < n
      → In m s.sent
      → m.receiver ≡ i
      → append_entries intn m.args (s.peer i) ≡ some (rf, reply)
      → Step n s (record s { peer = update s.peer i rf })

abbrev pub initial : {C : Type 0} → Intn → ℕ → Cluster C
initial intn n = record {
  peer = λ i. make intn n i;
  voters = λ i. [];
  sent = [];
  ballots = [];
  leaders = [];
  term_log = λ t. record { term = 0; command = none } ∷ [];
}

-- The states that `n` peers can reach from their start.
pub data Reach {C : Type 0} (intn : Intn) (n : ℕ) : Cluster C → Type 0 where
  begin : Reach intn n (initial intn n)
  then_ : {s s' : Cluster C} → Reach intn n s → Step n s s' → Reach intn n s'
