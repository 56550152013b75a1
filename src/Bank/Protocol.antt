-- ===== src/Bank/Protocol.antt =====
-- mp3/server/server.go: the commit of one transaction over the five branches, by the messages of
-- `handleOperation` and `handleBranch`. Connections `0` to `4` lead to the branches and the others to
-- clients. A message is delivered at some time, or never, and one `Read` gives one message. The
-- client asks for the commit once, when none of its requests was refused. What a branch does
-- meanwhile for other transactions is a step of its own.
pub mod Texts
pub mod Sends
pub mod Kept
pub mod Replies
pub mod Requests
pub mod Counting
pub mod Kinds
pub mod Others
pub mod Served
pub mod Received
pub mod Agreement
use cs.Prelude.{
  ℕ, ◌+◌, ◌<◌, ◌≤◌, ◌≡◌, Bool, true, false, Option, none, some, List, [], ◌∷◌, ◌++◌, ltb, update,
  ◌==◌, if◌then◌else◌,
}
use cs.Prelude.Int.{ℤ, pos}
use cs.Prelude.Text.{Text, codes, text_eq, format_int}
use cs.Prelude.Dict.{lookup}
use cs.Bank.Outcome.{returns}
use cs.Bank.State.{Method, Operation, Server, Conn, Event, sent, closed}
use cs.Bank.Commit.{check_commit}
use cs.Bank.Handler.{handle_operation}
use cs.Bank.Branch.{message, ready_count, other_branches, handle_branch}

abbrev pub branches : ℕ
branches = 5

-- `A` to `E`.
abbrev pub branch : ℕ → Text
branch i = (65 + i) ∷ []

pub record Packet : Type 0 where
  pub sender : ℕ
  pub receiver : ℕ
  pub text : Text

-- What branch `i` sends to branches.
unfoldable pub packets : ℕ → List Event → List Packet
packets i [] = []
packets i (closed c ∷ events) = packets i events
packets i (sent c text ∷ events) =
    let rest = packets i events in
    if ltb c branches then record { sender = i; receiver = c; text = text } ∷ rest else rest

-- The branches and the messages under way. The rest is history: whether the coordinator was asked to
-- commit; the branches that `CheckCommit` let through and those that it refused; those whose answer
-- the coordinator has counted; and those that have committed or, for this commit, aborted.
pub record System : Type 0 where
  pub server : ℕ → Server
  pub net : List Packet
  pub begun : Bool
  pub ready : List ℕ
  pub refusing : List ℕ
  pub counted : List ℕ
  pub committed : List ℕ
  pub aborted : List ℕ

abbrev pub commit_request : ℤ → Operation
commit_request ts = record {
  method = Method.commit;
  branch = [];
  account = [];
  amount = pos 0;
  timestamp = ts;
}

-- The messages of the commit.
abbrev pub prepare_text : ℤ → Text
prepare_text = message (codes "COMMIT_PREPARE")

abbrev pub ready_text : ℤ → Text
ready_text = message (codes "COMMIT_READY")

abbrev pub ok_text : ℤ → Text
ok_text = message (codes "COMMIT_OK")

abbrev pub refused_text : ℤ → Text
refused_text = message (codes "ABORTED")

abbrev pub abort_text : ℤ → Text
abort_text = message (codes "ABORT_Coordinator")

-- The text as it is read, with its line end.
abbrev pub line : Text → Text
line text = text ++ 10 ∷ []

-- Work of a branch that is not part of the commit.
pub record Keeps (ts : ℤ) (sv sv' : Server) : Type 0 where
  pub same_me : sv'.me ≡ sv.me
  pub same_name : sv'.name ≡ sv.name
  pub same_conn :
      (n : Text) (k : Conn)
      → lookup n sv'.send_conn ≡ some k
      → k < branches
      → lookup n sv.send_conn ≡ some k
  pub same_count : lookup (format_int ts) sv'.commit_count ≡ lookup (format_int ts) sv.commit_count

pub data Step (ts : ℤ) (c : ℕ) (s : System) : System → Type 0 where
  begins :
      (conn : Conn) (sv : Server) (refused : Bool) (events : List Event)
      → s.begun ≡ false
      → branches ≤ conn
      → handle_operation (commit_request ts) conn (s.server c) ≡ returns (refused, sv, events)
      → Step ts c s (record s {
        server = update s.server c sv;
        net = packets c events ++ s.net;
        begun = true;
        ready = if refused then s.ready else c ∷ s.ready;
        refusing = if refused then c ∷ s.refusing else s.refusing;
        aborted = if refused then c ∷ s.aborted else s.aborted;
      })
  prepares :
      (fuel i j : ℕ) (a b : List Packet) (sv sv' : Server) (ok : Bool) (events : List Event)
      → s.net ≡ a ++ record { sender = i; receiver = j; text = prepare_text ts } ∷ b
      → handle_branch fuel (line (prepare_text ts)) i (s.server j) ≡ returns (sv, events)
      → check_commit ts (s.server j) ≡ returns (ok, sv')
      → Step ts c s (record s {
        server = update s.server j sv;
        net = packets j events ++ a ++ b;
        ready = if ok then j ∷ s.ready else s.ready;
        refusing = if ok then s.refusing else j ∷ s.refusing;
        aborted = if ok then s.aborted else j ∷ s.aborted;
      })
  counts :
      (fuel i j : ℕ) (a b : List Packet) (sv : Server) (events : List Event)
      → s.net ≡ a ++ record { sender = i; receiver = j; text = ready_text ts } ∷ b
      → handle_branch fuel (line (ready_text ts)) i (s.server j) ≡ returns (sv, events)
      → Step ts c s (record s {
        server = update s.server j sv;
        net = packets j events ++ a ++ b;
        counted = i ∷ s.counted;
        committed =
            if ready_count (format_int ts) (s.server j) == other_branches
            then j ∷ s.committed
            else s.committed;
      })
  commits :
      (fuel i j : ℕ) (a b : List Packet) (sv : Server) (events : List Event)
      → s.net ≡ a ++ record { sender = i; receiver = j; text = ok_text ts } ∷ b
      → handle_branch fuel (line (ok_text ts)) i (s.server j) ≡ returns (sv, events)
      → Step ts c s (record s {
        server = update s.server j sv;
        net = packets j events ++ a ++ b;
        committed = j ∷ s.committed;
      })
  gives_up :
      (fuel i j : ℕ) (a b : List Packet) (sv : Server) (events : List Event)
      → s.net ≡ a ++ record { sender = i; receiver = j; text = refused_text ts } ∷ b
      → handle_branch fuel (line (refused_text ts)) i (s.server j) ≡ returns (sv, events)
      → Step ts c s (record s {
        server = update s.server j sv;
        net = packets j events ++ a ++ b;
        aborted = j ∷ s.aborted;
      })
  aborts :
      (fuel i j : ℕ) (a b : List Packet) (sv : Server) (events : List Event)
      → s.net ≡ a ++ record { sender = i; receiver = j; text = abort_text ts } ∷ b
      → handle_branch fuel (line (abort_text ts)) i (s.server j) ≡ returns (sv, events)
      → Step ts c s (record s {
        server = update s.server j sv;
        net = packets j events ++ a ++ b;
        aborted = j ∷ s.aborted;
      })
  works :
      (i : ℕ) (sv : Server)
      → Keeps ts (s.server i) sv
      → Step ts c s (record s { server = update s.server i sv })
