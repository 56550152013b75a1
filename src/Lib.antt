-- ===== src/Lib.antt =====
-- A model of the Go programs of this repository: the Raft peer of mp2 and the bank of mp3.
--
-- Raft (mp2/src/raft/raft.go, util.go). A peer keeps a term, a vote, a log, a commit index and
-- two timers; it answers `RequestVote` and `AppendEntries`, runs elections, and as a leader
-- sends heartbeats and counts replies. Raft/State has the peer and its changes of role,
-- Raft/Vote `RequestVote`, Raft/Append `AppendEntries`, Raft/Leader `Start`, `sendHeartBeat`
-- and `handleLeader`, Raft/Election `checkElectionTimeout`, `startElection` and `sendvote`,
-- Raft/Apply `applymsg`. Each critical section is a function of the state; Raft/Peer makes
-- them the steps of a transition system, in any order, with the messages, replies, ticks and
-- random numbers chosen by the environment. `Kill` takes no lock: the rest of a handler that
-- it landed in is a step of its own. Raft/Maintain has the loop `maintain` and where it waits.
-- Terms are natural numbers, and the steps start no election in the last term that an `int`
-- holds. A panic is `none`. Raft/Sound has the invariant, Raft/Races orders of steps that the
-- locks allow. Raft/Cluster has several peers: their critical sections in any order, with
-- messages that may be lost, late and repeated, of which two orders are left out, `Kill` comes
-- between the handlers, and a vote counts once; its lists of votes, of leaders and of the logs
-- of the terms are history, which no handler reads. The model takes slices as values: a
-- request's entries are copied on their way through labrpc.
--
-- The bank (mp3/server/server.go). Five branch servers hold accounts; a client's coordinator
-- runs its requests or sends them to the branch of the account, and commits in two phases. A
-- branch orders transactions by timestamps, with the tentative writes of TW and the reads of
-- RTS. Bank/State has the server, Bank/Write the write rule, Bank/Read the read rule,
-- Bank/Abort `DoAbort`, Bank/Commit `CheckCommit` and `DoCommit`, Bank/Init the parser of
-- requests, Bank/Handler `handleOperation` and `handleConnection`, Bank/Branch `handleBranch`,
-- Bank/Config `readFromConfig` and `judgeClient`, Bank/Connect `start_listen`,
-- `build_branches`, `connect_client`, `main` and the client's `connect_server`, for what the
-- dials and `Accept` return. Bank/Client has the client (mp3/client/client.go), which gives
-- each request its timestamp and sends it to the coordinator as a line. A call ends in an
-- `Outcome` (Bank/Outcome); what it sends is a list of events. A function that holds a lock is
-- one step. A Go map is an association list in the order in which `range` visits it, which the
-- theorems leave open.
--
-- Bank/Protocol has the five branches together for one transaction that is to be committed:
-- the commit request at its coordinator, and every branch's `handleBranch` for the messages of
-- the commit, in any order of delivery. Connections 0 to 4 lead to the branches. A message may
-- be late or never arrive, but is not doubled, and one `Read` gives one message; the client
-- asks for the commit once and none of its requests was refused; other work of a branch is a
-- step that keeps its connections and this commit's counter (Protocol/Served and
-- Protocol/Received look at the rounds of a coordinator and of a branch for other
-- transactions). What has been promised, counted, committed and aborted is history, which no
-- handler reads.
--
-- Prelude has what both share: lists, Go's 64-bit integers with their wrap-around, texts as
-- lists of codes with `strings.Fields`, `strings.Split`, `strings.TrimSpace` and `strconv`,
-- and maps.
--
-- Fuel. The loops of `DoAbort` get the length of their list and one, which is enough, for each
-- round deletes an entry or moves on. The loops of `DoCommit` take their rounds as an
-- argument: above the length of every list it is enough where no entry is later than the
-- transaction; with a later entry the code's loop stands still, which `loops` stands for. A
-- number of 64 bits has up to 19 digits, so 20 digits are enough to print it.
--
-- Not modelled: labrpc and labgob (copies of another project's libraries: a call is a reply
-- that comes or does not), the test harness (mp2/src/raft/config.go, test_test.go), sockets
-- and files themselves, the check of the number of arguments in both `main`s, `wait_response`
-- and `handleServer` of the client (which nothing calls), the splitting of a stream of bytes
-- into the texts that `Read` returns, printing, and the Python programs of mp0 and mp1.
pub mod Prelude
pub mod Raft
pub mod Bank
