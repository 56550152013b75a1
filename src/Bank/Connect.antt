-- ===== src/Bank/Connect.antt =====
-- mp3/server/server.go `start_listen`, `build_branches`, `connect_client` and the start of `main`;
-- mp3/client/client.go `connect_server`. What the dials and `Accept` return is an argument: for an
-- address and the local port to dial from, the results of the attempts one after another. The
-- orders in which `range` visits the maps are arguments too. The local IP of a dial is left out.
pub mod Accepts
pub mod Wired
pub mod Meets
use cs.Prelude.{
  ℕ, suc, Bool, true, false, Option, none, some, List, [], ◌∷◌, ◌++◌, ◌==◌, map, if◌then◌else◌,
}
use cs.Prelude.Text.{Text, codes, text_eq, split}
use cs.Prelude.Dict.{Dict, lookup, lookup_or, insert}
use cs.Bank.Outcome.{Outcome, returns, panics, waits, ◌>>=◌, or_panic}
use cs.Bank.State.{Server, Conn, Event, closed}
use cs.Bank.Config.{Ip, Addresses, Config, read_from_config, dial_port, judge_client}
use cs.Bank.Client.{random}

-- `strings.Join([]string{address, port}, ":")`
abbrev pub join_port : Text → Text → Text
join_port address port = address ++ b':' ∷ port

-- The address and the port of a branch, where a missing key reads as the empty text.
abbrev pub address_of : Text → Addresses → Text
address_of name maps = join_port (lookup_or [] name maps.address) (lookup_or [] name maps.port)

-- Where `start_listen` listens.
abbrev pub listen_address : Text → Addresses → Text
listen_address = address_of

-- The results of dialing an address from a local port; from port 0 the system chooses one.
abbrev pub Dials : Type 0
Dials = Text → ℕ → List (Option Conn)

-- Dialing until it succeeds.
unfoldable pub dial_until : List (Option Conn) → Outcome Conn
dial_until [] = waits
dial_until (none ∷ attempts) = dial_until attempts
dial_until (some c ∷ attempts) = returns c

-- The loop of `build_branches` that dials every other branch.
unfoldable pub dial_branches :
    Dials → Text → Addresses → List Text → Dict Conn → Outcome (Dict Conn)
dial_branches dials me maps [] conns = returns conns
dial_branches dials me maps (name ∷ names) conns = elim (text_eq name me) [
  | true ↦ dial_branches dials me maps names conns
  | false ↦ dial_until (dials (address_of name maps) (dial_port me name)) >>= λ c.
      dial_branches dials me maps names (insert name c conns)
]

-- A connection that `Accept` returns, with the address of its other end.
abbrev pub Accepted : Type 0
Accepted = Text × Conn

-- The loop of `build_branches` that accepts the other branches; `none` is an error of `Accept`.
unfoldable pub accept_branches :
    Dict ℕ → ℕ → List (Option Accepted) → Dict Conn → Outcome (Dict Conn × List Event)
accept_branches order count [] conns = waits
accept_branches order count (none ∷ rest) conns = panics
accept_branches order count (some (addr, c) ∷ rest) conns =
    or_panic (judge_client order addr) >>= λ (is_client, name).
    let count' = if is_client then count else suc count in
    let conns' = if is_client then conns else insert name c conns in
    let events = if is_client then closed c ∷ [] else [] in
    let next = accept_branches order count' rest conns' in
    if count' == 4 then returns (conns', events) else (next >>= λ r. returns (r.0, events ++ r.1))

-- What `build_branches` finds: the order of the map `address`, that of `lookup`, and the network.
pub record Network : Type 0 where
  pub names : List Text
  pub order : Dict ℕ
  pub dials : Dials
  pub accepted : List (Option Accepted)

unfoldable pub build_branches : Network → Addresses → Server → Outcome (Server × List Event)
build_branches net maps sv = do
  send ← dial_branches net.dials sv.me maps net.names sv.send_conn
  (read, events) ← accept_branches net.order 0 net.accepted sv.read_conn
  returns (record sv { send_conn = send; read_conn = read }, events)

-- The maps of `main` before the configuration is read.
abbrev pub no_config : Config
no_config = record { maps = record { address = []; port = [] }; name = [] }

-- `main` up to the loop that accepts clients, for the name of the branch and the lines of the file.
unfoldable pub start_server : Text → List Text → Network → Outcome (Server × List Event)
start_server me lines net = or_panic (read_from_config lines no_config) >>= λ c.
    build_branches net c.maps (record {
      me = me;
      accounts = [];
      send_conn = [];
      read_conn = [];
      tw = [];
      rts = [];
      name = map (λ (e : Ip × Text). e.1) c.name;
      commit_count = [];
    })

-- The calls of `handleBranch` that `main` starts, with their connections; a missing one is nil.
unfoldable pub start_handlers : Server → List Text → List (Text × Option Conn × Option Conn)
start_handlers sv [] = []
start_handlers sv (name ∷ names) =
    let rest = start_handlers sv names in
    if text_eq name sv.me
    then rest
    else (name, lookup name sv.read_conn, lookup name sv.send_conn) ∷ rest

-- `strings.Split(addr, ":")[0]`
abbrev pub host_of : Text → Text
host_of addr = elim (split addr b':') [ [] ↦ [] | host ∷ parts ↦ host ]

abbrev pub client_port : Text
client_port = codes "10050"

-- A client's connection, and the one back to it.
unfoldable pub connect_client : Option Accepted → Dials → Outcome (Conn × Conn)
connect_client none dials = panics
connect_client (some (addr, read)) dials = do
  send ← dial_until (dials (join_port (host_of addr) client_port) 0)
  returns (read, send)

-- The address of the coordinator, for the number of `rand.Intn`, which `connect_server` dials.
unfoldable pub coordinator_address : ℕ → Addresses → Option Text
coordinator_address num maps = elim (random num) [
  | none ↦ none
  | some name ↦ some (address_of name maps)
]

-- `connect_server`: the connection to the coordinator and the one that it opens back. Listening
-- or accepting may fail.
unfoldable pub connect_server : ℕ → Addresses → Dials → Bool → Option Conn → Outcome (Conn × Conn)
connect_server num maps dials listens accepted = do
  addr ← or_panic (coordinator_address num maps)
  send ← dial_until (dials addr 0)
  if listens then (or_panic accepted >>= λ read. returns (send, read)) else panics
