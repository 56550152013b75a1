-- ===== src/Bank/Config.antt =====
-- mp3/server/server.go and mp3/client/client.go: `readFromConfig`, for the lines of the file, and
-- who is at the other end of a new connection, `judgeClient`. `none` is a panic. The order in which
-- `range` visits the map `lookup` is an argument.
pub mod Lines
pub mod Judge
use cs.Prelude.{
  ℕ, Bool, true, false, Option, none, some, List, [], ◌∷◌, ◌++◌, take, ◌&&◌, if◌then◌else◌,
}
use cs.Prelude.Int.{ℤ, pos, eqb_ℤ}
use cs.Prelude.Text.{Text, codes, text_eq, split, parse_int}
use cs.Prelude.Dict.{Dict, lookup, insert}

-- `arr[0]`, `arr[1]` and `arr[2]` of a line.
unfoldable pub config_words : Text → Option (Text × Text × Text)
unfolding split
config_words line = elim (split line 32) [ a ∷ b ∷ c ∷ rest ↦ some (a, b, c) | _ ↦ none ]

-- The maps `address` and `port` of a client.
pub record Addresses : Type 0 where
  pub address : Dict Text
  pub port : Dict Text

-- `readFromConfig` of client.go.
unfoldable pub read_addresses : List Text → Addresses → Option Addresses
unfolding config_words
read_addresses [] maps = some maps
read_addresses (line ∷ lines) maps = elim (config_words line) [
  | none ↦ none
  | some (a, b, c) ↦
      read_addresses lines
        (record { address = insert a b maps.address; port = insert a c maps.port })
]

-- `IP`
pub record Ip : Type 0 where
  pub x : Text
  pub y : Text

abbrev pub ip_eq : Ip → Ip → Bool
ip_eq a b = text_eq a.x b.x && text_eq a.y b.y

unfoldable pub insert_name : Ip → Text → List (Ip × Text) → List (Ip × Text)
insert_name k v [] = (k, v) ∷ []
insert_name k v ((j, w) ∷ m) =
    let rest = insert_name k v m in if ip_eq j k then (k, v) ∷ m else (j, w) ∷ rest

-- The maps that the configuration of a server fills.
pub record Config : Type 0 where
  pub maps : Addresses
  pub name : List (Ip × Text)

-- `readFromConfig` of server.go.
unfoldable pub read_from_config : List Text → Config → Option Config
unfolding config_words insert_name
read_from_config [] c = some c
read_from_config (line ∷ lines) c = elim (config_words line) [
  | none ↦ none
  | some (n, a, p) ↦ read_from_config lines (record {
    maps = record { address = insert n a c.maps.address; port = insert n p c.maps.port };
    name = insert_name (record { x = a; y = p }) n c.name;
  })
]

-- The map `lookup`: the port from which a branch dials another.
abbrev pub lookup_ports : Dict ℕ
lookup_ports =
    (codes "AB", 10012)
    ∷ (codes "AC", 10013)
    ∷ (codes "AD", 10014)
    ∷ (codes "AE", 10015)
    ∷ (codes "BA", 10021)
    ∷ (codes "BC", 10023)
    ∷ (codes "BD", 10024)
    ∷ (codes "BE", 10025)
    ∷ (codes "CA", 10031)
    ∷ (codes "CB", 10032)
    ∷ (codes "CD", 10034)
    ∷ (codes "CE", 10035)
    ∷ (codes "DA", 10041)
    ∷ (codes "DB", 10042)
    ∷ (codes "DC", 10043)
    ∷ (codes "DE", 10045)
    ∷ (codes "EA", 10051)
    ∷ (codes "EB", 10052)
    ∷ (codes "EC", 10053)
    ∷ (codes "ED", 10054)
    ∷ []

-- `lookup[sv.me+name]`, the local port that `build_branches` dials from; 0 for a missing key.
unfoldable pub dial_port : Text → Text → ℕ
dial_port me name = elim (lookup (me ++ name) lookup_ports) [ none ↦ 0 | some port ↦ port ]

-- The loop over `lookup`.
unfoldable pub judge_port : Dict ℕ → ℤ → Bool × Text
judge_port [] intport = (true, [])
judge_port ((names, port) ∷ order) intport = elim (eqb_ℤ (pos port) intport) [
  | true ↦ (false, take 1 names)
  | false ↦ judge_port order intport
]

-- Whether the connection from an address is a client's, and the branch if it is not.
unfoldable pub judge_client : Dict ℕ → Text → Option (Bool × Text)
unfolding split parse_int judge_port
judge_client order addr = elim (split addr b':') [
  | host ∷ strport ∷ rest ↦ elim (parse_int strport) [
    | none ↦ none
    | some intport ↦ some (judge_port order intport)
  ]
  | _ ↦ none
]
