-- ===== src/Bank/Started.antt =====
-- Branch `A` of five starts, and a client is early.

use cs.Prelude.{
  ℕ, ◌+◌, ◌-◌, ◌≡◌, refl, sym, ◌∙◌, ap, true, false, none, some, List, [], ◌∷◌, ◌++◌, map, In,
  Bool-cases, inl, inr, arith,
}
use cs.Prelude.Text.{Text, codes, text_eq, text_eq→eq, split}
use cs.Prelude.Dict.{Dict, lookup, lookup_or, insert}
use cs.Bank.Outcome.{returns}
use cs.Bank.State.{Server, Conn, Event, closed}
use cs.Bank.Config.{lookup_ports, judge_client, read_from_config, config_words, insert_name, Config}
use cs.Bank.Handler.{broadcast}
use cs.Bank.Connect.{
  Accepted, Dials, address_of, join_port, dial_until, dial_branches, accept_branches, Network,
  build_branches, no_config, start_server,
}
use cs.Bank.Connect.Accepts.{from_branches, from_clients, insert_all, accept_branches_lem}
use cs.Bank.Connect.Wired.{start_server-IsWired}
use cs.Bank.Protocol.{branch}
use cs.Bank.Protocol.Sends.{IsWired, has_text}

abbrev early : List Accepted
early =
    (codes "h:10021", 11)
    ∷ (codes "h:50000", 99)
    ∷ (codes "h:10031", 12)
    ∷ (codes "h:10041", 13)
    ∷ []

accept_branches_lem_example :
    accept_branches lookup_ports 0 (map some early ++ some (codes "h:10051", 14) ∷ []) []
    ≡ returns
        ((codes "B", 11) ∷ (codes "C", 12) ∷ (codes "D", 13) ∷ (codes "E", 14) ∷ [], closed 99 ∷ [])
unfolding from_branches from_clients insert_all insert text_eq judge_client
accept_branches_lem_example =
    accept_branches_lem lookup_ports early (codes "h:10051") (codes "E") 14 [] []
      ((_, _, refl), ((_, _, refl), ((_, _, refl), ((_, _, refl), tt)))) refl refl

abbrev lines : List Text
lines = codes "A h 0" ∷ codes "B h 1" ∷ codes "C h 2" ∷ codes "D h 3" ∷ codes "E h 4" ∷ []

unfoldable addresses : List ℕ → Dict Text
addresses [] = []
addresses (i ∷ is) = (branch i, codes "h") ∷ addresses is

unfoldable ports : List ℕ → Dict Text
ports [] = []
ports (i ∷ is) = (branch i, (48 + i) ∷ []) ∷ ports is

-- The first dial to an address fails and the second connects.
abbrev dials : Dials
dials (a ∷ b ∷ d ∷ []) p = none ∷ some (d - 48) ∷ []
dials _ p = []

abbrev address_at : List ℕ → Text → Text
address_at is n = lookup_or [] n (addresses is)

abbrev port_at : List ℕ → Text → Text
port_at is n = lookup_or [] n (ports is)

first_at :
    (i : ℕ) (is : List ℕ) (n : Text)
    → text_eq (branch i) n ≡ true
    → (address_at (i ∷ is) n ≡ codes "h") × (port_at (i ∷ is) n ≡ (48 + i) ∷ [])
unfolding addresses ports lookup text_eq
first_at i is n same = (rw (same, lookup) refl, rw (same, lookup) refl)

later_at :
    (i : ℕ) (is : List ℕ) (n : Text)
    → text_eq (branch i) n ≡ false
    → (address_at (i ∷ is) n ≡ address_at is n) × (port_at (i ∷ is) n ≡ port_at is n)
unfolding addresses ports lookup text_eq
later_at i is n other = (rw (other, lookup) refl, rw (other, lookup) refl)

dials-branch :
    (is : List ℕ) (n : Text) (p : ℕ) (k : Conn)
    → dial_until (dials (join_port (address_at is n) (port_at is n)) p) ≡ returns k
    → n ≡ branch k
unfolding dial_until
dials-branch [] n p k h = unfold addresses ports lookup in absurd (ground (arith, h))
dials-branch (i ∷ is) n p k h = elim (Bool-cases (text_eq (branch i) n)) [
  | inl same ↦
      let (a, b) = first_at i is n same in
      let h' : returns ((48 + i) - 48) ≡ returns k = sym (rw (a, b) refl) ∙ h in
      let at : i ≡ k = ground (arith, h') in sym (text_eq→eq (branch i) n same) ∙ ap branch at
  | inr other ↦ let (a, b) = later_at i is n other in dials-branch is n p k (rw (sym a, sym b) h)
]

abbrev network : Network
network = record {
  names = map branch (0 ∷ 1 ∷ 2 ∷ 3 ∷ 4 ∷ []);
  order = lookup_ports;
  dials = dials;
  accepted = map some early ++ some (codes "h:10051", 14) ∷ [];
}

unfoldable config : (c : Config) × (read_from_config lines no_config ≡ some c)
unfolding read_from_config config_words split insert_name insert text_eq
config = (_, refl)

config-branch :
    (n : Text) (p : ℕ) (k : Conn)
    → dial_until (dials (address_of n config.0.maps) p) ≡ returns k
    → n ≡ branch k
unfolding config addresses ports
config-branch n p k h = dials-branch (0 ∷ 1 ∷ 2 ∷ 3 ∷ 4 ∷ []) n p k h

lookup-addresses :
    (is : List ℕ) (n a : Text) → lookup n (addresses is) ≡ some a → In n (map branch is)
unfolding addresses lookup
lookup-addresses [] n a found = absurd (ground (arith, found))
lookup-addresses (i ∷ is) n a found = elim (Bool-cases (text_eq (branch i) n)) [
  | inl same ↦ inl (sym (text_eq→eq (branch i) n same))
  | inr other ↦ inr (lookup-addresses is n a (ground (arith, other, found)))
]

unfoldable started :
    (sv : Server) × (events : List Event) × (start_server (branch 0) lines network
      ≡ returns (sv, events))
unfolding start_server build_branches read_from_config dial_branches text_eq dial_until lookup
    insert accept_branches judge_client
started = (_, _, refl)

start_server-IsWired_example :
    IsWired 0 started.0
    × ((sends : List Event) × (broadcast (codes "COMMIT_OK 7") started.0 ≡ returns sends))
unfolding config has_text text_eq addresses
start_server-IsWired_example =
    start_server-IsWired 0 lines config.0 network started.0 started.1 (codes "COMMIT_OK 7") config.1
      (refl, (refl, (refl, (refl, (refl, tt)))))
      (λ n p k connects near. config-branch n p k connects)
      (lookup-addresses (0 ∷ 1 ∷ 2 ∷ 3 ∷ 4 ∷ [])) started.2
