-- ===== src/Bank/Connect/Accepts.antt =====
-- Which connections `build_branches` keeps.
use cs.Prelude.{
  ℕ, suc, ◌+◌, ◌≡◌, refl, ◌∙◌, ap, Bool, true, false, Option, some, List, [], ◌∷◌, ◌++◌, ◌==◌, map,
  length, arith,
}
use cs.Prelude.Text.{Text}
use cs.Prelude.Dict.{Dict, insert}
use cs.Bank.Outcome.{returns, ◌>>=◌}
use cs.Bank.State.{Conn, closed}
use cs.Bank.Config.{judge_client}
use cs.Bank.Connect.{Accepted, accept_branches}

-- The branches and the clients among accepted connections.
unfoldable pub from_branches : Dict ℕ → List Accepted → List (Text × Conn)
from_branches order [] = []
from_branches order ((addr, c) ∷ rest) = elim (judge_client order addr) [
  | some (false, name) ↦ (name, c) ∷ from_branches order rest
  | _ ↦ from_branches order rest
]

unfoldable pub from_clients : Dict ℕ → List Accepted → List Conn
from_clients order [] = []
from_clients order ((addr, c) ∷ rest) = elim (judge_client order addr) [
  | some (true, name) ↦ c ∷ from_clients order rest
  | _ ↦ from_clients order rest
]

unfoldable pub insert_all : List (Text × Conn) → Dict Conn → Dict Conn
insert_all [] conns = conns
insert_all ((name, c) ∷ rest) conns = insert_all rest (insert name c conns)

abbrev pub AllJudged : Dict ℕ → List Accepted → Type 0
AllJudged order [] = Unit
AllJudged order (a ∷ rest) =
    ((client : Bool) × (name : Text) × (judge_client order a.0 ≡ some (client, name)))
    × AllJudged order rest

module _ (order : Dict ℕ) where
  accept_last :
      (count : ℕ) (addr name : Text) (c : Conn) (rest : List (Option Accepted)) (conns : Dict Conn)
      → count ≡ 3
      → judge_client order addr ≡ some (false, name)
      → accept_branches order count (some (addr, c) ∷ rest) conns
        ≡ returns (insert name c conns, [])
  unfolding accept_branches
  accept_last count addr name c rest conns e h = rw h (rw e refl)

  accept_client :
      (count : ℕ) (addr name : Text) (c : Conn) (rest : List (Option Accepted)) (conns : Dict Conn)
      → (count == 4) ≡ false
      → judge_client order addr ≡ some (true, name)
      → accept_branches order count (some (addr, c) ∷ rest) conns
        ≡ (accept_branches order count rest conns >>= λ r. returns (r.0, closed c ∷ r.1))
  unfolding accept_branches
  accept_client count addr name c rest conns e h = rw h (rw e refl)

  accept_branch :
      (count : ℕ) (addr name : Text) (c : Conn) (rest : List (Option Accepted)) (conns : Dict Conn)
      → (suc count == 4) ≡ false
      → judge_client order addr ≡ some (false, name)
      → accept_branches order count (some (addr, c) ∷ rest) conns
        ≡ (accept_branches order (suc count) rest (insert name c conns) >>= λ r. returns (r.0, r.1))
  unfolding accept_branches
  accept_branch count addr name c rest conns e h = rw h (rw e refl)

  client_first :
      (addr name : Text) (c : Conn) (rest : List Accepted)
      → judge_client order addr ≡ some (true, name)
      → (from_branches order ((addr, c) ∷ rest) ≡ from_branches order rest)
        × (from_clients order ((addr, c) ∷ rest) ≡ c ∷ from_clients order rest)
  unfolding from_branches from_clients
  client_first addr name c rest h = (rw (h, from_branches) refl, rw (h, from_clients) refl)

  branch_first :
      (addr name : Text) (c : Conn) (rest : List Accepted)
      → judge_client order addr ≡ some (false, name)
      → (from_branches order ((addr, c) ∷ rest) ≡ (name, c) ∷ from_branches order rest)
        × (from_clients order ((addr, c) ∷ rest) ≡ from_clients order rest)
  unfolding from_branches from_clients
  branch_first addr name c rest h = (rw (h, from_branches) refl, rw (h, from_clients) refl)

  accepts :
      (before : List Accepted) (count : ℕ) (addr name : Text) (c : Conn)
      (rest : List (Option Accepted)) (conns : Dict Conn)
      → AllJudged order before
      → judge_client order addr ≡ some (false, name)
      → count + length (from_branches order before) ≡ 3
      → accept_branches order count (map some before ++ some (addr, c) ∷ rest) conns
        ≡ returns (
          insert name c (insert_all (from_branches order before) conns),
          map closed (from_clients order before),
        )
  unfolding insert_all
  accepts [] count addr name c rest conns judged last three =
      unfold from_branches from_clients in
      accept_last count addr name c rest conns (omega (arith, three)) last
  accepts ((a, d) ∷ before) count addr name c rest conns ((true, n, h), judged) last three =
      let (same, more) = client_first a n d before h in
      let less : count + length (from_branches order before) ≡ 3 =
        omega (arith, ap length same, three) in
      accept_client count a n d (map some before ++ some (addr, c) ∷ rest) conns
        (ground (arith, less)) h
      ∙ rw (accepts before count addr name c rest conns judged last less) (rw (same, more) refl)
  accepts ((a, d) ∷ before) count addr name c rest conns ((false, n, h), judged) last three =
      let (more, same) = branch_first a n d before h in
      let less : suc count + length (from_branches order before) ≡ 3 =
        omega (arith, ap length more, three) in
      accept_branch count a n d (map some before ++ some (addr, c) ∷ rest) conns
        (ground (arith, less)) h
      ∙ rw (accepts before (suc count) addr name c rest (insert n d conns) judged last less)
          (rw (more, same) refl)

  -- Where `judgeClient` recognizes three branches, and any number of clients, and then a fourth
  -- branch, the loop ends there whatever comes later: it keeps the connections of the four branches
  -- under their names and has closed those of the clients, in the order in which they came.
  pub accept_branches_lem :
      (before : List Accepted) (addr name : Text) (c : Conn) (rest : List (Option Accepted))
      (conns : Dict Conn)
      → AllJudged order before
      → judge_client order addr ≡ some (false, name)
      → length (from_branches order before) ≡ 3
      → accept_branches order 0 (map some before ++ some (addr, c) ∷ rest) conns
        ≡ returns (
          insert name c (insert_all (from_branches order before) conns),
          map closed (from_clients order before),
        )
  accept_branches_lem before addr name c rest conns judged last three =
      accepts before 0 addr name c rest conns judged last (omega (arith, three))
