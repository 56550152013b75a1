-- ===== src/Bank/State.antt =====
-- mp3/server/server.go: the data of one branch server.
-- Mutexes are left out: the functions under a lock are atomic steps. Connections are handles.
use cs.Prelude.{ℕ, Option, none, some, List, [], ◌∷◌, if◌then◌else◌}
use cs.Prelude.Int.{ℤ, pos, ltb_ℤ}
use cs.Prelude.Text.{Text}
use cs.Prelude.Dict.{Dict, lookup}

abbrev pub Conn : Type 0
Conn = ℕ

-- `write_vale`
pub record WriteVale : Type 0 where
  pub timestamp : ℤ
  pub value : ℤ

pub record Account : Type 0 where
  pub name : Text
  pub committed_value : ℤ
  pub committed_timestamp : ℤ
  pub amount : ℤ
  pub created_timestamp : ℤ

-- The methods that `Init` admits.
pub data Method : Type 0 where
  deposit withdraw balance commit abort : Method

pub record Operation : Type 0 where
  pub method : Method
  pub branch : Text
  pub account : Text
  pub amount : ℤ
  pub timestamp : ℤ

-- `name` holds the values of the map `name`: the branches of the configuration, this one included.
pub record Server : Type 0 where
  pub me : Text
  pub accounts : Dict Account
  pub send_conn : Dict Conn
  pub read_conn : Dict Conn
  pub tw : Dict (List WriteVale)
  pub rts : Dict (List ℤ)
  pub name : List Text
  pub commit_count : Dict ℕ

-- What a handler does to the network.
pub data Event : Type 0 where
  sent : Conn → Text → Event
  closed : Conn → Event

-- The list at a key of TW or RTS; a missing key reads as the empty slice.
abbrev pub list_at {ℓ} : {A : Type ℓ} → Text → Dict (List A) → List A
list_at k m = elim (lookup k m) [ none ↦ [] | some xs ↦ xs ]

-- `sv.accounts[name].committedValue`, which is 0 for a missing account.
abbrev pub committed_value_at : Text → Dict Account → ℤ
committed_value_at k m = elim (lookup k m) [ none ↦ pos 0 | some a ↦ a.committed_value ]

-- `FindMax`, which panics on an empty slice.
unfoldable pub max_from : ℤ → List ℤ → ℤ
max_from m [] = m
max_from m (x ∷ xs) = max_from (if ltb_ℤ m x then x else m) xs

unfoldable pub find_max : List ℤ → Option ℤ
unfolding max_from
find_max [] = none
find_max (x ∷ xs) = some (max_from x (x ∷ xs))
