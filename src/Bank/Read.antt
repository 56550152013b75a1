-- ===== src/Bank/Read.antt =====
-- mp3/server/server.go `read`: the read rule of timestamp ordering.
pub mod Rule
use cs.Prelude.{
  ℕ, Bool, true, false, Option, none, some, List, [], ◌∷◌, ◌++◌, ◌&&◌, not, if◌then◌else◌,
}
use cs.Prelude.Int.{ℤ, pos, ltb_ℤ, leb_ℤ, eqb_ℤ, add64}
use cs.Prelude.Text.{Text}
use cs.Prelude.Dict.{Dict, lookup, insert}
use cs.Bank.State.{WriteVale, Account, Operation, Server, list_at}

-- What the loop over the TW list gathers: `Ds`, `TS` and `committed`.
pub record Version : Type 0 where
  pub ds : ℤ
  pub ts : ℤ
  pub committed : Bool

abbrev pub see : ℤ → Version → WriteVale → Version
see at v w =
    if leb_ℤ w.timestamp at
    then record {
      ds = add64 v.ds w.value;
      ts = if ltb_ℤ v.ts w.timestamp then w.timestamp else v.ts;
      committed = false;
    }
    else v

unfoldable pub version : ℤ → Version → List WriteVale → Version
version at v [] = v
version at v (w ∷ ws) = version at (see at v w) ws

abbrev pub committed_version : Account → Version
committed_version acc = record {
  ds = acc.committed_value;
  ts = acc.committed_timestamp;
  committed = true;
}

-- A read returns a value, aborts, or waits for the transaction of a timestamp.
pub data ReadResult : Type 0 where
  value : ℤ → ReadResult
  aborted : ReadResult
  pending : ℤ → ReadResult

-- One pass through the rule, up to the loop that waits.
unfoldable pub read_version : Operation → Version → Server → ReadResult × Server
read_version op v sv =
    if v.committed
    then (
      value v.ds,
      record sv { rts = insert op.account (list_at op.account sv.rts ++ op.timestamp ∷ []) sv.rts },
    )
    else if eqb_ℤ op.timestamp v.ts
    then (value v.ds, sv)
    else (pending v.ts, sv)

unfoldable pub read : Operation → Server → ReadResult × Server
read op sv = elim (lookup op.account sv.accounts) [
  | none ↦ (aborted, sv)
  | some acc ↦
      if ltb_ℤ acc.committed_timestamp op.timestamp
      then read_version op (version op.timestamp (committed_version acc) (list_at op.account sv.tw))
          sv
      else (aborted, sv)
]

unfoldable pub has_entry : ℤ → List WriteVale → Bool
has_entry ts [] = false
has_entry ts (w ∷ ws) = if eqb_ℤ w.timestamp ts then true else has_entry ts ws

-- The loop that waits, over the TW lists that it finds round by round: `true` if it goes on to read
-- again, `false` if it still waits after the last of them.
unfoldable pub wait_loop : Bool → ℤ → List (List WriteVale) → Bool
wait_loop flag ts [] = false
wait_loop flag ts (tw ∷ rounds) = elim (flag && not (has_entry ts tw)) [
  | true ↦ true
  | false ↦ wait_loop (flag && not (has_entry ts tw)) ts rounds
]
