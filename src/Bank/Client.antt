-- ===== src/Bank/Client.antt =====
-- mp3/client/client.go: the client, which gives each of its requests a timestamp and prints the
-- replies. A connection is a list of the texts that are written to it; what the server replies,
-- the clock and `rand.Intn` are inputs. `readFromConfig` is in Bank/Config.
pub mod Sends
pub mod Requests
pub mod Unstamped
pub mod Served
use cs.Prelude.{
  ℕ, ◌%◌, Bool, true, false, Option, none, some, List, [], ◌∷◌, ◌++◌, get_elem?, ◌||◌,
  if◌then◌else◌,
}
use cs.Prelude.Int.{ℤ}
use cs.Prelude.Text.{Text, codes, text_eq, trim_space, format_int}

-- `Client`, without its connections and its maps.
pub record Client : Type 0 where
  pub current_transaction : Bool
  pub stmsp : Text

-- What one round of the loop of `main` reads: the line, which is empty at the end of the input; the
-- clock; and the reply, which is `none` when reading it fails.
pub record Round : Type 0 where
  pub input : Text
  pub now : ℤ
  pub reply : Option Text

-- What a round writes to the coordinator, and to the terminal.
pub record Written : Type 0 where
  pub to_server : List Text
  pub printed : List Text

abbrev pub nothing : Written
nothing = record { to_server = []; printed = [] }

-- `random`: the branch that becomes the coordinator, for the number that `rand.Intn` gives.
abbrev pub random : ℕ → Option Text
random num = get_elem? (codes "A" ∷ codes "B" ∷ codes "C" ∷ codes "D" ∷ codes "E" ∷ []) (num % 5)

-- The replies that end the transaction.
abbrev pub is_final : Text → Bool
is_final response =
    text_eq response (codes "NOT FOUND, ABORTED")
    || text_eq response (codes "ABORTED")
    || text_eq response (codes "COMMIT OK")

-- `toServer` with the line end that `Fprintf` adds.
abbrev pub to_server : Text → Text → Text
to_server input stmsp = (input ++ 32 ∷ stmsp) ++ 10 ∷ []

-- What happens with the reply to a line that was sent. The message of a failed read also prints
-- the connection.
unfoldable pub take_reply : Text → Option Text → Client → Client × Written
unfolding trim_space
take_reply line none cl =
    (cl, record { to_server = line ∷ []; printed = codes "Have error when listening for " ∷ [] })
take_reply line (some text) cl = (
  record cl {
    current_transaction = if is_final (trim_space text) then false else cl.current_transaction;
  },
  record { to_server = line ∷ []; printed = trim_space text ∷ [] },
)

-- One round of the loop, past its first test.
unfoldable pub round : Round → Client → Client × Written
unfolding trim_space format_int take_reply
round r cl = elim r.input [
  | [] ↦ (cl, nothing)
  | c ∷ s ↦
      if text_eq (trim_space (c ∷ s)) (codes "BEGIN")
      then (
        record cl { stmsp = format_int r.now },
        record { to_server = []; printed = codes "OK" ∷ [] },
      )
      else if cl.current_transaction
      then take_reply (to_server (trim_space (c ∷ s)) cl.stmsp) r.reply cl
      else (cl, nothing)
]

-- The loop, for the rounds that its inputs allow; it ends when the transaction has.
unfoldable pub loop : List Round → Client → Client × Written
unfolding round
loop [] cl = (cl, nothing)
loop (r ∷ rounds) cl = elim cl.current_transaction [
  | false ↦ (cl, nothing)
  | true ↦
      let (cl', first) = round r cl in
      let (cl'', rest) = loop rounds cl' in
      (
        cl'',
        record {
          to_server = first.to_server ++ rest.to_server;
          printed = first.printed ++ rest.printed;
        },
      )
]

-- `main`, once it is connected.
abbrev pub started : Client
started = record { current_transaction = true; stmsp = [] }
