-- ===== src/Bank/Connect/Meets.antt =====
-- Where a client and its coordinator dial each other.
use cs.Prelude.{ℕ, ◌≡◌, refl, sym, ◌∙◌, true, some, List, [], ◌∷◌, Option-cases, inl, inr, arith}
use cs.Prelude.Int.{pos}
use cs.Prelude.Text.{Text, format_int}
use cs.Prelude.Text.Words.{split-pair, format_int-without}
use cs.Prelude.Dict.{insert}
use cs.Bank.Outcome.{returns, ◌>>=◌}
use cs.Bank.State.{Conn}
use cs.Bank.Config.{Addresses, Config, insert_name, config_words, read_addresses, read_from_config}
use cs.Bank.Config.Judge.{NoColon}
use cs.Bank.Client.{random}
use cs.Bank.Connect.{
  join_port, listen_address, Dials, dial_until, no_config, host_of, client_port, connect_client,
  coordinator_address, connect_server,
}

-- Both programs read the same maps.
read_addresses-maps :
    (lines : List Text) (c c' : Config) (maps : Addresses)
    → read_from_config lines c ≡ some c'
    → read_addresses lines c.maps ≡ some maps
    → maps ≡ c'.maps
unfolding read_from_config read_addresses
read_addresses-maps [] c c' maps h k = ground (arith, h, k)
read_addresses-maps (line ∷ lines) c c' maps h k = elim (Option-cases (config_words line)) [
  | inl missing ↦ absurd (ground (arith, missing, h))
  | inr ((n, a, p), words) ↦
      let next : Config = record {
        maps = record { address = insert n a c.maps.address; port = insert n p c.maps.port };
        name = insert_name (record { x = a; y = p }) n c.name;
      } in
      read_addresses-maps lines next c' maps (sym (rw (words, read_from_config) refl) ∙ h)
        (sym (rw (words, read_addresses) refl) ∙ k)
]

host_of-join_port :
    (host : Text) (port : ℕ)
    → NoColon host
    → host_of (join_port host (format_int (pos port))) ≡ host
host_of-join_port host port h =
    let parts =
      split-pair b':' host (format_int (pos port)) h (format_int-without port b':' (omega arith)) in
    rw (parts, host_of) refl

-- A client and a server that read the same lines: the client dials the address on which the branch
-- of its choice listens; and from a host without a colon, whatever the port, the server dials port
-- 10050 of that host.
pub connect_server-connect_client :
    (lines : List Text) (c : Config) (maps : Addresses) (num : ℕ) (name : Text) (there back : Dials)
    (host : Text) (port : ℕ) (read read' : Conn)
    → read_from_config lines no_config ≡ some c
    → read_addresses lines no_config.maps ≡ some maps
    → random num ≡ some name
    → NoColon host
    → (connect_server num maps there true (some read)
        ≡ (dial_until (there (listen_address name c.maps) 0) >>= λ send. returns (send, read)))
      × (connect_client (some (join_port host (format_int (pos port)), read')) back
          ≡ (dial_until (back (join_port host client_port) 0) >>= λ send. returns (read', send)))
unfolding connect_server connect_client coordinator_address
connect_server-connect_client lines c maps num name there back host port read read' h k chosen
      plain =
    let same = read_addresses-maps lines no_config c maps h k in
    (rw (chosen, coordinator_address) (rw same refl), rw (host_of-join_port host port plain) refl)
