-- ===== src/Bank/Inputs.antt =====
-- Runs of the client and the configuration, and sums that overflow on the way.
use cs.Prelude.{
  In, not, ◌++◌, ◌==◌, ◌≡◌, ◌^◌, ◌-◌, refl, true, false, some, List, [], ◌∷◌, map, inl, inr, arith,
  every-In,
}
use cs.Prelude.Int.{pos, negsuc, ◌+ℤ◌}
use cs.Prelude.Text.{Text, codes, text_eq, fields, trim_space, format_int}
use cs.Bank.State.{WriteVale, Method, Server}
use cs.Bank.Outcome.{panics}
use cs.Bank.Init.{init, init_words}
use cs.Bank.Handler.{serve, handle_connection}
use cs.Bank.Client.{Round, to_server, round, loop, started}
use cs.Bank.Client.Sends.{asked}
use cs.Bank.Client.Requests.{meant, loop-init}
use cs.Bank.Client.Served.{handle_connection-typed}
use cs.Bank.Client.Unstamped.{unstamped-panics}
use cs.Bank.Config.{lookup_ports, dial_port, judge_client, read_from_config, read_addresses, Config}
use cs.Bank.Config.Lines.{Entry, written, IsRead, read_from_config-written}
use cs.Bank.Config.Judge.{judge_client-dial_port}
use cs.Bank.Connect.{no_config}
use cs.Bank.Branch.{command_of, handle_branch, scan_nat, parsed_value}
use cs.Bank.Branch.Merged.{handle_branch-merged}
use cs.Bank.Commit.{balance_at}
use cs.Bank.Commit.Exact.{exact_at, balance_at-exact}

abbrev deposit_line : Text
deposit_line = codes "  DEPOSIT  A.foo 10\n"

abbrev empty_server : Server
empty_server = record {
  me = codes "A";
  accounts = [];
  send_conn = [];
  read_conn = [];
  tw = [];
  rts = [];
  name = [];
  commit_count = [];
}

handle_connection-typed_example :
    let line = to_server (trim_space deposit_line) (format_int (pos 77)) in
    let op = meant Method.deposit (codes "A") (codes "foo") (pos 10) (pos 77) in
    (init (trim_space line) ≡ some op)
    × (handle_connection line 1 2 empty_server ≡ serve (trim_space line) op 1 2 empty_server)
unfolding fields format_int
handle_connection-typed_example =
    handle_connection-typed Method.deposit deposit_line (codes "A") (codes "foo") (pos 10) (pos 77)
      1 2 empty_server refl (refl, tt) (refl, (refl, (refl, tt)))
      (refl, (refl, (refl, (refl, (refl, tt))))) (omega arith, omega arith)
      (omega arith, omega arith)

abbrev reads : Text → Text → Round
reads line answer = record { input = line; now = pos 77; reply = some answer }

abbrev session : List Round
session =
    reads deposit_line (codes "OK\n")
    ∷ reads (codes "COMMIT\n") (codes "ABORTED\n")
    ∷ reads (codes "BALANCE A.foo\n") (codes "A.foo = 10\n")
    ∷ []

loop-init_example :
    map
      (λ text. init (trim_space text))
      (loop (reads (codes "BEGIN\n") [] ∷ session) started).1.to_server
    ≡ map (λ input. init_words (fields input ++ format_int (pos 77) ∷ [])) (asked session)
unfolding trim_space text_eq
loop-init_example =
    loop-init (reads (codes "BEGIN\n") []) session refl refl (refl, (refl, (refl, tt)))

unstamped-panics_example :
    ((round (reads deposit_line []) started).1.to_server
      ≡ to_server (trim_space deposit_line) [] ∷ [])
    × (handle_connection (to_server (trim_space deposit_line) []) 1 2 empty_server ≡ panics)
unfolding fields format_int
unstamped-panics_example =
    unstamped-panics Method.deposit (reads deposit_line []) (codes "A.foo") (pos 10) 1 2
      empty_server refl

abbrev two_lines : List Entry
two_lines =
    record { name = codes "A"; address = codes "host1"; port = codes "1234" }
    ∷ record { name = codes "A"; address = codes "host2"; port = codes "1235" }
    ∷ []

read_from_config_example :
    (c : Config) × (read_from_config (map written two_lines) no_config ≡ some c)
    × (read_addresses (map written two_lines) no_config.maps ≡ some c.maps)
    × IsRead two_lines no_config c
read_from_config_example = read_from_config-written two_lines no_config (
  ((refl, tt), (refl, (refl, (refl, (refl, (refl, tt))))), (refl, (refl, (refl, (refl, tt))))),
  (
    ((refl, tt), (refl, (refl, (refl, (refl, (refl, tt))))), (refl, (refl, (refl, (refl, tt))))),
    tt,
  ),
)

free_port : (n : Text) → ¬ In (n, 50000) lookup_ports
free_port n here =
    let used = every-In (λ e. not (e.1 == 50000)) (n, 50000) lookup_ports refl here in
    ground (arith, used)

judge_client_example :
    (judge_client lookup_ports
        (codes "10.0.0.1" ++ b':' ∷ format_int (pos (dial_port (codes "C") (codes "A"))))
      ≡ some (false, codes "C"))
    × (judge_client lookup_ports (codes "10.0.0.1" ++ b':' ∷ format_int (pos 50000))
        ≡ some (true, []))
unfolding text_eq
judge_client_example =
    judge_client-dial_port lookup_ports (codes "10.0.0.1") (codes "C") (codes "A") 50000
      (λ n p here. here) (λ n p here. here)
      (refl, (refl, (refl, (refl, (refl, (refl, (refl, (refl, tt)))))))) (inr (inr (inl refl)))
      (inl refl) refl free_port (omega arith)

abbrev large : List WriteVale
large =
    record { timestamp = pos 1; value = pos (2 ^ 63 - 1) }
    ∷ record { timestamp = pos 2; value = negsuc 99 }
    ∷ []

balance_at-exact_example : balance_at (pos 3) (pos 50) large ≡ exact_at (pos 3) (pos 50) large
unfolding exact_at ◌+ℤ◌
balance_at-exact_example =
    balance_at-exact (pos 3) (pos 50) large (omega arith, omega arith) (omega arith, omega arith)

abbrev ready_word : Text
ready_word = codes "COMMIT_READY"

handle_branch-merged_example :
    handle_branch 9
      (ready_word ++ 32 ∷ (codes "77" ++ 10 ∷ codes "COMMIT_READY 78\n"))
      1
      empty_server
    ≡ handle_branch 9 (ready_word ++ 32 ∷ (codes "77" ++ 10 ∷ [])) 1 empty_server
unfolding command_of
handle_branch-merged_example =
    handle_branch-merged 9 ready_word (codes "77") (codes "COMMIT_READY 78\n") 1 empty_server
      (
        refl,
        (refl, (refl, (refl, (refl, (refl, (refl, (refl, (refl, (refl, (refl, (refl, tt))))))))))),
      )
      (refl, (refl, tt)) refl

-- A number past 64 bits gives the bound, whatever follows it.
parsed_value-too_long : parsed_value (codes "99999999999999999999x") ≡ pos (2 ^ 63 - 1)
unfolding parsed_value scan_nat
parsed_value-too_long = refl
