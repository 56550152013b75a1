-- ===== src/Bank/Client/Served.antt =====
-- What the coordinator does with a request that a user types.
use cs.Prelude.{◌≡◌, ◌≢◌, refl, sym, ◌∙◌, ap, false, some, [], ◌∷◌, ◌++◌, Bool-cases, inl, inr}
use cs.Prelude.Int.{ℤ, IsInt64}
use cs.Prelude.Text.{Text, codes, text_eq, text_eq→eq, fields, trim_space, format_int}
use cs.Prelude.Text.Words.{IsWord, format_int-IsWord}
use cs.Bank.State.{Method, Operation, Server, Conn}
use cs.Bank.Init.{init}
use cs.Bank.Init.Lines.{NoDot, where_word}
use cs.Bank.Handler.{serve, handle_connection}
use cs.Bank.Client.{to_server}
use cs.Bank.Client.Requests.{typed, meant, fields-to_server, init-typed}

handle_connection-read :
    (s : Text) (op : Operation) (read_conn send_conn : Conn) (sv : Server)
    → text_eq s (codes "Closed") ≡ false
    → init (trim_space s) ≡ some op
    → handle_connection s read_conn send_conn sv ≡ serve (trim_space s) op read_conn send_conn sv
unfolding handle_connection
handle_connection-read s op read_conn send_conn sv open_ read =
    rw (handle_connection, open_) (rw read refl)

typed-long : (m : Method) (w v u : Text) (a : ℤ) → typed m w a ++ v ∷ [] ≢ u ∷ []
typed-long Method.deposit w v u a e = cc
typed-long Method.withdraw w v u a e = cc
typed-long Method.balance w v u a e = cc
typed-long Method.commit w v u a e = cc
typed-long Method.abort w v u a e = cc

stamped-open :
    (m : Method) (input w : Text) (a t : ℤ)
    → fields input ≡ typed m w a
    → text_eq (to_server (trim_space input) (format_int t)) (codes "Closed") ≡ false
stamped-open m input w a t words =
    let line = to_server (trim_space input) (format_int t) in
    elim (Bool-cases (text_eq line (codes "Closed"))) [
      | inr open_ ↦ open_
      | inl same ↦
          let shut : fields (trim_space (codes "Closed")) ≡ codes "Closed" ∷ [] =
            unfold fields trim_space in refl in
          absurd (
            typed-long m w (format_int t) (codes "Closed") a (
              ap (λ ws. ws ++ format_int t ∷ []) (sym words)
              ∙ sym (fields-to_server input (format_int t) (format_int-IsWord t))
              ∙ ap (λ s. fields (trim_space s)) (text_eq→eq line (codes "Closed") same)
              ∙ shut))
    ]

-- A request that the user types with any spaces between and around its words, of a branch and an
-- account without spaces and dots and with 64-bit numbers: from the line that the client sends for
-- it, `Init` reads the operation that it means at the client's timestamp, and `handleConnection`,
-- if one `Read` gives that line, serves that operation.
pub handle_connection-typed :
    (m : Method) (input branch account : Text) (a t : ℤ) (read_conn send_conn : Conn) (sv : Server)
    → fields input ≡ typed m (where_word branch account) a
    → NoDot branch
    → NoDot account
    → IsWord (where_word branch account)
    → IsInt64 a
    → IsInt64 t
    → let line = to_server (trim_space input) (format_int t) in
      let op = meant m branch account a t in
      (init (trim_space line) ≡ some op)
      × (handle_connection line read_conn send_conn sv
          ≡ serve (trim_space line) op read_conn send_conn sv)
handle_connection-typed m input branch account a t read_conn send_conn sv words h k word i j =
    let line = to_server (trim_space input) (format_int t) in
    let read = init-typed m input branch account a t words h k word i j in
    (
      read,
      handle_connection-read line (meant m branch account a t) read_conn send_conn sv
          (stamped-open m input (where_word branch account) a t words) read,
    )
