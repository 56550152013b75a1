-- ===== src/Bank/Client/Unstamped.antt =====
-- Requests without a `BEGIN` before them.
use cs.Prelude.{◌≡◌, ◌≢◌, refl, sym, ◌∙◌, ap, false, none, [], ◌∷◌, Bool-cases, inl, inr, arith}
use cs.Prelude.Int.{ℤ}
use cs.Prelude.Text.{Text, codes, text_eq, text_eq→eq, text_eq_refl, fields, trim_space}
use cs.Prelude.Text.Trim.{fields-trim_space}
use cs.Bank.State.{Method, Server, Conn}
use cs.Bank.Outcome.{panics}
use cs.Bank.Init.{method_of, arguments, init_words, init}
use cs.Bank.Handler.{handle_connection}
use cs.Bank.Client.{Round, to_server, round, started}
use cs.Bank.Client.Sends.{begins, is_end, round-request, take_reply-sends}
use cs.Bank.Client.Requests.{typed, init-fields, fields-unstamped}

init_words-unstamped : (m : Method) (w : Text) (a : ℤ) → init_words (typed m w a) ≡ none
unfolding init_words method_of text_eq arguments
init_words-unstamped Method.deposit w a = refl
init_words-unstamped Method.withdraw w a = refl
init_words-unstamped Method.balance w a = refl
init_words-unstamped Method.commit w a = refl
init_words-unstamped Method.abort w a = refl

handle_connection-unread :
    (s : Text) (read_conn send_conn : Conn) (sv : Server)
    → text_eq s (codes "Closed") ≡ false
    → init (trim_space s) ≡ none
    → handle_connection s read_conn send_conn sv ≡ panics
unfolding handle_connection
handle_connection-unread s read_conn send_conn sv open_ bad =
    rw (handle_connection, open_) (rw bad refl)

typed-other :
    (m : Method) (w : Text) (a : ℤ) (v : Text)
    → text_eq v (codes "COMMIT") ≡ false
    → text_eq v (codes "ABORT") ≡ false
    → typed m w a ≢ v ∷ []
typed-other Method.deposit w a v h k e = cc
typed-other Method.withdraw w a v h k e = cc
typed-other Method.balance w a v h k e = cc
typed-other Method.commit w a v h k e = absurd (ground (arith, text_eq_refl (codes "COMMIT"), e))
typed-other Method.abort w a v h k e = absurd (ground (arith, text_eq_refl (codes "ABORT"), e))

unstamped-open :
    (m : Method) (input w : Text) (a : ℤ)
    → fields input ≡ typed m w a
    → text_eq (to_server (trim_space input) []) (codes "Closed") ≡ false
unfolding text_eq
unstamped-open m input w a words =
    let line = to_server (trim_space input) [] in
    elim (Bool-cases (text_eq line (codes "Closed"))) [
      | inr open_ ↦ open_
      | inl same ↦
          let shut : fields (trim_space (codes "Closed")) ≡ codes "Closed" ∷ [] =
            unfold fields trim_space in refl in
          absurd (
            typed-other m w a (codes "Closed") refl refl (
              sym words
              ∙ sym (fields-unstamped input)
              ∙ ap (λ s. fields (trim_space s)) (text_eq→eq line (codes "Closed") same)
              ∙ shut))
    ]

begins-typed :
    (m : Method) (r : Round) (w : Text) (a : ℤ) → fields r.input ≡ typed m w a → begins r ≡ false
unfolding text_eq
begins-typed m r w a words = elim (Bool-cases (begins r)) [
  | inr other ↦ other
  | inl same ↦
      let word : fields (codes "BEGIN") ≡ codes "BEGIN" ∷ [] = unfold fields in refl in
      absurd (
        typed-other m w a (codes "BEGIN") refl refl (
          sym words
          ∙ sym (fields-trim_space r.input)
          ∙ ap fields (text_eq→eq (trim_space r.input) (codes "BEGIN") same)
          ∙ word))
]

is_end-typed :
    (m : Method) (input w : Text) (a : ℤ) → fields input ≡ typed m w a → is_end input ≡ false
unfolding fields
is_end-typed Method.deposit [] w a words = cc
is_end-typed Method.withdraw [] w a words = cc
is_end-typed Method.balance [] w a words = cc
is_end-typed Method.commit [] w a words = cc
is_end-typed Method.abort [] w a words = cc
is_end-typed m (c ∷ s) w a words = refl

-- A request that the user types before `BEGIN` is sent without a timestamp: the client sends the
-- line, and a coordinator that reads it panics.
pub unstamped-panics :
    (m : Method) (r : Round) (w : Text) (a : ℤ) (read_conn send_conn : Conn) (sv : Server)
    → fields r.input ≡ typed m w a
    → ((round r started).1.to_server ≡ to_server (trim_space r.input) [] ∷ [])
      × (handle_connection (to_server (trim_space r.input) []) read_conn send_conn sv ≡ panics)
unstamped-panics m r w a read_conn send_conn sv words = (
  ap (λ x. x.1.to_server)
        (round-request r started (is_end-typed m r.input w a words) (begins-typed m r w a words)
          refl)
      ∙ take_reply-sends (to_server (trim_space r.input) []) r.reply started,
  handle_connection-unread (to_server (trim_space r.input) []) read_conn send_conn sv
      (unstamped-open m r.input w a words)
      (init-fields (trim_space (to_server (trim_space r.input) []))
        ∙ ap init_words (fields-unstamped r.input ∙ words)
        ∙ init_words-unstamped m w a),
)
