-- ===== src/Bank/Client/Requests.antt =====
-- What the coordinator reads of the lines that the client sends.
use cs.Prelude.{◌≡◌, refl, sym, ◌∙◌, ap, true, false, some, List, [], ◌∷◌, ◌++◌, map, All}
use cs.Prelude.Int.{ℤ, pos, neg64, IsInt64}
use cs.Prelude.Text.{Text, codes, text_eq, fields, trim_space, format_int}
use cs.Prelude.Text.Digits.{parse_int-format_int}
use cs.Prelude.Text.Words.{IsWord, format_int-IsWord}
use cs.Prelude.Text.Trim.{fields-snoc, fields-spaces, fields-trim_space}
use cs.Bank.State.{Method, Operation}
use cs.Bank.Init.{method_of, arguments, bare, init_words, init}
use cs.Bank.Init.Lines.{NoDot, where_word, init_lem, init-join}
use cs.Bank.Client.{Round, to_server, loop, started}
use cs.Bank.Client.Sends.{begins, is_end, round-begin, asked, loop-on, loop-asked}

-- The words of a request as the user types it.
abbrev pub typed : Method → Text → ℤ → List Text
typed Method.deposit w a = codes "DEPOSIT" ∷ w ∷ format_int a ∷ []
typed Method.withdraw w a = codes "WITHDRAW" ∷ w ∷ format_int a ∷ []
typed Method.balance w a = codes "BALANCE" ∷ w ∷ []
typed Method.commit w a = codes "COMMIT" ∷ []
typed Method.abort w a = codes "ABORT" ∷ []

-- The operation that it means at a time.
abbrev pub meant : Method → Text → Text → ℤ → ℤ → Operation
meant Method.deposit branch account a t = record {
  method = Method.deposit;
  branch = branch;
  account = account;
  amount = a;
  timestamp = t;
}
meant Method.withdraw branch account a t = record {
  method = Method.withdraw;
  branch = branch;
  account = account;
  amount = neg64 a;
  timestamp = t;
}
meant Method.balance branch account a t = record {
  method = Method.balance;
  branch = branch;
  account = account;
  amount = pos 0;
  timestamp = t;
}
meant Method.commit branch account a t = record {
  method = Method.commit;
  branch = [];
  account = [];
  amount = pos 0;
  timestamp = t;
}
meant Method.abort branch account a t = record {
  method = Method.abort;
  branch = [];
  account = [];
  amount = pos 0;
  timestamp = t;
}

-- The words that reach the coordinator.
pub fields-to_server :
    (input stmsp : Text)
    → IsWord stmsp
    → fields (trim_space (to_server (trim_space input) stmsp)) ≡ fields input ++ stmsp ∷ []
fields-to_server input stmsp word =
    fields-trim_space (to_server (trim_space input) stmsp)
    ∙ fields-spaces (trim_space input ++ 32 ∷ stmsp) (10 ∷ []) (refl, tt)
    ∙ fields-snoc (trim_space input) stmsp word
    ∙ ap (λ ws. ws ++ stmsp ∷ []) (fields-trim_space input)

pub fields-unstamped :
    (input : Text) → fields (trim_space (to_server (trim_space input) [])) ≡ fields input
fields-unstamped input =
    fields-trim_space (to_server (trim_space input) [])
    ∙ fields-spaces (trim_space input ++ 32 ∷ []) (10 ∷ []) (refl, tt)
    ∙ fields-spaces (trim_space input) (32 ∷ []) (refl, tt)
    ∙ fields-trim_space input

pub init-fields : (s : Text) → init s ≡ init_words (fields s)
unfolding init
init-fields s = refl

init-to_server :
    (input : Text) (t : ℤ)
    → init (trim_space (to_server (trim_space input) (format_int t)))
      ≡ init_words (fields input ++ format_int t ∷ [])
init-to_server input t =
    init-fields (trim_space (to_server (trim_space input) (format_int t)))
    ∙ ap init_words (fields-to_server input (format_int t) (format_int-IsWord t))

init_words-bare :
    (m : Method) (t : ℤ)
    → IsInt64 t
    → bare m (format_int t)
      ≡ some (record { method = m; branch = []; account = []; amount = pos 0; timestamp = t })
unfolding bare
init_words-bare m t i = rw (bare, parse_int-format_int t i) refl

init_words-typed :
    (m : Method) (branch account : Text) (a t : ℤ)
    → NoDot branch
    → NoDot account
    → IsWord (where_word branch account)
    → IsInt64 a
    → IsInt64 t
    → init_words (typed m (where_word branch account) a ++ format_int t ∷ [])
      ≡ some (meant m branch account a t)
init_words-typed Method.deposit branch account a t h k word i j =
    sym (
      init-join _ (
        (refl, (refl, (refl, (refl, (refl, (refl, (refl, tt))))))),
        (word, (format_int-IsWord a, (format_int-IsWord t, tt))),
      ))
    ∙ (init_lem branch account a t h k word i j).0
init_words-typed Method.withdraw branch account a t h k word i j =
    sym (
      init-join _ (
        (refl, (refl, (refl, (refl, (refl, (refl, (refl, (refl, tt)))))))),
        (word, (format_int-IsWord a, (format_int-IsWord t, tt))),
      ))
    ∙ (init_lem branch account a t h k word i j).1
init_words-typed Method.balance branch account a t h k word i j =
    sym (
      init-join _ (
        (refl, (refl, (refl, (refl, (refl, (refl, (refl, tt))))))),
        (word, (format_int-IsWord t, tt)),
      ))
    ∙ (init_lem branch account a t h k word i j).2
init_words-typed Method.commit branch account a t h k word i j =
    unfold init_words method_of text_eq arguments in init_words-bare Method.commit t j
init_words-typed Method.abort branch account a t h k word i j =
    unfold init_words method_of text_eq arguments in init_words-bare Method.abort t j

-- A request that the user types with any spaces between and around its words, of a branch and an
-- account without spaces and dots and with 64-bit numbers, is read by `Init`, from the line that
-- the client sends for it, as the operation that it means at the client's timestamp.
pub init-typed :
    (m : Method) (input branch account : Text) (a t : ℤ)
    → fields input ≡ typed m (where_word branch account) a
    → NoDot branch
    → NoDot account
    → IsWord (where_word branch account)
    → IsInt64 a
    → IsInt64 t
    → init (trim_space (to_server (trim_space input) (format_int t)))
      ≡ some (meant m branch account a t)
init-typed m input branch account a t words h k word i j =
    init-to_server input t
    ∙ ap (λ ws. init_words (ws ++ format_int t ∷ [])) words
    ∙ init_words-typed m branch account a t h k word i j

words_sent :
    (t : ℤ) (inputs : List Text)
    → map
        (λ text. init (trim_space text))
        (map (λ input. to_server (trim_space input) (format_int t)) inputs)
      ≡ map (λ input. init_words (fields input ++ format_int t ∷ [])) inputs
words_sent t [] = refl
words_sent t (input ∷ inputs) =
    ap
      (λ x.
        x
        ∷ map (λ text. init (trim_space text))
            (map (λ input. to_server (trim_space input) (format_int t)) inputs))
      (init-to_server input t)
    ∙ ap (λ x. init_words (fields input ++ format_int t ∷ []) ∷ x) (words_sent t inputs)

-- After a `BEGIN`, and without another, the texts that the client sends are, read by `Init`, the
-- words of the lines typed, each with the time of the `BEGIN` behind them, in order: one for each
-- line up to the first whose reply, without the spaces around it, is COMMIT OK, ABORTED or NOT FOUND,
-- ABORTED, and none after it.
pub loop-init :
    (r : Round) (rounds : List Round)
    → is_end r.input ≡ false
    → begins r ≡ true
    → All (λ s. begins s ≡ false) rounds
    → map (λ text. init (trim_space text)) (loop (r ∷ rounds) started).1.to_server
      ≡ map (λ input. init_words (fields input ++ format_int r.now ∷ [])) (asked rounds)
loop-init r rounds more begin h =
    let sends =
      loop-on r rounds started refl
      ∙ ap (λ x. x.1.to_server ++ (loop rounds x.0).1.to_server)
          (round-begin r started more begin) in
    ap (map (λ text. init (trim_space text)))
      (sends ∙ loop-asked rounds (record started { stmsp = format_int r.now }) refl h)
    ∙ words_sent r.now (asked rounds)
