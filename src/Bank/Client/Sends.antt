-- ===== src/Bank/Client/Sends.antt =====
-- Which of the typed lines the client's loop sends.
use cs.Prelude.{
  ◌≡◌, refl, sym, ◌∙◌, ap, Bool, true, false, Option, none, some, List, [], ◌∷◌, ◌++◌, ◌||◌, map,
  All, Bool-cases, inl, inr, arith, if◌then◌else◌,
}
use cs.Prelude.Text.{Text, codes, text_eq, trim_space, format_int}
use cs.Bank.Client.{Client, Round, nothing, is_final, to_server, take_reply, round, loop}

pub take_reply-sends :
    (line : Text) (reply : Option Text) (cl : Client)
    → (take_reply line reply cl).1.to_server ≡ line ∷ []
unfolding take_reply
take_reply-sends line none cl = refl
take_reply-sends line (some text) cl = refl

-- The line is `BEGIN`.
abbrev pub begins : Round → Bool
begins r = text_eq (trim_space r.input) (codes "BEGIN")

abbrev pub is_end : Text → Bool
is_end [] = true
is_end (c ∷ s) = false

-- The replies of the server behind which no transaction is left.
abbrev pub final_replies : List Text
final_replies = codes "COMMIT OK" ∷ codes "ABORTED" ∷ codes "NOT FOUND, ABORTED" ∷ []

abbrev pub listed : Text → List Text → Bool
listed t [] = false
listed t (m ∷ texts) = text_eq t m || listed t texts

-- The reply to the line ends the transaction.
abbrev pub ends : Option Text → Bool
ends none = false
ends (some text) = listed (trim_space text) final_replies

is_final-listed : (t : Text) → is_final t ≡ listed t final_replies
is_final-listed t = ground arith

pub round-end : (r : Round) (cl : Client) → is_end r.input ≡ true → round r cl ≡ (cl, nothing)
unfolding round
round-end r cl h = ground arith

pub round-request :
    (r : Round) (cl : Client)
    → is_end r.input ≡ false
    → begins r ≡ false
    → cl.current_transaction ≡ true
    → round r cl ≡ take_reply (to_server (trim_space r.input) cl.stmsp) r.reply cl
unfolding round
round-request r cl h k on = ground arith

pub round-begin :
    (r : Round) (cl : Client)
    → is_end r.input ≡ false
    → begins r ≡ true
    → round r cl ≡ (
      record cl { stmsp = format_int r.now },
      record { to_server = []; printed = codes "OK" ∷ [] },
    )
unfolding round
round-begin r cl h k = ground arith

-- The lines up to the first whose reply ends the transaction.
unfoldable pub asked : List Round → List Text
asked [] = []
asked (r ∷ rounds) =
    let rest = asked rounds in
    if is_end r.input then rest else r.input ∷ (if ends r.reply then [] else rest)

take_reply_stmsp :
    (line : Text) (reply : Option Text) (cl : Client)
    → (take_reply line reply cl).0.stmsp ≡ cl.stmsp
unfolding take_reply
take_reply_stmsp line none cl = refl
take_reply_stmsp line (some text) cl = refl

take_reply_current :
    (line : Text) (reply : Option Text) (cl : Client)
    → (take_reply line reply cl).0.current_transaction
      ≡ (if ends reply then false else cl.current_transaction)
unfolding take_reply
take_reply_current line none cl = refl
take_reply_current line (some text) cl =
    ap (λ b. if b then false else cl.current_transaction) (is_final-listed (trim_space text))

loop-off :
    (rounds : List Round) (cl : Client)
    → cl.current_transaction ≡ false
    → loop rounds cl ≡ (cl, nothing)
unfolding loop
loop-off [] cl off = refl
loop-off (r ∷ rounds) cl off = ground arith

pub loop-on :
    (r : Round) (rounds : List Round) (cl : Client)
    → cl.current_transaction ≡ true
    → (loop (r ∷ rounds) cl).1.to_server
      ≡ (round r cl).1.to_server ++ (loop rounds (round r cl).0).1.to_server
unfolding loop
loop-on r rounds cl on = ground arith

asked-end :
    (r : Round) (rounds : List Round) → is_end r.input ≡ true → asked (r ∷ rounds) ≡ asked rounds
unfolding asked
asked-end r rounds h = rw (h, asked) refl

asked-next :
    (r : Round) (rounds : List Round)
    → is_end r.input ≡ false
    → asked (r ∷ rounds) ≡ r.input ∷ (if ends r.reply then [] else asked rounds)
unfolding asked
asked-next r rounds h = rw (h, asked) refl

-- Without `BEGIN` among them, those lines are sent in order, each with the client's timestamp.
pub loop-asked :
    (rounds : List Round) (cl : Client)
    → cl.current_transaction ≡ true
    → All (λ r. begins r ≡ false) rounds
    → (loop rounds cl).1.to_server
      ≡ map (λ input. to_server (trim_space input) cl.stmsp) (asked rounds)
loop-asked [] cl on h = unfold loop asked in refl
loop-asked (r ∷ rounds) cl on h = elim (Bool-cases (is_end r.input)) [
  | inl over ↦
      let stays = round-end r cl over in
      loop-on r rounds cl on
      ∙ ap (λ x. x.1.to_server ++ (loop rounds x.0).1.to_server) stays
      ∙ loop-asked rounds cl on h.1
      ∙ ap (map (λ input. to_server (trim_space input) cl.stmsp)) (sym (asked-end r rounds over))
  | inr more ↦
      let line = to_server (trim_space r.input) cl.stmsp in
      let cl' = (take_reply line r.reply cl).0 in
      let goes = round-request r cl more h.0 on in
      let rest : (loop rounds cl').1.to_server
          ≡ map (λ input. to_server (trim_space input) cl.stmsp)
              (if ends r.reply then [] else asked rounds) =
        elim (Bool-cases (ends r.reply)) [
          | inl done ↦
              let off : cl'.current_transaction ≡ false =
                take_reply_current line r.reply cl ∙ rw done refl in
              ap (λ x. x.1.to_server) (loop-off rounds cl' off) ∙ rw done refl
          | inr open_ ↦
              let still : cl'.current_transaction ≡ true =
                take_reply_current line r.reply cl ∙ rw open_ on in
              loop-asked rounds cl' still h.1
              ∙ ap (λ s. map (λ input. to_server (trim_space input) s) (asked rounds))
                  (take_reply_stmsp line r.reply cl)
              ∙ rw open_ refl
        ] in
      loop-on r rounds cl on
      ∙ ap (λ x. x.1.to_server ++ (loop rounds x.0).1.to_server) goes
      ∙ ap (λ x. x ++ (loop rounds cl').1.to_server) (take_reply-sends line r.reply cl)
      ∙ ap (λ x. line ∷ x) rest
      ∙ ap (map (λ input. to_server (trim_space input) cl.stmsp)) (sym (asked-next r rounds more))
]
