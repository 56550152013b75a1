-- ===== src/Bank/Init/Lines.antt =====
-- The lines that a client writes for its requests, read by `Init`.
use cs.Prelude.{◌≡◌, refl, ◌∙◌, false, some, List, [], ◌∷◌, ◌++◌, ◌==◌, All}
use cs.Prelude.Int.{ℤ, pos, neg64, IsInt64}
use cs.Prelude.Text.{Text, codes, text_eq, join, format_int, parse_int}
use cs.Prelude.Text.Digits.{parse_int-format_int}
use cs.Prelude.Text.Words.{IsWord, fields-join, split-pair, format_int-IsWord}
use cs.Bank.State.{Method, Operation}
use cs.Bank.Init.{method_of, place, with_amount, with_account, arguments, init_words, init}

-- The name of a branch or an account: no dot.
abbrev pub NoDot : Text → Type 0
NoDot = All (λ c. (c == b'.') ≡ false)

abbrev pub where_word : Text → Text → Text
where_word branch account = branch ++ b'.' ∷ account

place-where_word :
    (branch account : Text)
    → NoDot branch
    → NoDot account
    → place (where_word branch account) ≡ some (branch, account)
unfolding place
place-where_word branch account h k = rw (place, split-pair b'.' branch account h k) refl

with_amount-read :
    (m : Method) (sign : ℤ → ℤ) (w x y branch account : Text) (a t : ℤ)
    → place w ≡ some (branch, account)
    → parse_int x ≡ some a
    → parse_int y ≡ some t
    → with_amount m sign w x y
      ≡ some (record {
        method = m;
        branch = branch;
        account = account;
        amount = sign a;
        timestamp = t;
      })
unfolding with_amount
with_amount-read m sign w x y branch account a t p q r = rw (with_amount, p) (rw q (rw r refl))

with_account-read :
    (w y branch account : Text) (t : ℤ)
    → place w ≡ some (branch, account)
    → parse_int y ≡ some t
    → with_account w y
      ≡ some (record {
        method = Method.balance;
        branch = branch;
        account = account;
        amount = pos 0;
        timestamp = t;
      })
unfolding with_account
with_account-read w y branch account t p r = rw (with_account, p) (rw r refl)

pub init-join : (ws : List Text) → All IsWord ws → init (join ws) ≡ init_words ws
unfolding init
init-join ws h = rw (init, fields-join ws h) refl

-- Where the names of the branch and the account have no space and no dot, and the numbers are
-- 64-bit integers: `Init` reads the line of a deposit, a withdrawal or a balance request back as
-- that request, with the amount of a withdrawal negated.
pub init_lem :
    (branch account : Text) (a t : ℤ)
    → NoDot branch
    → NoDot account
    → IsWord (where_word branch account)
    → IsInt64 a
    → IsInt64 t
    → let w = where_word branch account in
      let op : Method → ℤ → Operation = λ m am. record {
        method = m;
        branch = branch;
        account = account;
        amount = am;
        timestamp = t;
      } in
      (init (join (codes "DEPOSIT" ∷ w ∷ format_int a ∷ format_int t ∷ []))
        ≡ some (op Method.deposit a))
      × (init (join (codes "WITHDRAW" ∷ w ∷ format_int a ∷ format_int t ∷ []))
          ≡ some (op Method.withdraw (neg64 a)))
      × (init (join (codes "BALANCE" ∷ w ∷ format_int t ∷ [])) ≡ some (op Method.balance (pos 0)))
init_lem branch account a t h k word i j =
    let w = where_word branch account in
    let p = place-where_word branch account h k in
    let q = parse_int-format_int a i in
    let r = parse_int-format_int t j in
    let am = format_int-IsWord a in
    let ts = format_int-IsWord t in
    (
      init-join _
            ((refl, (refl, (refl, (refl, (refl, (refl, (refl, tt))))))), (word, (am, (ts, tt))))
          ∙ unfold init_words method_of text_eq arguments in
            with_amount-read Method.deposit (λ z. z) w (format_int a) (format_int t) branch account
              a t p q r,
      init-join _ (
        (refl, (refl, (refl, (refl, (refl, (refl, (refl, (refl, tt)))))))),
        (word, (am, (ts, tt))),
      )
          ∙ unfold init_words method_of text_eq arguments in
            with_amount-read Method.withdraw neg64 w (format_int a) (format_int t) branch account a
              t p q r,
      init-join _ ((refl, (refl, (refl, (refl, (refl, (refl, (refl, tt))))))), (word, (ts, tt)))
          ∙ unfold init_words method_of text_eq arguments in
            with_account-read w (format_int t) branch account t p r,
    )
