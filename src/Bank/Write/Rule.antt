-- ===== src/Bank/Write/Rule.antt =====
-- What a write does to a TW list, and when it is refused.
use cs.Prelude.{
  ◌≡◌, ◌⊎◌, refl, ◌∙◌, ap, Bool, true, false, Option, none, some, List, [], ◌∷◌, ◌++◌, All,
  Option-cases, Bool-cases, and-left, inl, inr, arith, if◌then◌else◌, subst,
}
use cs.Prelude.Int.{ℤ, ltb_ℤ, eqb_ℤ, ◌≤ℤ◌, ◌<ℤ◌, add64}
use cs.Prelude.Text.{Text, text_eq}
use cs.Prelude.Dict.{Dict, lookup, insert}
use cs.Bank.Outcome.{returns}
use cs.Bank.State.{WriteVale, Account, Operation, Server, list_at, max_from, find_max}
use cs.Bank.Write.{tentative, reads_allow, may_write, write_rule, write}
use cs.Bank.Abort.Lists.{others}

-- The first entry of a transaction.
unfoldable pub own_value : ℤ → List WriteVale → Option ℤ
own_value ts [] = none
own_value ts (w ∷ ws) = if eqb_ℤ w.timestamp ts then some w.value else own_value ts ws

-- The amount on top of what the transaction has written before.
abbrev pub on_top : Option ℤ → ℤ → ℤ
on_top none am = am
on_top (some v) am = add64 v am

max_from-ge : (m : ℤ) (xs : List ℤ) → (m ≤ℤ max_from m xs) × All (λ x. x ≤ℤ max_from m xs) xs
unfolding max_from
max_from-ge m [] = (omega arith, tt)
max_from-ge m (x ∷ xs) =
    let m' : ℤ = if ltb_ℤ m x then x else m in
    let (above, all) = max_from-ge m' xs in
    let wins : (m ≤ℤ m') × (x ≤ℤ m') = ground arith in (omega arith, (omega arith, all))

-- `FindMax` is at least every element.
pub find_max-ge : (xs : List ℤ) {m : ℤ} → find_max xs ≡ some m → All (λ x. x ≤ℤ m) xs
find_max-ge [] h = tt
find_max-ge (x ∷ xs) {m} h =
    let max : max_from x (x ∷ xs) ≡ m = unfold find_max in cc in
    subst (λ n. All (λ y. y ≤ℤ n) (x ∷ xs)) max (max_from-ge x (x ∷ xs)).1

All-le_trans : (a b : ℤ) (xs : List ℤ) → All (λ x. x ≤ℤ a) xs → a ≤ℤ b → All (λ x. x ≤ℤ b) xs
All-le_trans a b [] h le = tt
All-le_trans a b (x ∷ xs) h le = (omega (arith, h.0), All-le_trans a b xs h.1 le)

find_max-none : (xs : List ℤ) → find_max xs ≡ none → xs ≡ []
unfolding find_max
find_max-none [] h = refl
find_max-none (x ∷ xs) h = absurd (ground arith)

reads_allow-All : (ts : ℤ) (reads : List ℤ) → reads_allow ts reads ≡ true → All (λ r. r ≤ℤ ts) reads
reads_allow-All ts reads h = elim (Option-cases (find_max reads)) [
  | inl empty ↦ rw (find_max-none reads empty) tt
  | inr (m, found) ↦ All-le_trans m ts reads (find_max-ge reads found) (ground arith)
]

-- What an accepted write has checked and done.
pub record IsWritten (op : Operation) (acc : Account) (sv sv' : Server) : Type 0 where
  pub after_reads : All (λ r. r ≤ℤ op.timestamp) (list_at op.account sv.rts)
  pub after_commit : (list_at op.account sv.tw ≡ []) ⊎ (acc.committed_timestamp <ℤ op.timestamp)
  pub own :
      own_value op.timestamp (list_at op.account sv'.tw)
      ≡ some (on_top (own_value op.timestamp (list_at op.account sv.tw)) op.amount)
  pub others_kept :
      others op.timestamp (list_at op.account sv'.tw)
      ≡ others op.timestamp (list_at op.account sv.tw)
  pub elsewhere : (j : Text) → text_eq op.account j ≡ false → lookup j sv'.tw ≡ lookup j sv.tw
  pub rest_kept : sv' ≡ record sv { tw = sv'.tw }

-- The list and the server after an accepted write.
abbrev pub write_tw : Operation → Server → List WriteVale
write_tw op sv = tentative op.timestamp op.amount (list_at op.account sv.tw)

abbrev pub after_write : Operation → Server → Server
after_write op sv = record sv { tw = insert op.account (write_tw op sv) sv.tw }

abbrev allowed : Operation → Account → Server → Bool
allowed op acc sv =
    may_write op.timestamp (list_at op.account sv.rts) (list_at op.account sv.tw)
      acc.committed_timestamp

write_rule-allowed :
    (op : Operation) (acc : Account) (sv : Server)
    → allowed op acc sv ≡ true
    → write_rule op acc sv ≡ (false, after_write op sv)
unfolding write_rule
write_rule-allowed op acc sv h = rw h

write_rule-denied :
    (op : Operation) (acc : Account) (sv : Server)
    → allowed op acc sv ≡ false
    → write_rule op acc sv ≡ (true, sv)
unfolding write_rule
write_rule-denied op acc sv h = rw h

All-middle : (ts r : ℤ) (before after : List ℤ) → All (λ x. x ≤ℤ ts) (before ++ r ∷ after) → r ≤ℤ ts
All-middle ts r [] after h = h.0
All-middle ts r (x ∷ before) after h = All-middle ts r before after h.1

write-found :
    (op : Operation) (acc : Account) (sv : Server)
    → lookup op.account sv.accounts ≡ some acc
    → write op sv ≡ returns (write_rule op acc sv)
unfolding write
write-found op acc sv found = rw (found, write)

-- At an account that a later transaction has read, a write is refused and changes nothing.
pub write-too_late :
    (op : Operation) (acc : Account) (r : ℤ) (before after : List ℤ) (sv : Server)
    → lookup op.account sv.accounts ≡ some acc
    → list_at op.account sv.rts ≡ before ++ r ∷ after
    → op.timestamp <ℤ r
    → write op sv ≡ returns (true, sv)
write-too_late op acc r before after sv found reads late = elim (Bool-cases (allowed op acc sv)) [
  | inr denied ↦ write-found op acc sv found ∙ ap returns (write_rule-denied op acc sv denied)
  | inl allows ↦
      let all = reads_allow-All op.timestamp (list_at op.account sv.rts) (and-left _ _ allows) in
      let bound =
        All-middle op.timestamp r before after (subst (All (λ x. x ≤ℤ op.timestamp)) reads all) in
      absurd (omega arith)
]

-- At an account without tentative writes and without reads, a write is accepted although its
-- transaction is older than the commit of the account.
pub write-behind_commit :
    (op : Operation) (acc : Account) (sv : Server)
    → lookup op.account sv.accounts ≡ some acc
    → list_at op.account sv.rts ≡ []
    → list_at op.account sv.tw ≡ []
    → op.timestamp <ℤ acc.committed_timestamp
    → write op sv ≡ returns (false, after_write op sv)
write-behind_commit op acc sv found unread unwritten behind =
    write-found op acc sv found
    ∙ ap returns (write_rule-allowed op acc sv (unfold find_max in rw (unread, unwritten)))
