-- ===== src/Bank/Branch/Merged.antt =====
-- Messages to a branch that one `Read` returns together.
use cs.Prelude.{ℕ, ◌≡◌, refl, sym, ◌∙◌, ap, Bool, true, false, List, [], ◌∷◌, ◌++◌, arith}
use cs.Prelude.Text.{Text, fields, trim_space}
use cs.Prelude.Text.Words.{IsWord}
use cs.Prelude.Text.Trim.{fields-cons, fields-trim_space}
use cs.Bank.State.{Server, Conn}
use cs.Bank.Branch.{
  Command, write_, read_, abort_coordinator, prepare, ready, commit_ok, refused, answer, command_of,
  dispatch, handle_branch,
}

-- The commands of the two phases and of aborts, which use no more than their first two words.
abbrev pub is_short : Command → Bool
is_short write_ = false
is_short read_ = false
is_short answer = false
is_short _ = true

dispatch-short :
    (fuel : ℕ) (c : Command) (text text' w v : Text) (more : List Text) (conn : Conn) (sv : Server)
    → is_short c ≡ true
    → dispatch fuel c text w (v ∷ more) conn sv ≡ dispatch fuel c text' w (v ∷ []) conn sv
unfolding dispatch
dispatch-short fuel write_ text text' w v more conn sv h = ground arith
dispatch-short fuel read_ text text' w v more conn sv h = ground arith
dispatch-short fuel answer text text' w v more conn sv h = ground arith
dispatch-short fuel abort_coordinator text text' w v more conn sv h = refl
dispatch-short fuel prepare text text' w v more conn sv h = refl
dispatch-short fuel ready text text' w v more conn sv h = refl
dispatch-short fuel commit_ok text text' w v more conn sv h = refl
dispatch-short fuel (refused t) text text' w v more conn sv h = refl

pub handle_branch-words :
    (fuel : ℕ) (text w : Text) (words : List Text) (conn : Conn) (sv : Server)
    → fields text ≡ w ∷ words
    → handle_branch fuel text conn sv
      ≡ dispatch fuel (command_of w) (trim_space text) w words conn sv
unfolding handle_branch
handle_branch-words fuel text w words conn sv h =
    let parts = fields-trim_space text ∙ h in rw (handle_branch, parts) refl

-- Where a branch reads a message of two words that belongs to a commit or an abort together with
-- any text behind its line end, it does what it does for that message alone: the text is lost.
pub handle_branch-merged :
    (fuel : ℕ) (w v more : Text) (conn : Conn) (sv : Server)
    → IsWord w
    → IsWord v
    → is_short (command_of w) ≡ true
    → handle_branch fuel (w ++ 32 ∷ (v ++ 10 ∷ more)) conn sv
      ≡ handle_branch fuel (w ++ 32 ∷ (v ++ 10 ∷ [])) conn sv
handle_branch-merged fuel w v more conn sv word word' short =
    let words : (rest : Text) → fields (w ++ 32 ∷ (v ++ 10 ∷ rest)) ≡ w ∷ v ∷ fields rest = λ rest.
      fields-cons w 32 (v ++ 10 ∷ rest) word refl
      ∙ ap (λ ws. w ∷ ws) (fields-cons v 10 rest word' refl) in
    let alone : fields (w ++ 32 ∷ (v ++ 10 ∷ [])) ≡ w ∷ v ∷ [] = words [] ∙ unfold fields in refl in
    handle_branch-words fuel (w ++ 32 ∷ (v ++ 10 ∷ more)) w (v ∷ fields more) conn sv (words more)
    ∙ dispatch-short fuel (command_of w) _ _ w v (fields more) conn sv short
    ∙ sym (handle_branch-words fuel (w ++ 32 ∷ (v ++ 10 ∷ [])) w (v ∷ []) conn sv alone)
