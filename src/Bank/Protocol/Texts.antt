-- ===== src/Bank/Protocol/Texts.antt =====
-- The messages of a commit, as `handleBranch` reads them.
use cs.Prelude.{ℕ, ◌≡◌, refl, ◌∙◌, ap, [], ◌∷◌}
use cs.Prelude.Int.{ℤ, IsInt64}
use cs.Prelude.Text.{Text, codes, fields, trim_space, format_int}
use cs.Prelude.Text.Digits.{parse_int-format_int}
use cs.Prelude.Text.Words.{IsWord, is_word-IsWord, fields-join, format_int-IsWord}
use cs.Prelude.Text.Trim.{fields-spaces}
use cs.Bank.Outcome.{returns, ◌>>=◌}
use cs.Bank.State.{Server, Conn}
use cs.Bank.Abort.{do_abort}
use cs.Bank.Commit.{do_commit}
use cs.Bank.Branch.{
  command_of, message, branch_prepare, branch_ready, refuse, dispatch, handle_branch,
}
use cs.Bank.Branch.Merged.{handle_branch-words}
use cs.Bank.Branch.Parsed.{parsed_value-parse_int}
use cs.Bank.Protocol.{line, prepare_text, ready_text, ok_text, refused_text, abort_text}

fields-line : (w : Text) (ts : ℤ) → IsWord w → fields (line (message w ts)) ≡ w ∷ format_int ts ∷ []
fields-line w ts h =
    fields-spaces (message w ts) (10 ∷ []) (refl, tt)
    ∙ fields-join (w ∷ format_int ts ∷ []) (h, (format_int-IsWord ts, tt))

handle_branch-line :
    (fuel : ℕ) (w : Text) (ts : ℤ) (conn : Conn) (sv : Server)
    → IsWord w
    → handle_branch fuel (line (message w ts)) conn sv
      ≡ dispatch fuel
          (command_of w)
          (trim_space (line (message w ts)))
          w
          (format_int ts ∷ [])
          conn
          sv
handle_branch-line fuel w ts conn sv h =
    handle_branch-words fuel (line (message w ts)) w (format_int ts ∷ []) conn sv
      (fields-line w ts h)

module _ (fuel : ℕ) (ts : ℤ) (conn : Conn) (sv : Server) (h : IsInt64 ts) where
  pub handle-prepare :
      handle_branch fuel (line (prepare_text ts)) conn sv ≡ branch_prepare ts conn sv
  unfolding dispatch command_of
  handle-prepare =
      handle_branch-line fuel (codes "COMMIT_PREPARE") ts conn sv
        (is_word-IsWord (codes "COMMIT_PREPARE") refl)
      ∙ ap (λ z. branch_prepare z conn sv)
          (parsed_value-parse_int (format_int ts) ts (parse_int-format_int ts h))

  pub handle-ready :
      handle_branch fuel (line (ready_text ts)) conn sv ≡ branch_ready fuel (format_int ts) sv
  unfolding dispatch command_of
  handle-ready =
      handle_branch-line fuel (codes "COMMIT_READY") ts conn sv
        (is_word-IsWord (codes "COMMIT_READY") refl)

  pub handle-ok :
      handle_branch fuel (line (ok_text ts)) conn sv
      ≡ (do_commit fuel ts sv >>= λ sv'. returns (sv', []))
  unfolding dispatch command_of
  handle-ok =
      handle_branch-line fuel (codes "COMMIT_OK") ts conn sv
        (is_word-IsWord (codes "COMMIT_OK") refl)
      ∙ rw (parse_int-format_int ts h) refl

  pub handle-refused :
      handle_branch fuel (line (refused_text ts)) conn sv
      ≡ refuse (codes "ABORTED") (format_int ts) sv
  unfolding dispatch command_of
  handle-refused =
      handle_branch-line fuel (codes "ABORTED") ts conn sv (is_word-IsWord (codes "ABORTED") refl)

  pub handle-abort :
      handle_branch fuel (line (abort_text ts)) conn sv
      ≡ (do_abort ts sv >>= λ sv'. returns (sv', []))
  unfolding dispatch command_of
  handle-abort =
      handle_branch-line fuel (codes "ABORT_Coordinator") ts conn sv
        (is_word-IsWord (codes "ABORT_Coordinator") refl)
      ∙ rw (parse_int-format_int ts h) refl
