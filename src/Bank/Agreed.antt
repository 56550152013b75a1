-- ===== src/Bank/Agreed.antt =====
-- A run of the commit of transaction 7 at coordinator `A`, up to the first branch that gets COMMIT_OK.
use cs.Prelude.{
  In, ℕ, zero, suc, ◌<◌, ◌≡◌, refl, sym, ◌∙◌, ap, true, false, some, [], ◌∷◌, Bool-cases, inl, inr,
  arith,
}
use cs.Prelude.Int.{pos, IsInt64, add64}
use cs.Prelude.Text.{Text, parse_int, format_int, codes, text_eq, text_eq→eq}
use cs.Prelude.Dict.{Dict, lookup, insert}
use cs.Bank.State.{Account, Server, Conn}
use cs.Bank.Commit.{
  check_commit, do_commit, commit_loop, commit_lists, settle, tx_related, overdrawn,
}
use cs.Bank.Handler.{broadcast, broadcast_to, handle_operation, end_check}
use cs.Bank.Branch.{branch_prepare, branch_ready, coordinator_commit}
use cs.Bank.Protocol.{
  branches, branch, Packet, prepare_text, ready_text, ok_text, System, begins, prepares, counts,
  commits, packets,
}
use cs.Bank.Protocol.Sends.{has_text}
use cs.Bank.Protocol.Texts.{handle-prepare, handle-ready, handle-ok}
use cs.Bank.Protocol.Agreement.Begins.{IsStart}
use cs.Bank.Protocol.Agreement.Runs.{Reach, start, then_}
use cs.Bank.Protocol.Agreement.Atomic.{atomic_commit}

abbrev key : Text
key = 55 ∷ []

-- The first branches, and the client of transaction 7.
unfoldable conns : ℕ → Dict Conn
conns zero = (key, 5) ∷ []
conns (suc n) = (branch n, n) ∷ conns n

conns-branch :
    (m : ℕ) (n : Text) (k : Conn) → lookup n (conns m) ≡ some k → k < branches → n ≡ branch k
unfolding conns lookup
conns-branch zero n k found near = elim (Bool-cases (text_eq key n)) [
  | inl yes_ ↦ absurd (ground (arith, yes_, found, near))
  | inr no_ ↦ absurd (ground (arith, no_, found))
]
conns-branch (suc m) n k found near = elim (Bool-cases (text_eq (branch m) n)) [
  | inl yes_ ↦ sym (text_eq→eq (branch m) n yes_) ∙ ap branch (ground (arith, yes_, found))
  | inr no_ ↦ conns-branch m n k (ground (arith, no_, found)) near
]

abbrev account : Account
account = record {
  name = codes "x";
  committed_value = pos 100;
  committed_timestamp = pos 5;
  amount = pos 0;
  created_timestamp = pos 1;
}

-- Each branch has one account, to which the transaction adds 3.
abbrev member : ℕ → Server
member i = record {
  me = branch i;
  accounts = (codes "x", account) ∷ [];
  send_conn = conns 5;
  read_conn = (key, 5) ∷ [];
  tw = (codes "x", record { timestamp = pos 7; value = pos 3 } ∷ []) ∷ [];
  rts = [];
  name = branch 0 ∷ branch 1 ∷ branch 2 ∷ branch 3 ∷ branch 4 ∷ [];
  commit_count = [];
}

abbrev initial : System
initial = record {
  server = member;
  net = [];
  begun = false;
  ready = [];
  refusing = [];
  counted = [];
  committed = [];
  aborted = [];
}

initial-IsStart : IsStart initial
unfolding has_text text_eq
initial-IsStart = record {
  wired = λ i. record {
    me = refl;
    names = (refl, (refl, (refl, (refl, (refl, tt)))));
    wires = conns-branch 5;
  };
  quiet = refl;
  unasked = refl;
  nobody = (refl, refl, refl, refl, refl);
}

abbrev question : ℕ → Packet
question j = record { sender = 0; receiver = j; text = prepare_text (pos 7) }

abbrev answer : ℕ → Packet
answer j = record { sender = j; receiver = 0; text = ready_text (pos 7) }

abbrev final_word : ℕ → Packet
final_word j = record { sender = 0; receiver = j; text = ok_text (pos 7) }

small : IsInt64 (pos 7)
small = omega arith

abbrev Run : Type 0
Run = (s : System) × Reach (pos 7) 0 s

unfoldable asked : Run
unfolding handle_operation check_commit end_check broadcast broadcast_to conns lookup insert packets
    tx_related overdrawn add64 text_eq
asked = (_, then_ (start initial-IsStart) (begins 5 _ false _ refl (omega arith) refl))

unfoldable voted : Run
unfolding handle_operation check_commit end_check broadcast broadcast_to conns lookup insert packets
    tx_related overdrawn add64 text_eq asked branch_prepare
voted = (
  _,
  then_
      (then_
        (then_
          (then_ asked.1 (
            prepares 0 0 1 [] (question 2 ∷ question 3 ∷ question 4 ∷ []) _ _ true _ refl
              (handle-prepare 0 (pos 7) 0 _ small ∙ refl) refl))
          (prepares 0 0 2 (answer 1 ∷ []) (question 3 ∷ question 4 ∷ []) _ _ true _ refl
            (handle-prepare 0 (pos 7) 0 _ small ∙ refl) refl))
        (prepares 0 0 3 (answer 2 ∷ answer 1 ∷ []) (question 4 ∷ []) _ _ true _ refl
          (handle-prepare 0 (pos 7) 0 _ small ∙ refl) refl))
      (prepares 0 0 4 (answer 3 ∷ answer 2 ∷ answer 1 ∷ []) [] _ _ true _ refl
        (handle-prepare 0 (pos 7) 0 _ small ∙ refl) refl),
)

unfoldable agreed : Run
unfolding handle_operation check_commit end_check broadcast broadcast_to conns lookup insert packets
    tx_related overdrawn add64 text_eq asked branch_prepare voted branch_ready coordinator_commit
    do_commit commit_loop commit_lists settle parse_int format_int
agreed = (
  _,
  then_
      (then_
        (then_
          (then_
            (then_ voted.1 (
              counts 2 4 0 [] (answer 3 ∷ answer 2 ∷ answer 1 ∷ []) _ _ refl
                (handle-ready 2 (pos 7) 4 _ small ∙ refl)))
            (counts 2 3 0 [] (answer 2 ∷ answer 1 ∷ []) _ _ refl
              (handle-ready 2 (pos 7) 3 _ small ∙ refl)))
          (counts 2 2 0 [] (answer 1 ∷ []) _ _ refl (handle-ready 2 (pos 7) 2 _ small ∙ refl)))
        (counts 2 1 0 [] [] _ _ refl (handle-ready 2 (pos 7) 1 _ small ∙ refl)))
      (commits 2 0 1 [] (final_word 2 ∷ final_word 3 ∷ final_word 4 ∷ []) _ _ refl
        (handle-ok 2 (pos 7) 0 _ small ∙ refl)),
)

-- Branch 1 and the coordinator have committed.
atomic_commit_example : (agreed.0.refusing ≡ []) × (agreed.0.aborted ≡ []) × In 3 agreed.0.ready
unfolding agreed
atomic_commit_example =
    atomic_commit (pos 7) 0 1 3 agreed.0 (omega arith) (omega arith) small agreed.1 (inl refl)
