-- ===== src/Bank/Tests.antt =====
-- Runs of a branch server on a small bank.
use cs.Bank.Abort.{abort_tw_loop}
use cs.Bank.Abort.{each_list}
use cs.Bank.Commit.{overdrawn}
use cs.Bank.Commit.{tx_related}
use cs.Prelude.Int.{add64}
use cs.Prelude.{filter, ℕ, ◌≡◌, ◌≢◌, refl, true, false, none, some, List, [], ◌∷◌, arith, inl, inr}
use cs.Prelude.Int.{pos}
use cs.Prelude.Int.{neg64, negsuc}
use cs.Prelude.Text.{join, format_int, Text, codes, text_eq}
use cs.Prelude.Dict.{lookup, insert}
use cs.Bank.Outcome.{returns, panics, ◌>>=◌}
use cs.Bank.State.{WriteVale, Account, Method, Operation, Server}
use cs.Bank.Init.{init}
use cs.Bank.Init.Lines.{init_lem}
use cs.Bank.Read.{has_entry, wait_loop}
use cs.Bank.Read.Rule.{wait_loop-forever}
use cs.Bank.Abort.{abort_tw, drop_created, do_abort}
use cs.Bank.Abort.Lists.{others, abort_tw_lem}
use cs.Bank.Abort.Reads.{other_reads}
use cs.Bank.Abort.Result.{
  created_by_other, map_others, do_abort-returns, do_abort-enough, do_abort-panics,
}
use cs.Bank.Commit.{balance_at, commit_loop, check_commit, do_commit}
use cs.Bank.Commit.Loop.{commit_loop_lem}
use cs.Bank.Commit.Stuck.{do_commit-stuck}
use cs.Bank.Commit.Result.{settled, committed_accounts, do_commit_lem}
use cs.Bank.Commit.Solvent.{AllSolvent, do_commit-AllSolvent}
use cs.Bank.Commit.Twice.{two_writers, do_commit-twice}

abbrev foo : Text
foo = codes "foo"

abbrev foo_account : Account
foo_account = record {
  name = foo;
  committed_value = pos 100;
  committed_timestamp = pos 5;
  amount = pos 0;
  created_timestamp = pos 1;
}

abbrev entry : ℕ → ℕ → WriteVale
entry t v = record { timestamp = pos t; value = pos v }

-- Transaction 10 has deposited 7 in an account that was committed at 5, and 12 has read nothing.
abbrev bank : Server
bank = record {
  me = codes "A";
  accounts = (foo, foo_account) ∷ [];
  send_conn = [];
  read_conn = [];
  tw = (foo, entry 10 7 ∷ []) ∷ [];
  rts = [];
  name = codes "A" ∷ [];
  commit_count = [];
}

abbrev deposit : ℕ → ℕ → Operation
deposit t v = record {
  method = Method.deposit;
  branch = codes "A";
  account = foo;
  amount = pos v;
  timestamp = pos t;
}

abbrev after_deposit : Server
after_deposit = record bank { tw = (foo, entry 10 7 ∷ entry 11 3 ∷ []) ∷ [] }

abbrev was_read : Server
was_read = record bank { rts = (foo, pos 9 ∷ pos 20 ∷ []) ∷ [] }

abbrev unwritten : Server
unwritten = record bank { tw = [] }

abbrev query : ℕ → Operation
query t = record {
  method = Method.balance;
  branch = codes "A";
  account = foo;
  amount = pos 0;
  timestamp = pos t;
}

-- The transaction is in the list at first, and gone in the next round.
wait_loop-forever_example : wait_loop true (pos 10) ((entry 10 7 ∷ []) ∷ [] ∷ []) ≡ false
unfolding has_entry
wait_loop-forever_example = wait_loop-forever (pos 10) (entry 10 7 ∷ []) ([] ∷ [])

abbrev two_entries : List WriteVale
two_entries = entry 10 7 ∷ entry 9 1 ∷ entry 10 2 ∷ []

abort_tw_example : abort_tw (pos 10) two_entries ≡ returns (entry 9 1 ∷ [])
unfolding others
abort_tw_example = abort_tw_lem (pos 10) two_entries

abbrev after_abort : Server
after_abort = record bank { tw = (foo, []) ∷ [] }

do_abort-returns_example :
    (after_abort.tw ≡ map_others (pos 10) bank.tw)
    × (after_abort.accounts ≡ filter (created_by_other (pos 10)) bank.accounts)
    × (after_abort.commit_count ≡ bank.commit_count)
    × (after_abort.send_conn ≡ bank.send_conn)
    × (after_abort.read_conn ≡ bank.read_conn)
    × (after_abort.name ≡ bank.name)
    × (after_abort.me ≡ bank.me)
unfolding do_abort each_list abort_tw abort_tw_loop drop_created
do_abort-returns_example = do_abort-returns (pos 10) bank after_abort refl

do_abort-enough_example : (sv' : Server) × (do_abort (pos 9) was_read ≡ returns sv')
unfolding other_reads
do_abort-enough_example = do_abort-enough (pos 9) was_read (omega arith, tt)

abbrev read_once : Server
read_once = record bank { rts = (foo, pos 10 ∷ []) ∷ [] }

-- The transaction that aborts is the only reader.
do_abort-panics_example : do_abort (pos 10) read_once ≡ panics
unfolding other_reads
do_abort-panics_example =
    do_abort-panics (pos 10) [] foo (pos 10 ∷ []) [] read_once refl (omega arith)

commit_loop_example :
    commit_loop 4 (pos 10) 0 (record { tw = two_entries; ds = pos 100; flag = false })
    ≡ returns (record { tw = entry 9 1 ∷ []; ds = pos 110; flag = true })
unfolding others balance_at has_entry add64
commit_loop_example =
    commit_loop_lem 4 (pos 10) (pos 100) two_entries (omega arith)
      (omega arith, (omega arith, (omega arith, tt)))

foo-known : lookup foo bank.accounts ≢ none
unfolding lookup text_eq
foo-known h = ground arith

abbrev after_commit : Server
after_commit = record bank {
  accounts =
      (foo, record foo_account { committed_value = pos 107; committed_timestamp = pos 10 }) ∷ [];
  tw = (foo, []) ∷ [];
}

do_commit_example : do_commit 2 (pos 10) bank ≡ returns after_commit
unfolding map_others committed_accounts settled others has_entry lookup text_eq insert balance_at
    add64
do_commit_example =
    do_commit_lem 2 (pos 10) bank (((omega arith, tt), omega arith), tt) ((λ _. foo-known), tt)

-- Transaction 10 commits while 12 has written.
abbrev overtaken : Server
overtaken = record bank { tw = (foo, entry 10 7 ∷ entry 12 1 ∷ []) ∷ [] }

do_commit-stuck_example : ¬ (do_commit 1000 (pos 10) overtaken ≡ returns after_commit)
do_commit-stuck_example =
    do_commit-stuck 1000 (pos 10) overtaken after_commit (inl (inr (inl (omega arith))))

do_commit-AllSolvent_example :
    (sv' : Server) × (do_commit 2 (pos 10) bank ≡ returns sv') × AllSolvent sv'.accounts
unfolding check_commit tx_related overdrawn add64 lookup text_eq
do_commit-AllSolvent_example =
    do_commit-AllSolvent 2 (pos 10) bank bank (tt, tt) (((omega arith, tt), omega arith), tt)
      ((λ _. foo-known), tt) refl (omega arith, tt)

do_commit-twice_example :
    (do_commit 3 (pos 12) (two_writers bank foo foo_account (pos 10) (pos 7) (pos 12) (pos 1))
      >>= do_commit 3 (pos 10))
    ≡ returns (record bank {
      accounts =
          (foo, record foo_account { committed_value = pos 115; committed_timestamp = pos 10 })
          ∷ [];
      tw = (foo, []) ∷ [];
    })
unfolding balance_at add64
do_commit-twice_example =
    do_commit-twice 3 bank foo foo_account (pos 10) (pos 7) (pos 12) (pos 1) (omega arith)
      (omega arith)

init_example :
    (init (codes "DEPOSIT A.foo 10 7") ≡ some (deposit 7 10))
    × (init (codes "WITHDRAW A.foo 10 7")
        ≡ some (record (deposit 7 10) { method = Method.withdraw; amount = negsuc 9 }))
    × (init (codes "BALANCE A.foo 7") ≡ some (query 7))
unfolding join format_int neg64
init_example =
    init_lem (codes "A") foo (pos 10) (pos 7) (refl, tt) (refl, (refl, (refl, tt)))
      (refl, (refl, (refl, (refl, (refl, tt))))) (omega arith, omega arith)
      (omega arith, omega arith)
