-- ===== src/Bank/Abort/Result.antt =====
-- What `DoAbort` leaves behind.
use cs.Prelude.{
  filter, not, Bool, ℕ, ◌≤◌, ◌<◌, ◌≡◌, refl, List, [], ◌∷◌, ◌++◌, length, arith, All, dec_lt, subst,
  sym,
}
use cs.Prelude.Int.{ℤ, eqb_ℤ}
use cs.Prelude.Text.{Text}
use cs.Prelude.Dict.{Dict}
use cs.Bank.Outcome.{returns, panics}
use cs.Bank.State.{WriteVale, Account, Server}
use cs.Bank.Abort.{abort_tw, abort_rts, each_list, drop_created, do_abort}
use cs.Bank.Abort.Lists.{others, abort_tw_lem}
use cs.Bank.Abort.Reads.{other_reads, abort_rts_panics}

-- Every TW list without the entries of a transaction.
unfoldable pub map_others : ℤ → Dict (List WriteVale) → Dict (List WriteVale)
map_others ts [] = []
map_others ts ((k, tw) ∷ m) = (k, others ts tw) ∷ map_others ts m

pub each_tw :
    (ts : ℤ) (m : Dict (List WriteVale)) → each_list (abort_tw ts) m ≡ returns (map_others ts m)
unfolding each_list map_others
each_tw ts [] = refl
each_tw ts ((k, tw) ∷ m) = rw (abort_tw_lem ts tw) (rw (each_tw ts m))

-- Another transaction created the account.
abbrev pub created_by_other : ℤ → Text × Account → Bool
created_by_other ts e = not (eqb_ℤ e.1.created_timestamp ts)

drop_created-filter :
    (ts : ℤ) (m : Dict Account) → drop_created ts m ≡ filter (created_by_other ts) m
unfolding drop_created
drop_created-filter ts [] = refl
drop_created-filter ts ((k, acc) ∷ m) = ground (arith, drop_created-filter ts m)

-- An abort that returns: TW holds the other transactions' entries, the accounts that the
-- transaction created are gone, and the other accounts stay in their order; and everything else but
-- RTS is as before.
pub do_abort-returns :
    (ts : ℤ) (sv sv' : Server)
    → do_abort ts sv ≡ returns sv'
    → (sv'.tw ≡ map_others ts sv.tw)
      × (sv'.accounts ≡ filter (created_by_other ts) sv.accounts)
      × (sv'.commit_count ≡ sv.commit_count)
      × (sv'.send_conn ≡ sv.send_conn)
      × (sv'.read_conn ≡ sv.read_conn)
      × (sv'.name ≡ sv.name)
      × (sv'.me ≡ sv.me)
unfolding do_abort
do_abort-returns ts sv sv' h = ground (arith, each_tw ts sv.tw, drop_created-filter ts sv.accounts)

-- Every list of RTS has `n` reads of other transactions.
abbrev pub HasOthers : ℕ → ℤ → Dict (List ℤ) → Type 0
HasOthers n ts = All (λ e. n ≤ length (other_reads ts e.1))

each_rts-returns :
    (n : ℕ) (ts : ℤ) (m : Dict (List ℤ))
    → HasOthers n ts m
    → (m' : Dict (List ℤ)) × (each_list (abort_rts n ts) m ≡ returns m')
unfolding each_list
each_rts-returns n ts [] h = ([], refl)
each_rts-returns n ts ((k, rs) ∷ m) h =
    let (ys, done) = (abort_rts_panics n ts rs).1 h.0 in
    let (m', rest) = each_rts-returns n ts m h.1 in ((k, ys) ∷ m', rw done (rw rest))

each_rts-panics :
    (n : ℕ) (ts : ℤ) (before : Dict (List ℤ)) (k : Text) (rs : List ℤ) (after : Dict (List ℤ))
    → length (other_reads ts rs) < n
    → each_list (abort_rts n ts) (before ++ (k, rs) ∷ after) ≡ panics
unfolding each_list
each_rts-panics n ts [] k rs after short = rw ((abort_rts_panics n ts rs).0 short)
each_rts-panics n ts ((j, qs) ∷ before) k rs after short =
    elim (dec_lt (length (other_reads ts qs)) n) [
      | yes first ↦ rw ((abort_rts_panics n ts qs).0 first)
      | no long ↦
          let (ys, done) = (abort_rts_panics n ts qs).1 (omega arith) in
          rw done (rw (each_rts-panics n ts before k rs after short))
    ]

-- An abort returns where every account that was read has as many reads of other transactions as
-- there are accounts that were read; in particular where nothing was read.
pub do_abort-enough :
    (ts : ℤ) (sv : Server)
    → HasOthers (length sv.rts) ts sv.rts
    → (sv' : Server) × (do_abort ts sv ≡ returns sv')
unfolding do_abort
do_abort-enough ts sv enough =
    let (rts', done) = each_rts-returns (length sv.rts) ts sv.rts enough in
    (
      record sv { tw = map_others ts sv.tw; rts = rts'; accounts = drop_created ts sv.accounts },
      rw (each_tw ts sv.tw) (rw done),
    )

-- An abort panics where some account that was read has fewer reads of other transactions than
-- there are accounts that were read.
pub do_abort-panics :
    (ts : ℤ) (before : Dict (List ℤ)) (k : Text) (rs : List ℤ) (after : Dict (List ℤ)) (sv : Server)
    → sv.rts ≡ before ++ (k, rs) ∷ after
    → length (other_reads ts rs) < length sv.rts
    → do_abort ts sv ≡ panics
unfolding do_abort
do_abort-panics ts before k rs after sv e short =
    let fails : each_list (abort_rts (length sv.rts) ts) sv.rts ≡ panics =
      subst (λ m. each_list (abort_rts (length sv.rts) ts) m ≡ panics) (sym e)
        (each_rts-panics (length sv.rts) ts before k rs after short) in
    rw (each_tw ts sv.tw) (rw fails)
