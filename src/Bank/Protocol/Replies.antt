-- ===== src/Bank/Protocol/Replies.antt =====
-- What the handlers of a commit do to a branch and to the network.
use cs.Prelude.{
  ℕ, ◌≡◌, ◌≢◌, refl, sym, ◌∙◌, ap, subst, Bool, some, List, [], ◌∷◌, ◌==◌, ==_iff, ◌⊎◌, inl, inr,
  Bool-cases, some_inj, arith, if◌then◌else◌,
}
use cs.Prelude.Int.{ℤ, IsInt64}
use cs.Prelude.Text.{codes, format_int, parse_int}
use cs.Prelude.Text.Digits.{parse_int-format_int}
use cs.Prelude.Dict.{lookup, insert, lookup-insert_self}
use cs.Bank.Outcome.{returns, ◌>>=◌, >>=-eq-returns, or_panic}
use cs.Bank.State.{Server, Conn, Event, sent}
use cs.Bank.Abort.{do_abort}
use cs.Bank.Commit.{do_commit, check_commit}
use cs.Bank.Branch.{
  Reply, ready_count, branch_prepare, branch_ready, coordinator_commit, refuse, handle_branch,
}
use cs.Bank.Protocol.{packets, line, prepare_text, ready_text, ok_text, refused_text, abort_text}
use cs.Bank.Protocol.Texts.{handle-prepare, handle-ready, handle-ok, handle-refused, handle-abort}
use cs.Bank.Protocol.Sends.{IsWired, Spread}
use cs.Bank.Protocol.Kept.{
  Same, Same-Same, Same-IsWired, do_abort-Same, do_commit-Same, check_commit-Same, or_panic-returns,
  finish, finish_fields,
}

module _ (ts : ℤ) (fuel i : ℕ) (sv sv' : Server) (events : List Event) (int : IsInt64 ts) where
  -- A refusal of a participant, at the coordinator.
  pub gives_up_fields :
      (conn : Conn)
      → IsWired i sv
      → handle_branch fuel (line (refused_text ts)) conn sv ≡ returns (sv', events)
      → Same sv sv' × Spread (abort_text ts) i (packets i events)
  unfolding refuse
  gives_up_fields conn w h =
      let h0 = sym (handle-refused fuel ts conn sv int) ∙ h in
      let (t, parsed, h1) = >>=-eq-returns (or_panic (parse_int (format_int ts))) _ h0 in
      let at : ts ≡ t = some_inj (
        sym (parse_int-format_int ts int)
        ∙ or_panic-returns (parse_int (format_int ts)) t parsed) in
      let (sv1, undone, h2) = >>=-eq-returns (do_abort t sv) _ h1 in
      let same = do_abort-Same t sv sv1 undone in
      let h3 : finish (abort_text ts) (codes "ABORTED") ts sv1 ≡ returns (sv', events) =
        subst (λ z. finish (abort_text z) (codes "ABORTED") ts sv1 ≡ returns (sv', events)) (sym at)
          h2 in
      let r =
        finish_fields (abort_text ts) (codes "ABORTED") ts i sv1 sv' events
          (Same-IsWired i sv sv1 same w) h3 in
      (subst (Same sv) (sym r.0) same, r.1)

  -- The coordinator's abort and commit messages, at a participant.
  pub aborts_fields :
      (conn : Conn)
      → handle_branch fuel (line (abort_text ts)) conn sv ≡ returns (sv', events)
      → Same sv sv' × (events ≡ [])
  aborts_fields conn h =
      let (sv1, undone, e) =
        >>=-eq-returns (do_abort ts sv) _ (sym (handle-abort fuel ts conn sv int) ∙ h) in
      let at : sv1 ≡ sv' = ground (arith, e) in
      (do_abort-Same ts sv sv' (undone ∙ ap returns at), ground (arith, e))

  pub commits_fields :
      (conn : Conn)
      → handle_branch fuel (line (ok_text ts)) conn sv ≡ returns (sv', events)
      → Same sv sv' × (events ≡ [])
  commits_fields conn h =
      let (sv1, done, e) =
        >>=-eq-returns (do_commit fuel ts sv) _ (sym (handle-ok fuel ts conn sv int) ∙ h) in
      let at : sv1 ≡ sv' = ground (arith, e) in
      (do_commit-Same fuel ts sv sv' (done ∙ ap returns at), ground (arith, e))

  -- A participant's vote.
  pub prepares_fields :
      (conn : Conn) (ok : Bool) (sv1 : Server)
      → check_commit ts sv ≡ returns (ok, sv1)
      → handle_branch fuel (line (prepare_text ts)) conn sv ≡ returns (sv', events)
      → Same sv sv' × (events ≡ sent conn (if ok then ready_text ts else refused_text ts) ∷ [])
  unfolding branch_prepare
  prepares_fields conn ok sv1 checked h =
      let same = check_commit-Same ts sv sv1 ok checked in
      let voted : branch_prepare ts conn sv ≡ returns (sv', events) =
        sym (handle-prepare fuel ts conn sv int) ∙ h in
      elim (Bool-cases ok) [
        | inl yes_ ↦
            let last : returns (sv1, sent conn (ready_text ts) ∷ []) ≡ returns (sv', events) =
              sym (rw checked (rw yes_ refl)) ∙ voted in
            let at : sv1 ≡ sv' = ground (arith, last) in
            (subst (Same sv) at same, rw yes_ (ground (arith, last)))
        | inr no_ ↦
            let rest : (do_abort ts sv1 >>= λ s. returns (s, sent conn (refused_text ts) ∷ []))
                ≡ returns (sv', events) =
              sym (rw checked (rw no_ refl)) ∙ voted in
            let (sv2, undone, last) = >>=-eq-returns (do_abort ts sv1) _ rest in
            let at : sv2 ≡ sv' = ground (arith, last) in
            (
              subst (Same sv) at (Same-Same sv sv1 sv2 same (do_abort-Same ts sv1 sv2 undone)),
              rw no_ (ground (arith, last)),
            )
      ]

  -- A vote that the coordinator counts.
  pub counts_fields :
      (conn : Conn)
      → IsWired i sv
      → handle_branch fuel (line (ready_text ts)) conn sv ≡ returns (sv', events)
      → let n = ready_count (format_int ts) sv in
        IsWired i sv'
        × (lookup (format_int ts) sv'.commit_count ≡ some n)
        × (((n ≡ 4) × Spread (ok_text ts) i (packets i events))
            ⊎ ((n ≢ 4) × (packets i events ≡ [])))
  unfolding branch_ready coordinator_commit
  counts_fields conn w h =
      let n = ready_count (format_int ts) sv in
      let next : Server = record sv { commit_count = insert (format_int ts) n sv.commit_count } in
      let wired : IsWired i next = record { me = w.me; names = w.names; wires = w.wires } in
      let counted : lookup (format_int ts) next.commit_count ≡ some n =
        lookup-insert_self (format_int ts) n sv.commit_count in
      let voted : branch_ready fuel (format_int ts) sv ≡ returns (sv', events) =
        sym (handle-ready fuel ts conn sv int) ∙ h in
      elim (Bool-cases (n == 4)) [
        | inl all ↦
            let h0 : coordinator_commit fuel (format_int ts) next ≡ returns (sv', events) =
              sym (rw all refl) ∙ voted in
            let (t, parsed, h1) = >>=-eq-returns (or_panic (parse_int (format_int ts))) _ h0 in
            let (sv1, done, h2) = >>=-eq-returns (do_commit fuel t next) _ h1 in
            let same = do_commit-Same fuel t next sv1 done in
            let r =
              finish_fields (ok_text ts) (codes "COMMIT OK") ts i sv1 sv' events
                (Same-IsWired i next sv1 same wired) h2 in
            (
              subst (IsWired i) (sym r.0) (Same-IsWired i next sv1 same wired),
              ap (λ s. lookup (format_int ts) s.commit_count) r.0
                  ∙ ap (lookup (format_int ts)) same.commit_count
                  ∙ counted,
              inl ((==_iff n 4).0 all, r.1),
            )
        | inr few ↦
            let out : Reply = returns (next, []) in
            let last : out ≡ returns (sv', events) = sym (rw few refl) ∙ voted in
            let at : sv' ≡ next = ground (arith, last) in
            let none_sent : events ≡ [] = ground (arith, last) in
            (
              subst (IsWired i) (sym at) wired,
              ap (λ s. lookup (format_int ts) s.commit_count) at ∙ counted,
              inr (λ e. ground (arith, few, e), ap (packets i) none_sent ∙ unfold packets in refl),
            )
      ]
