-- ===== src/Raft/Cluster/Logs.antt =====
-- Logs that are beginnings of the same history, and what `AppendEntries` makes of two of them.
use cs.Prelude.{
  ℕ, zero, suc, ◌+◌, ◌<◌, ◌≡◌, ◌⊎◌, inl, inr, refl, sym, ◌∙◌, ap, subst, some, List, [], ◌∷◌, ◌++◌,
  ◌==◌, ==_iff, length, get_elem?, take, drop, Bool-cases, append_assoc, get_elem?-lt, take-append,
  take-append-drop, length-take, length-append, dec_lt, some_inj, arith,
}
use cs.Raft.State.{LogEntry}
use cs.Raft.Append.{install}
use cs.Raft.Append.Merge.{overwrite, install-eq-overwrite}

module _ {ℓ} {A : Type ℓ} where
  get_elem?-append_at :
      (xs : List A) (x : A) (ys : List A) → get_elem? (xs ++ x ∷ ys) (length xs) ≡ some x
  get_elem?-append_at [] x ys = refl
  get_elem?-append_at (y ∷ xs) x ys = get_elem?-append_at xs x ys

  get_elem?-append_left :
      (xs ys : List A) (k : ℕ) → k < length xs → get_elem? (xs ++ ys) k ≡ get_elem? xs k
  get_elem?-append_left [] ys k h = absurd (omega arith)
  get_elem?-append_left (x ∷ xs) ys zero h = refl
  get_elem?-append_left (x ∷ xs) ys (suc k) h = get_elem?-append_left xs ys k (omega arith)

  get_elem?-take : (k : ℕ) (xs : List A) → get_elem? (take (suc k) xs) k ≡ get_elem? xs k
  get_elem?-take k [] = refl
  get_elem?-take zero (x ∷ xs) = refl
  get_elem?-take (suc k) (x ∷ xs) = get_elem?-take k xs

module _ {C : Type 0} where
  -- Where two logs have entries of one term at a position, they are the same up to there.
  abbrev pub Agree : List (LogEntry C) → List (LogEntry C) → Type 0
  Agree xs ys =
      (k : ℕ) (x y : LogEntry C)
      → get_elem? xs k ≡ some x
      → get_elem? ys k ≡ some y
      → x.term ≡ y.term
      → take (suc k) xs ≡ take (suc k) ys

  overwrite-one :
      (p a b : List (LogEntry C))
      → Agree (p ++ a) (p ++ b)
      → (p ++ overwrite a b ≡ p ++ a) ⊎ (p ++ overwrite a b ≡ p ++ b)
  unfolding overwrite
  overwrite-one p [] b h = inr refl
  overwrite-one p (o ∷ a) [] h = inl refl
  overwrite-one p (o ∷ a) (e ∷ b) h = elim (Bool-cases (o.term == e.term)) [
    | inr differ ↦ inr (rw differ refl)
    | inl same ↦
        let taken =
          h (length p) o e (get_elem?-append_at p o a) (get_elem?-append_at p e b)
            ((==_iff o.term e.term).0 same) in
        let entry : some o ≡ some e =
          sym (get_elem?-append_at p o a)
          ∙ sym (get_elem?-take (length p) (p ++ o ∷ a))
          ∙ ap (λ xs. get_elem? xs (length p)) taken
          ∙ get_elem?-take (length p) (p ++ e ∷ b)
          ∙ get_elem?-append_at p e b in
        let eq : o ≡ e = some_inj entry in
        let left : (z : List (LogEntry C)) → (p ++ o ∷ []) ++ z ≡ p ++ o ∷ z =
          λ z. append_assoc p (o ∷ []) z in
        let right : p ++ e ∷ b ≡ (p ++ o ∷ []) ++ b =
          ap (λ z. p ++ z ∷ b) (sym eq) ∙ sym (left b) in
        let shorter : Agree ((p ++ o ∷ []) ++ a) ((p ++ o ∷ []) ++ b) =
          subst (Agree ((p ++ o ∷ []) ++ a)) right
            (subst (λ z. Agree z (p ++ e ∷ b)) (sym (left a)) h) in
        elim (overwrite-one (p ++ o ∷ []) a b shorter) [
          | inl old ↦ inl (rw same (sym (left (overwrite a b)) ∙ old ∙ left a))
          | inr new ↦ inr (rw same (sym (left (overwrite a b)) ∙ new ∙ sym right))
        ]
  ]

  -- `install` of what follows in another log gives one of the two logs.
  pub install-one :
      (r l : List (LogEntry C)) (prev : ℕ) (x y : LogEntry C)
      → Agree r l
      → get_elem? r prev ≡ some x
      → get_elem? l prev ≡ some y
      → x.term ≡ y.term
      → (install r prev (drop (suc prev) l) ≡ r) ⊎ (install r prev (drop (suc prev) l) ≡ l)
  install-one r l prev x y agree found_r found_l same =
      let common = agree prev x y found_r found_l same in
      let next : prev + 1 ≡ suc prev = omega arith in
      let merged =
        install-eq-overwrite r prev (drop (suc prev) l) (get_elem?-lt r prev found_r)
        ∙ ap (λ n. take n r ++ overwrite (drop n r) (drop (suc prev) l)) next in
      let whole_r = take-append-drop (suc prev) r in
      let whole_l : take (suc prev) r ++ drop (suc prev) l ≡ l =
        ap (λ z. z ++ drop (suc prev) l) common ∙ take-append-drop (suc prev) l in
      let both : Agree (take (suc prev) r ++ drop (suc prev) r)
          (take (suc prev) r ++ drop (suc prev) l) =
        subst (Agree (take (suc prev) r ++ drop (suc prev) r)) (sym whole_l)
          (subst (λ z. Agree z l) (sym whole_r) agree) in
      elim (overwrite-one (take (suc prev) r) (drop (suc prev) r) (drop (suc prev) l) both) [
        | inl old ↦ inl (merged ∙ old ∙ whole_r)
        | inr new ↦ inr (merged ∙ new ∙ whole_l)
      ]

  -- Each entry's term is known, and up to that entry the log is that of the term.
  abbrev pub Good : (ℕ → Type 0) → (ℕ → List (LogEntry C)) → List (LogEntry C) → Type 0
  Good Known logs xs =
      (k : ℕ) (x : LogEntry C)
      → get_elem? xs k ≡ some x
      → Known x.term × (take (suc k) xs ≡ take (suc k) (logs x.term))

  pub Good-Agree :
      (Known : ℕ → Type 0) (logs : ℕ → List (LogEntry C)) (xs ys : List (LogEntry C))
      → Good Known logs xs
      → Good Known logs ys
      → Agree xs ys
  Good-Agree Known logs xs ys g h k x y found_x found_y same =
      (g k x found_x).1 ∙ ap (λ t. take (suc k) (logs t)) same ∙ sym (h k y found_y).1

  -- The history grows.
  pub Good-later :
      (Known Known' : ℕ → Type 0) (logs logs' : ℕ → List (LogEntry C)) (xs : List (LogEntry C))
      → ((t : ℕ) → Known t → Known' t)
      → ((t k : ℕ) → Known t → k < length (logs t) → take (suc k) (logs' t) ≡ take (suc k) (logs t))
      → Good Known logs xs
      → Good Known' logs' xs
  Good-later Known Known' logs logs' xs knows grows g k x found =
      let (known, same) = g k x found in
      let inside = get_elem?-lt xs k found in
      let long : k < length (logs x.term) =
        omega (arith, length-take (suc k) xs, length-take (suc k) (logs x.term), ap length same) in
      (knows x.term known, same ∙ sym (grows x.term k known long))

  pub Good-append :
      (Known : ℕ → Type 0) (logs : ℕ → List (LogEntry C)) (xs : List (LogEntry C)) (x : LogEntry C)
      → Known x.term
      → logs x.term ≡ xs ++ x ∷ []
      → Good Known logs xs
      → Good Known logs (xs ++ x ∷ [])
  Good-append Known logs xs x known newest g k y found = elim (dec_lt k (length xs)) [
    | yes old ↦
        let (known_y, same) = g k y (sym (get_elem?-append_left xs (x ∷ []) k old) ∙ found) in
        (known_y, take-append (suc k) xs (x ∷ []) old ∙ same)
    | no new ↦
        let inside = get_elem?-lt (xs ++ x ∷ []) k found in
        let last : k ≡ length xs = omega (arith, length-append xs (x ∷ [])) in
        let entry : some y ≡ some x =
          sym found ∙ ap (get_elem? (xs ++ x ∷ [])) last ∙ get_elem?-append_at xs x [] in
        let eq : y ≡ x = some_inj entry in
        (
          subst Known (ap (λ z. z.term) (sym eq)) known,
          ap (take (suc k)) (sym newest ∙ ap (λ z. logs z.term) (sym eq)),
        )
  ]
