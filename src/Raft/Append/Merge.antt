-- ===== src/Raft/Append/Merge.antt =====
-- The log after `AppendEntries`, against a description by recursion on the two lists.
use cs.Prelude.{
  ℕ, suc, ◌+◌, ◌-◌, ◌≤◌, ◌<◌, ◌≡◌, refl, ◌∙◌, ap, take-length, take-take_append, drop-take_append,
  length-append, length-take, true, false, none, some, Option, List, [], ◌∷◌, ◌++◌, length,
  get_elem?, take, drop, ◌==◌, if◌then◌else◌, take-append-drop, drop-past, take-suc, drop-get_elem?,
  get_elem?-lt, get_elem?-ge, not, sym, append_assoc, Option-cases, Bool-cases, arith, inl, inr,
}
use cs.Raft.State.{LogEntry}
use cs.Raft.Append.{conflicts, find_point, install}

module _ {C : Type 0} where
  -- Old entries stay as long as their terms agree with the new ones; from the first that differs
  -- on, the new ones replace them.
  unfoldable pub overwrite : List (LogEntry C) → List (LogEntry C) → List (LogEntry C)
  overwrite [] new = new
  overwrite (o ∷ old) [] = o ∷ old
  overwrite (o ∷ old) (e ∷ new) = if o.term == e.term then o ∷ overwrite old new else e ∷ new

  overwrite-nil : (old : List (LogEntry C)) → overwrite old [] ≡ old
  unfolding overwrite
  overwrite-nil [] = refl
  overwrite-nil (o ∷ old) = refl

  -- The code's splice at a point, for entries that begin at position `i`.
  splice : List (LogEntry C) → ℕ → List (LogEntry C) → Option ℕ → List (LogEntry C)
  splice log i entries none = log
  splice log i entries (some point) = take point log ++ drop (point - i) entries

  find_point-here :
      (log : List (LogEntry C)) (i : ℕ) (e : LogEntry C) (entries : List (LogEntry C))
      → conflicts log i e ≡ true
      → find_point log i (e ∷ entries) ≡ some i
  unfolding find_point
  find_point-here log i e entries h = ground arith

  find_point-later :
      (log : List (LogEntry C)) (i : ℕ) (e : LogEntry C) (entries : List (LogEntry C))
      → conflicts log i e ≡ false
      → find_point log i (e ∷ entries) ≡ find_point log (suc i) entries
  unfolding find_point
  find_point-later log i e entries h = ground arith

  pub find_point-ge :
      (log : List (LogEntry C)) (i : ℕ) (entries : List (LogEntry C)) {point : ℕ}
      → find_point log i entries ≡ some point
      → i ≤ point
  find_point-ge log i [] h = unfold find_point in ground arith
  find_point-ge log i (e ∷ entries) {point} h = elim (Bool-cases (conflicts log i e)) [
    | inl clash ↦
        let here : some i ≡ some point = sym (find_point-here log i e entries clash) ∙ h in
        ground arith
    | inr same ↦
        let later =
          find_point-ge log (suc i) entries (sym (find_point-later log i e entries same) ∙ h) in
        omega arith
  ]

  splice-suc :
      (log : List (LogEntry C)) (i : ℕ) (e : LogEntry C) (entries : List (LogEntry C))
      → splice log i (e ∷ entries) (find_point log (suc i) entries)
        ≡ splice log (suc i) entries (find_point log (suc i) entries)
  unfolding splice
  splice-suc log i e entries = elim (Option-cases (find_point log (suc i) entries)) [
    | inl quiet ↦ rw quiet
    | inr (point, found) ↦
        let later = find_point-ge log (suc i) entries found in
        let shift : point - i ≡ suc (point - suc i) = omega arith in rw (found, shift)
  ]

  splice-here :
      (log : List (LogEntry C)) (i : ℕ) (entries : List (LogEntry C))
      → splice log i entries (some i) ≡ take i log ++ entries
  unfolding splice
  splice-here log i entries = let here : i - i ≡ 0 = omega arith in rw here

  overwrite-keep :
      (e old : LogEntry C) (rest entries : List (LogEntry C))
      → not (old.term == e.term) ≡ false
      → overwrite (old ∷ rest) (e ∷ entries) ≡ old ∷ overwrite rest entries
  unfolding overwrite
  overwrite-keep e old rest entries h = ground arith

  overwrite-replace :
      (e old : LogEntry C) (rest entries : List (LogEntry C))
      → not (old.term == e.term) ≡ true
      → overwrite (old ∷ rest) (e ∷ entries) ≡ e ∷ entries
  unfolding overwrite
  overwrite-replace e old rest entries h = ground arith

  conflicts-some :
      (log : List (LogEntry C)) (i : ℕ) (e old : LogEntry C)
      → get_elem? log i ≡ some old
      → conflicts log i e ≡ not (old.term == e.term)
  conflicts-some log i e old found = rw (found, conflicts)

  -- At a position that holds an entry of the same term, both sides keep that entry.
  overwrite-same :
      (log : List (LogEntry C)) (i : ℕ) (e old : LogEntry C) (entries : List (LogEntry C))
      → get_elem? log i ≡ some old
      → conflicts log i e ≡ false
      → take (suc i) log ++ overwrite (drop (suc i) log) entries
        ≡ take i log ++ overwrite (drop i log) (e ∷ entries)
  overwrite-same log i e old entries found same =
      let keep =
        overwrite-keep e old (drop (suc i) log) entries
          (sym (conflicts-some log i e old found) ∙ same) in
      rw (take-suc log i found, drop-get_elem? log i found, keep) (append_assoc (take i log) _ _)

  overwrite-clash :
      (log : List (LogEntry C)) (i : ℕ) (e : LogEntry C) (entries : List (LogEntry C))
      → i ≤ length log
      → conflicts log i e ≡ true
      → overwrite (drop i log) (e ∷ entries) ≡ e ∷ entries
  overwrite-clash log i e entries le clash = elim (Option-cases (get_elem? log i)) [
    | inl past ↦ rw (drop-past i log (get_elem?-ge log i past)) (unfold overwrite in refl)
    | inr (old, found) ↦
        rw (drop-get_elem? log i found)
          (overwrite-replace e old _ entries (sym (conflicts-some log i e old found) ∙ clash))
  ]

  splice_lem :
      (log : List (LogEntry C)) (i : ℕ) (entries : List (LogEntry C))
      → i ≤ length log
      → splice log i entries (find_point log i entries)
        ≡ take i log ++ overwrite (drop i log) entries
  splice_lem log i [] h =
      unfold find_point splice in rw overwrite-nil (sym (take-append-drop i log))
  splice_lem log i (e ∷ entries) h = elim (Bool-cases (conflicts log i e)) [
    | inl clash ↦ rw (
      find_point-here log i e entries clash,
      splice-here,
      overwrite-clash log i e entries h clash,
    )
    | inr same ↦ elim (Option-cases (get_elem? log i)) [
      | inl past ↦ ground arith
      | inr (old, found) ↦
          rw (find_point-later log i e entries same, splice-suc)
            (splice_lem log (suc i) entries (get_elem?-lt log i found)
              ∙ overwrite-same log i e old entries found same)
    ]
  ]

  install-eq-splice :
      (log : List (LogEntry C)) (prev : ℕ) (entries : List (LogEntry C))
      → install log prev entries ≡ splice log (prev + 1) entries (find_point log (prev + 1) entries)
  unfolding install splice
  install-eq-splice log prev entries = elim (Option-cases (find_point log (prev + 1) entries)) [
    | inl quiet ↦ rw (quiet, install)
    | inr (point, found) ↦
        let shift : point - 1 - prev ≡ point - (prev + 1) = omega arith in
        rw (found, install) (rw shift)
  ]

  -- Where the previous position lies in the log, the log that the code splices together is the
  -- old one up to that position, then the merge of its rest with the entries: old entries stay as
  -- long as their terms agree with the new ones, and from the first that differs on the new ones
  -- stand.
  pub install-eq-overwrite :
      (log : List (LogEntry C)) (prev : ℕ) (entries : List (LogEntry C))
      → prev < length log
      → install log prev entries ≡ take (prev + 1) log ++ overwrite (drop (prev + 1) log) entries
  install-eq-overwrite log prev entries h =
      install-eq-splice log prev entries ∙ splice_lem log (prev + 1) entries (omega arith)

  overwrite_self : (new : List (LogEntry C)) → overwrite new new ≡ new
  unfolding overwrite
  overwrite_self [] = refl
  overwrite_self (e ∷ new) = ground (arith, overwrite_self new)

  overwrite_idem :
      (old new : List (LogEntry C)) → overwrite (overwrite old new) new ≡ overwrite old new
  unfolding overwrite
  overwrite_idem [] [] = refl
  overwrite_idem [] (e ∷ new) = ground (arith, overwrite_self new)
  overwrite_idem (o ∷ old) [] = refl
  overwrite_idem (o ∷ old) (e ∷ new) = ground (arith, overwrite_idem old new, overwrite_self new)

  abbrev pub terms : List (LogEntry C) → List ℕ
  terms [] = []
  terms (e ∷ es) = e.term ∷ terms es

  -- The new entries' terms stand at their places.
  overwrite-terms :
      (old new : List (LogEntry C)) → terms (take (length new) (overwrite old new)) ≡ terms new
  unfolding overwrite
  overwrite-terms [] new = ap terms (take-length new)
  overwrite-terms (o ∷ old) [] = refl
  overwrite-terms (o ∷ old) (e ∷ new) = ground (arith, overwrite-terms old new, take-length new)

  length-overwrite : (old new : List (LogEntry C)) → length new ≤ length (overwrite old new)
  unfolding overwrite
  length-overwrite [] new = omega arith
  length-overwrite (o ∷ old) [] = omega arith
  length-overwrite (o ∷ old) (e ∷ new) = ground (arith, length-overwrite old new)

  pub length-install :
      (log : List (LogEntry C)) (prev : ℕ) (entries : List (LogEntry C))
      → prev < length log
      → prev + length entries < length (install log prev entries)
  length-install log prev entries h = rw (install-eq-overwrite log prev entries h) (
      omega (
        arith,
        length-append (take (prev + 1) log) (overwrite (drop (prev + 1) log) entries),
        length-take (prev + 1) log,
        length-overwrite (drop (prev + 1) log) entries,
      ))

  -- Where the previous position lies in the log, installing the same entries a second time leaves
  -- the log as the first time left it.
  pub install-install :
      (log : List (LogEntry C)) (prev : ℕ) (entries : List (LogEntry C))
      → prev < length log
      → install (install log prev entries) prev entries ≡ install log prev entries
  install-install log prev entries h =
      let fits : prev < length (install log prev entries) =
        omega (arith, length-install log prev entries h) in
      install-eq-overwrite (install log prev entries) prev entries fits
      ∙ rw (install-eq-overwrite log prev entries h) (
          rw (
            take-take_append (prev + 1) log (overwrite (drop (prev + 1) log) entries) (omega arith),
            drop-take_append (prev + 1) log (overwrite (drop (prev + 1) log) entries) (omega arith),
            overwrite_idem (drop (prev + 1) log) entries,
          ))

  -- Where the previous position lies in the log, the positions behind it hold, after the entries
  -- are installed, entries with the terms of the new ones.
  pub install-terms :
      (log : List (LogEntry C)) (prev : ℕ) (entries : List (LogEntry C))
      → prev < length log
      → terms (take (length entries) (drop (prev + 1) (install log prev entries))) ≡ terms entries
  install-terms log prev entries h =
      rw
        (
          install-eq-overwrite log prev entries h,
          drop-take_append (prev + 1) log (overwrite (drop (prev + 1) log) entries) (omega arith),
        )
        (overwrite-terms (drop (prev + 1) log) entries)
