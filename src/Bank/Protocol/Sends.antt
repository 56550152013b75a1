-- ===== src/Bank/Protocol/Sends.antt =====
-- What a broadcast of a branch puts on the network.
use cs.Prelude.{
  ℕ, ◌<◌, ◌≤◌, ◌≡◌, ◌≢◌, refl, sym, ◌∙◌, ap, subst, Bool, true, false, some, List, [], ◌∷◌, ◌||◌,
  ◌==◌, ==_iff, ltb, count, In, inl, inr, Bool-cases, Option-cases, arith,
}
use cs.Prelude.Text.{Text, text_eq, text_eq_refl}
use cs.Prelude.Dict.{Dict, lookup}
use cs.Bank.Outcome.{returns, ◌>>=◌, >>=-eq-returns}
use cs.Bank.State.{Server, Conn, Event, sent}
use cs.Bank.Handler.{broadcast_to, broadcast}
use cs.Bank.Protocol.{branches, branch, Packet, packets}

unfoldable pub has_text : Text → List Text → Bool
has_text n [] = false
has_text n (m ∷ names) = text_eq m n || has_text n names

abbrev pub AllDifferent : List Text → Type 0
AllDifferent [] = Unit
AllDifferent (n ∷ names) = (has_text n names ≡ false) × AllDifferent names

-- Branch `i` knows itself and the others by different names, and a connection to a branch is under
-- that branch's name.
pub record IsWired (i : ℕ) (sv : Server) : Type 0 where
  pub me : sv.me ≡ branch i
  pub names : AllDifferent sv.name
  pub wires : (n : Text) (k : Conn) → lookup n sv.send_conn ≡ some k → k < branches → n ≡ branch k

-- One message from a branch to some of the others, once to each.
pub record Spread (msg : Text) (i : ℕ) (ps : List Packet) : Type 0 where
  pub all :
      (p : Packet)
      → In p ps
      → (p.sender ≡ i) × (p.text ≡ msg) × (p.receiver ≢ i) × (p.receiver < branches)
  pub once : (k : ℕ) → count (λ (p : Packet). p.receiver == k) ps ≤ 1

pub count-none :
    {A : Type 0} (f : A → Bool) (xs : List A) → ((x : A) → In x xs → f x ≡ false) → count f xs ≡ 0
count-none f [] h = refl
count-none f (x ∷ xs) h =
    let off = h x (inl refl) in
    let rest = count-none f xs (λ y here. h y (inr here)) in ground (arith, off, rest)

pub nothing-Spread : (msg : Text) (i : ℕ) → Spread msg i []
nothing-Spread msg i = record { all = λ p here. absurd here; once = λ k. omega arith }

module _ (msg : Text) (i : ℕ) (me : Text) (conns : Dict Conn) where
  broadcast_to-skip :
      (n : Text) (names : List Text)
      → text_eq n me ≡ true
      → broadcast_to msg me conns (n ∷ names) ≡ broadcast_to msg me conns names
  unfolding broadcast_to
  broadcast_to-skip n names h = rw h refl

  broadcast_to-next :
      (n : Text) (names : List Text) (events : List Event)
      → text_eq n me ≡ false
      → broadcast_to msg me conns (n ∷ names) ≡ returns events
      → (c : Conn) × (rest : List Event) × (lookup n conns ≡ some c)
        × (broadcast_to msg me conns names ≡ returns rest)
        × (events ≡ sent c msg ∷ rest)
  unfolding broadcast_to
  broadcast_to-next n names events h k = elim (Option-cases (lookup n conns)) [
    | inl missing ↦ absurd (ground (arith, h, missing))
    | inr (c, found) ↦
        let all : (broadcast_to msg me conns names >>= λ es. returns (sent c msg ∷ es))
            ≡ returns events =
          sym (rw h (rw found refl)) ∙ k in
        let (rest, done, e) =
          >>=-eq-returns (broadcast_to msg me conns names) (λ es. returns (sent c msg ∷ es)) all in
        (c, rest, found, done, ground (arith, e))
  ]

pub packets-far :
    (i : ℕ) (c : Conn) (text : Text) (events : List Event)
    → ltb c branches ≡ false
    → packets i (sent c text ∷ events) ≡ packets i events
unfolding packets
packets-far i c text events h = rw h refl

pub packets-near :
    (i : ℕ) (c : Conn) (text : Text) (events : List Event)
    → ltb c branches ≡ true
    → packets i (sent c text ∷ events)
      ≡ record { sender = i; receiver = c; text = text } ∷ packets i events
unfolding packets
packets-near i c text events h = rw h refl

-- One packet more, to a branch that the others do not go to.
cons-Spread :
    (msg : Text) (i c : ℕ) (ps : List Packet)
    → c ≢ i
    → c < branches
    → ((p : Packet) → In p ps → (p.receiver == c) ≡ false)
    → Spread msg i ps
    → Spread msg i (record { sender = i; receiver = c; text = msg } ∷ ps)
cons-Spread msg i c ps ne lt others s = record {
  all = λ p here. elim here [
    | inl e ↦
        subst (λ q. (q.sender ≡ i) × (q.text ≡ msg) × (q.receiver ≢ i) × (q.receiver < branches))
          (sym e) (refl, refl, ne, lt)
    | inr later ↦ s.all p later
  ];
  once = λ k. elim (Bool-cases (c == k)) [
    | inl same ↦
        let at : c ≡ k = (==_iff c k).0 same in
        let rest : count (λ (p : Packet). p.receiver == k) ps ≡ 0 =
          count-none (λ (p : Packet). p.receiver == k) ps
            (λ p here. subst (λ j. (p.receiver == j) ≡ false) at (others p here)) in
        rw (same, count) (omega (arith, rest))
    | inr other ↦ rw (other, count) (s.once k)
  ];
}

module _ (msg : Text) (i : ℕ) (me : Text) (conns : Dict Conn) (mine : me ≡ branch i)
    (wires : (n : Text) (k : Conn) → lookup n conns ≡ some k → k < branches → n ≡ branch k) where
  abbrev Named : List Text → List Event → Type 0
  Named names events =
      Spread msg i (packets i events)
      × ((p : Packet) → In p (packets i events) → has_text (branch p.receiver) names ≡ true)

  has_text_cons :
      (n m : Text) (names : List Text) → has_text n names ≡ true → has_text n (m ∷ names) ≡ true
  unfolding has_text
  has_text_cons n m names h = ground (arith, h)

  has_text_self : (n m : Text) (names : List Text) → n ≡ m → has_text m (n ∷ names) ≡ true
  unfolding has_text
  has_text_self n m names e =
      let same : text_eq n m ≡ true = subst (λ x. text_eq n x ≡ true) e (text_eq_refl n) in
      rw same refl

  broadcast_to-Named :
      (names : List Text) (events : List Event)
      → AllDifferent names
      → broadcast_to msg me conns names ≡ returns events
      → Named names events
  broadcast_to-Named [] events d h =
      let none_sent : events ≡ [] = unfold broadcast_to in ground (arith, h) in
      subst (Named []) (sym none_sent)
        (unfold packets in (nothing-Spread msg i, λ p here. absurd here))
  broadcast_to-Named (n ∷ names) events d h = elim (Bool-cases (text_eq n me)) [
    | inl self ↦
        let rest =
          broadcast_to-Named names events d.1
            (sym (broadcast_to-skip msg i me conns n names self) ∙ h) in
        (rest.0, λ p here. has_text_cons (branch p.receiver) n names (rest.1 p here))
    | inr other ↦
        let (c, es, found, done, e) = broadcast_to-next msg i me conns n names events other h in
        let (spread, named) = broadcast_to-Named names es d.1 done in
        let later : (p : Packet)
            → In p (packets i es)
            → has_text (branch p.receiver) (n ∷ names) ≡ true =
          λ p here. has_text_cons (branch p.receiver) n names (named p here) in
        subst (Named (n ∷ names)) (sym e) (elim (Bool-cases (ltb c branches)) [
          | inr far ↦ rw (packets-far i c msg es far) (spread, later)
          | inl near ↦
              let lt : c < branches = ground (arith, near) in
              let name : n ≡ branch c = wires n c found lt in
              let ne : c ≢ i = λ same.
                absurd (ground (arith, other, text_eq_refl n, name ∙ ap branch same ∙ sym mine)) in
              let alone : (p : Packet) → In p (packets i es) → (p.receiver == c) ≡ false = λ p here.
                elim (Bool-cases (p.receiver == c)) [
                  | inr differ ↦ differ
                  | inl same ↦
                      let at : branch p.receiver ≡ n =
                        ap branch ((==_iff p.receiver c).0 same) ∙ sym name in
                      absurd (
                        ground (arith, d.0, subst (λ m. has_text m names ≡ true) at (named p here)))
                ] in
              rw (packets-near i c msg es near) (
                cons-Spread msg i c (packets i es) ne lt alone spread,
                λ p here. elim here [
                  | inl q ↦
                      subst (λ (r : Packet). has_text (branch r.receiver) (n ∷ names) ≡ true)
                        (sym q) (has_text_self n (branch c) names name)
                  | inr old ↦ later p old
                ],
              )
        ])
  ]

pub broadcast-Spread :
    (msg : Text) (i : ℕ) (sv : Server) (events : List Event)
    → IsWired i sv
    → broadcast msg sv ≡ returns events
    → Spread msg i (packets i events)
unfolding broadcast
broadcast-Spread msg i sv events w h =
    (broadcast_to-Named msg i sv.me sv.send_conn w.me w.wires sv.name events w.names h).0
