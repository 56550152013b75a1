-- ===== src/Bank/Protocol/Agreement/Atomic.antt =====
-- What a committed branch says about the others.
use cs.Prelude.{
  ℕ, ◌<◌, ◌≤◌, ◌≡◌, ◌≢◌, inl, inr, refl, sym, ap, true, List, [], ◌∷◌, length, All, In, Bool-cases,
  ℕ_discrete, arith,
}
use cs.Prelude.Int.{ℤ, IsInt64}
use cs.Bank.Protocol.{branches, System}
use cs.Bank.Protocol.Counting.{occurs, occurs_cons, pigeons}
use cs.Bank.Protocol.Agreement.{IsAtomic}
use cs.Bank.Protocol.Agreement.Runs.{Reach, Reach-IsAtomic}

In-occurs : (j : ℕ) (xs : List ℕ) → 0 < occurs j xs → In j xs
unfolding occurs
In-occurs j [] h = absurd (omega (arith, h))
In-occurs j (x ∷ xs) h = elim (ℕ_discrete x j) [
  | yes e ↦ inl (sym e)
  | no ne ↦ inr (In-occurs j xs (ground (arith, h, ne)))
]

length-empty : {A : Type 0} (xs : List A) → ¬ (0 < length xs) → xs ≡ []
length-empty [] h = refl
length-empty (x ∷ xs) h = absurd (h (omega arith))

length-In : {A : Type 0} (x : A) (xs : List A) → In x xs → 0 < length xs
length-In x [] h = absurd h
length-In x (y ∷ xs) h = omega arith

occurs-head : (x : ℕ) (xs : List ℕ) → 0 < occurs x (x ∷ xs)
occurs-head x xs = rw (occurs_cons x x xs) (ground arith)

all_below :
    (c : ℕ) (xs : List ℕ) → All (λ j. (j < branches) × (j ≢ c)) xs → All (λ j. j < branches) xs
all_below c [] h = tt
all_below c (x ∷ xs) h = (h.0.0, all_below c xs h.1)

occurs-absent : (c : ℕ) (xs : List ℕ) → All (λ j. (j < branches) × (j ≢ c)) xs → occurs c xs ≡ 0
unfolding occurs
occurs-absent c [] h = refl
occurs-absent c (x ∷ xs) h = ground (arith, occurs-absent c xs h.1, h.0.1)

nobody :
    (xs : List ℕ)
    → All (λ j. j < branches) xs
    → ((x : ℕ) → x < branches → occurs x xs ≡ 0)
    → xs ≡ []
nobody [] h none_ = refl
nobody (x ∷ xs) h none_ = let some_ = occurs-head x xs in absurd (omega (arith, none_ x h.0, some_))

module _ (ts : ℤ) (c : ℕ) (s : System) (lt : c < branches) (atomic : IsAtomic ts c s)
    (some_ : 0 < length s.committed) where
  begun_ : s.begun ≡ true
  begun_ = elim (Bool-cases s.begun) [
    | inl on ↦ on
    | inr off ↦ let none_ = ap length (atomic.idle off).2 in absurd (omega (arith, none_, some_))
  ]

  many : 4 ≤ length s.counted
  many = atomic.decided (omega (arith, some_))

  once_counted : (k : ℕ) → occurs k s.counted ≤ 1
  once_counted k = elim (ℕ_discrete k c) [
    | yes e ↦ rw e (omega (arith, occurs-absent c s.counted atomic.others))
    | no ne ↦ let few = atomic.once k ne in omega (arith, few)
  ]

  answered : (j : ℕ) → j < branches → j ≢ c → 0 < occurs j s.counted
  answered j near other =
      pigeons branches c j s.counted lt near (λ e. other (sym e))
        (all_below c s.counted atomic.others) once_counted (occurs-absent c s.counted atomic.others)
        (omega (arith, many))

  -- A refusal of the coordinator takes the room of some answer, and one of another branch that of
  -- its own answer.
  no_refusal_of : (x : ℕ) → x < branches → occurs x s.refusing ≡ 0
  no_refusal_of x near = elim (ℕ_discrete x c) [
    | no ne ↦ let few = atomic.once x ne in let one = answered x near ne in omega (arith, few, one)
    | yes e ↦ elim (ℕ_discrete c 0) [
      | yes z ↦
          let ne : 1 ≢ c = λ q. absurd (omega (arith, q, z)) in
          let few = atomic.once 1 ne in
          let one = answered 1 (omega arith) ne in rw e (omega (arith, few, one))
      | no nz ↦
          let ne : 0 ≢ c = λ q. absurd (omega (arith, q, nz)) in
          let few = atomic.once 0 ne in
          let one = answered 0 (omega arith) ne in rw e (omega (arith, few, one))
    ]
  ]

  pub nobody_refusing : s.refusing ≡ []
  nobody_refusing = nobody s.refusing atomic.losers no_refusal_of

  pub nobody_aborted : s.aborted ≡ []
  nobody_aborted =
      let none_ = ap length nobody_refusing in
      length-empty s.aborted
        (λ h. let one = atomic.lost (omega (arith, h)) in absurd (omega (arith, none_, one)))

  pub everyone_ready : (j : ℕ) → j < branches → In j s.ready
  everyone_ready j near = elim (ℕ_discrete j c) [
    | no ne ↦
        let one = answered j near ne in In-occurs j s.ready (atomic.said j (omega (arith, one)))
    | yes e ↦ elim (atomic.own begun_) [
      | inl r ↦ In-occurs j s.ready (rw e r)
      | inr r ↦ let none_ = no_refusal_of c lt in absurd (omega (arith, none_, r))
    ]
  ]

-- In every state that the two-phase commit of an int64 timestamp reaches at a coordinator `c` of the
-- five branches, in any order of delivery and with any loss of messages, where no message comes
-- twice or together with another, the client asks once, and other work keeps the connections
-- between branches and the counter of this commit: if a branch `i` has committed, then no branch has
-- refused or aborted, and each branch `j` of the five has been let through by `CheckCommit`.
pub atomic_commit :
    (ts : ℤ) (c i j : ℕ) (s : System)
    → c < branches
    → j < branches
    → IsInt64 ts
    → Reach ts c s
    → In i s.committed
    → (s.refusing ≡ []) × (s.aborted ≡ []) × In j s.ready
atomic_commit ts c i j s lt near int reach done =
    let atomic = Reach-IsAtomic ts c s lt int reach in
    let some_ = length-In i s.committed done in
    (
      nobody_refusing ts c s lt atomic some_,
      nobody_aborted ts c s lt atomic some_,
      everyone_ready ts c s lt atomic some_ j near,
    )
