-- ===== src/Bank/Config/Judge.antt =====
-- Whom `judgeClient` takes a connection for.
use cs.Prelude.{
  ℕ, ◌+◌, ◌/◌, ◌%◌, ◌<◌, ◌^◌, ◌≡◌, refl, sym, ◌∙◌, ap, Bool, true, false, Option, none, some, List,
  [], ◌∷◌, ◌++◌, ◌&&◌, ◌||◌, ◌==◌, subst, ltb, take, All, In, every, every-In, Bool-cases,
  Option-cases, inl, inr, arith,
}
use cs.Prelude.Int.{ℤ, pos, pos_part, eqb_ℤ, eqb_ℤ→eq}
use cs.Prelude.Text.{Text, codes, text_eq, text_eq→eq, format_int}
use cs.Prelude.Text.Digits.{parse_int-format_int}
use cs.Prelude.Text.Words.{split-pair, format_int-without}
use cs.Prelude.Dict.{Dict, lookup}
use cs.Bank.Config.{lookup_ports, dial_port, judge_port, judge_client}

-- The branch of a port: the digit before the last.
abbrev letter : ℕ → Text
letter port = (64 + port / 10 % 10) ∷ []

lookup_ports-letter :
    (names : Text) (port : ℕ)
    → In (names, port) lookup_ports
    → (take 1 names ≡ letter port) × (port < 2 ^ 63)
unfolding text_eq
lookup_ports-letter names port here =
    let both =
      every-In (λ e. text_eq (take 1 e.0) (letter e.1) && ltb e.1 (2 ^ 63)) (names, port)
        lookup_ports refl here in
    (text_eq→eq (take 1 names) (letter port) (ground (arith, both)), ground (arith, both))

judge_port-next :
    (names : Text) (port : ℕ) (order : Dict ℕ) (z : ℤ)
    → eqb_ℤ (pos port) z ≡ false
    → judge_port ((names, port) ∷ order) z ≡ judge_port order z
unfolding judge_port
judge_port-next names port order z h = rw (h, judge_port) refl

judge_port-here :
    (names : Text) (port : ℕ) (order : Dict ℕ) (z : ℤ)
    → eqb_ℤ (pos port) z ≡ true
    → judge_port ((names, port) ∷ order) z ≡ (false, take 1 names)
unfolding judge_port
judge_port-here names port order z h = rw (h, judge_port) refl

judge_port-found :
    (order : Dict ℕ) (names : Text) (port : ℕ)
    → ((n : Text) (p : ℕ) → In (n, p) order → In (n, p) lookup_ports)
    → In (names, port) order
    → judge_port order (pos port) ≡ (false, take 1 names)
judge_port-found [] names port known here = absurd here
judge_port-found ((n, p) ∷ order) names port known here =
    elim (Bool-cases (eqb_ℤ (pos p) (pos port))) [
      | inl same ↦
          let at : p ≡ port = ap pos_part (eqb_ℤ→eq (pos p) (pos port) same) in
          judge_port-here n p order (pos port) same
          ∙ ap (λ s. (false, s))
              ((lookup_ports-letter n p (known n p (inl refl))).0
                ∙ ap letter at
                ∙ sym (lookup_ports-letter names port (known names port here)).0)
      | inr other ↦ elim here [
        | inl e ↦ let at : port ≡ p = ap (λ x. x.1) e in absurd (ground (arith, other, at))
        | inr later ↦
            judge_port-next n p order (pos port) other
            ∙ judge_port-found order names port (λ n p k. known n p (inr k)) later
      ]
    ]

judge_port-client :
    (order : Dict ℕ) (port : ℕ)
    → ((n : Text) → ¬ In (n, port) order)
    → judge_port order (pos port) ≡ (true, [])
judge_port-client [] port free = unfold judge_port in refl
judge_port-client ((n, p) ∷ order) port free = elim (Bool-cases (eqb_ℤ (pos p) (pos port))) [
  | inl same ↦
      let at : port ≡ p = sym (ap pos_part (eqb_ℤ→eq (pos p) (pos port) same)) in
      absurd (free n (inl (ap (λ q. (n, q)) at)))
  | inr other ↦
      judge_port-next n p order (pos port) other
      ∙ judge_port-client order port (λ m here. free m (inr here))
]

-- No colon, as in the host of a TCP address of IPv4.
abbrev pub NoColon : Text → Type 0
NoColon = All (λ c. (c == b':') ≡ false)

judge_client-port :
    (order : Dict ℕ) (host : Text) (port : ℕ)
    → NoColon host
    → port < 2 ^ 63
    → judge_client order (host ++ b':' ∷ format_int (pos port)) ≡ some (judge_port order (pos port))
unfolding judge_client
judge_client-port order host port h small =
    let parts =
      split-pair b':' host (format_int (pos port)) h (format_int-without port b':' (omega arith)) in
    let number = parse_int-format_int (pos port) (small, omega arith) in
    rw (judge_client, parts) (rw number refl)

lookup-In : (k : Text) (v : ℕ) (m : Dict ℕ) → lookup k m ≡ some v → In (k, v) m
unfolding lookup
lookup-In k v [] h = ground arith
lookup-In k v ((j, w) ∷ m) h = elim (Bool-cases (text_eq j k)) [
  | inl same ↦
      let value : v ≡ w = ground arith in
      inl (ap (λ n. (n, v)) (sym (text_eq→eq j k same)) ∙ ap (λ z. (j, z)) value)
  | inr other ↦ inr (lookup-In k v m (ground arith))
]

abbrev pub branches : List Text
branches = codes "A" ∷ codes "B" ∷ codes "C" ∷ codes "D" ∷ codes "E" ∷ []

abbrev is_some : Option ℕ → Bool
is_some none = false
is_some (some n) = true

dial_port-found :
    (me name : Text) (port : ℕ)
    → lookup (me ++ name) lookup_ports ≡ some port
    → dial_port me name ≡ port
unfolding dial_port
dial_port-found me name port h = rw (h, dial_port) refl

-- Every branch has a port for every other, under a name that starts with its own.
dial_port-In :
    (me name : Text)
    → In me branches
    → In name branches
    → text_eq me name ≡ false
    → (take 1 (me ++ name) ≡ me) × In (me ++ name, dial_port me name) lookup_ports
unfolding text_eq lookup
dial_port-In me name in_me in_name other =
    let mine =
      every-In
        (λ x.
          every
            (λ y.
              text_eq x y
              || (text_eq (take 1 (x ++ y)) x && is_some (lookup (x ++ y) lookup_ports)))
            branches)
        me branches refl in_me in
    let both =
      every-In
        (λ y.
          text_eq me y
          || (text_eq (take 1 (me ++ y)) me && is_some (lookup (me ++ y) lookup_ports)))
        name branches mine in_name in
    elim (Option-cases (lookup (me ++ name) lookup_ports)) [
      | inl missing ↦ absurd (ground (arith, both, other, missing))
      | inr (port, found) ↦ (
        text_eq→eq (take 1 (me ++ name)) me (ground (arith, both, other)),
        subst (λ q. In (me ++ name, q) lookup_ports) (sym (dial_port-found me name port found))
            (lookup-In (me ++ name) port lookup_ports found),
      )
    ]

-- In any order in which `range` visits the map: `judgeClient` takes a connection that one branch
-- dials to another from the port that `build_branches` chooses for it as one of that first branch;
-- and one from a port that is not in the map as a client's; both for a host without a colon, such as
-- an address of IPv4, and a port below 2 ^ 63.
pub judge_client-dial_port :
    (order : Dict ℕ) (host me name : Text) (other : ℕ)
    → ((n : Text) (p : ℕ) → In (n, p) order → In (n, p) lookup_ports)
    → ((n : Text) (p : ℕ) → In (n, p) lookup_ports → In (n, p) order)
    → NoColon host
    → In me branches
    → In name branches
    → text_eq me name ≡ false
    → ((n : Text) → ¬ In (n, other) lookup_ports)
    → other < 2 ^ 63
    → (judge_client order (host ++ b':' ∷ format_int (pos (dial_port me name))) ≡ some (false, me))
      × (judge_client order (host ++ b':' ∷ format_int (pos other)) ≡ some (true, []))
judge_client-dial_port order host me name other known all h in_me in_name ne free small =
    let (starts, entry) = dial_port-In me name in_me in_name ne in
    let port = dial_port me name in
    (
      judge_client-port order host port h (lookup_ports-letter (me ++ name) port entry).1
          ∙ ap some (
              judge_port-found order (me ++ name) port known (all (me ++ name) port entry)
              ∙ ap (λ s. (false, s)) starts),
      judge_client-port order host other h small
          ∙ ap some (judge_port-client order other (λ n here. free n (known n other here))),
    )
