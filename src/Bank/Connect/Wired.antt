-- ===== src/Bank/Connect/Wired.antt =====
-- The connections that a branch opens when it starts.
use cs.Prelude.{
  ℕ, ◌<◌, ◌≡◌, ◌⊎◌, inl, inr, refl, sym, ◌∙◌, ap, subst, true, false, some, List, [], ◌∷◌, map, In,
  Bool-cases, Option-cases, some_inj, arith,
}
use cs.Prelude.Text.{Text, text_eq, text_eq→eq, text_eq_refl}
use cs.Prelude.Dict.{Dict, lookup, insert, lookup-insert, lookup-insert_self, lookup-insert_kept}
use cs.Bank.Outcome.{returns, >>=-eq-returns}
use cs.Bank.State.{Server, Conn, Event, sent}
use cs.Bank.Config.{
  Ip, Addresses, Config, config_words, ip_eq, insert_name, read_from_config, dial_port,
}
use cs.Bank.Handler.{broadcast_to, broadcast}
use cs.Bank.Connect.{
  Dials, address_of, dial_until, dial_branches, accept_branches, Network, build_branches, no_config,
  start_server,
}
use cs.Bank.Protocol.{branches, branch}
use cs.Bank.Protocol.Sends.{AllDifferent, IsWired}

abbrev HasConn : Dict Conn → Text → Type 0
HasConn conns n = (k : Conn) × (lookup n conns ≡ some k)

module _ (dials : Dials) (me : Text) (maps : Addresses) where
  abbrev IsDialed : Text → Conn → Type 0
  IsDialed n k =
      (text_eq n me ≡ false) × (dial_until (dials (address_of n maps) (dial_port me n)) ≡ returns k)

  dial_branches-next :
      (name : Text) (names : List Text) (conns conns' : Dict Conn)
      → text_eq name me ≡ false
      → dial_branches dials me maps (name ∷ names) conns ≡ returns conns'
      → (c : Conn) × (dial_until (dials (address_of name maps) (dial_port me name)) ≡ returns c)
        × (dial_branches dials me maps names (insert name c conns) ≡ returns conns')
  unfolding dial_branches
  dial_branches-next name names conns conns' other h =
      >>=-eq-returns (dial_until (dials (address_of name maps) (dial_port me name)))
        (λ c. dial_branches dials me maps names (insert name c conns))
        (sym (rw (other, dial_branches) refl) ∙ h)

  dial_branches-skip :
      (name : Text) (names : List Text) (conns : Dict Conn)
      → text_eq name me ≡ true
      → dial_branches dials me maps (name ∷ names) conns ≡ dial_branches dials me maps names conns
  unfolding dial_branches
  dial_branches-skip name names conns self = rw (self, dial_branches) refl

  -- A connection that was there or was dialed, under its name.
  dialed :
      (names : List Text) (conns conns' : Dict Conn) (n : Text) (k : Conn)
      → dial_branches dials me maps names conns ≡ returns conns'
      → lookup n conns' ≡ some k
      → (lookup n conns ≡ some k) ⊎ IsDialed n k
  dialed [] conns conns' n k h found =
      let same : conns ≡ conns' = unfold dial_branches in ground (arith, h) in
      inl (ap (lookup n) same ∙ found)
  dialed (name ∷ names) conns conns' n k h found = elim (Bool-cases (text_eq name me)) [
    | inl self ↦
        dialed names conns conns' n k (sym (dial_branches-skip name names conns self) ∙ h) found
    | inr other ↦
        let (c, dials_, rest) = dial_branches-next name names conns conns' other h in
        elim (dialed names (insert name c conns) conns' n k rest found) [
          | inr now ↦ inr now
          | inl before ↦ elim (Bool-cases (text_eq name n)) [
            | inr differ ↦ inl (ground (arith, lookup-insert name n c conns, differ, before))
            | inl same ↦
                let at : name ≡ n = text_eq→eq name n same in
                let it : c ≡ k = ground (arith, lookup-insert name n c conns, same, before) in
                inr (subst (λ m. IsDialed m k) at (other, dials_ ∙ ap returns it))
          ]
        ]
  ]

  -- Dialing adds connections and replaces them.
  dial_branches-keeps :
      (names : List Text) (conns conns' : Dict Conn) (n : Text)
      → dial_branches dials me maps names conns ≡ returns conns'
      → HasConn conns n
      → HasConn conns' n
  dial_branches-keeps [] conns conns' n h has =
      let same : conns ≡ conns' = unfold dial_branches in ground (arith, h) in
      subst (λ m. HasConn m n) same has
  dial_branches-keeps (name ∷ names) conns conns' n h (k, found) =
      elim (Bool-cases (text_eq name me)) [
        | inl self ↦
            dial_branches-keeps names conns conns' n
              (sym (dial_branches-skip name names conns self) ∙ h) (k, found)
        | inr other ↦
            let (c, dials_, rest) = dial_branches-next name names conns conns' other h in
            dial_branches-keeps names (insert name c conns) conns' n rest
              (lookup-insert_kept name n c k conns found)
      ]

  dial_branches-HasConn :
      (names : List Text) (conns conns' : Dict Conn) (n : Text)
      → dial_branches dials me maps names conns ≡ returns conns'
      → In n names
      → text_eq n me ≡ false
      → HasConn conns' n
  dial_branches-HasConn [] conns conns' n h here other = absurd here
  dial_branches-HasConn (name ∷ names) conns conns' n h here other =
      elim (Bool-cases (text_eq name me)) [
        | inl self ↦ elim here [
          | inl e ↦ absurd (ground (arith, self, other, ap (λ x. text_eq x me) e))
          | inr later ↦
              dial_branches-HasConn names conns conns' n
                (sym (dial_branches-skip name names conns self) ∙ h) later other
        ]
        | inr differs ↦
            let (c, dials_, rest) = dial_branches-next name names conns conns' differs h in
            elim here [
              | inr later ↦
                  dial_branches-HasConn names (insert name c conns) conns' n rest later other
              | inl e ↦ dial_branches-keeps names (insert name c conns) conns' n rest (
                c,
                lookup-insert name n c conns
                    ∙ rw (ap (λ x. text_eq name x) e ∙ text_eq_refl name) refl,
              )
            ]
      ]

broadcast_to-reaches :
    (msg me : Text) (conns : Dict Conn) (names : List Text)
    → ((n : Text) → In n names → text_eq n me ≡ false → HasConn conns n)
    → (events : List Event) × (broadcast_to msg me conns names ≡ returns events)
unfolding broadcast_to
broadcast_to-reaches msg me conns [] all = ([], refl)
broadcast_to-reaches msg me conns (n ∷ names) all =
    let (events, rest) = broadcast_to-reaches msg me conns names (λ m here. all m (inr here)) in
    elim (Bool-cases (text_eq n me)) [
      | inl self ↦ (events, rw self rest)
      | inr other ↦
          let (c, found) = all n (inl refl) other in
          (sent c msg ∷ events, rw other (rw found (rw rest refl)))
    ]

abbrev started_name : Config → List Text
started_name c = map (λ (e : Ip × Text). e.1) c.name

abbrev HasAddress : Config → Text → Type 0
HasAddress c n = (a : Text) × (lookup n c.maps.address ≡ some a)

In-insert_name :
    (k : Ip) (v n : Text) (m : List (Ip × Text))
    → In n (map (λ (e : Ip × Text). e.1) (insert_name k v m))
    → (n ≡ v) ⊎ In n (map (λ (e : Ip × Text). e.1) m)
unfolding insert_name
In-insert_name k v n [] (inl e) = inl e
In-insert_name k v n [] (inr later) = absurd later
In-insert_name k v n ((j, w) ∷ m) here = elim (Bool-cases (ip_eq j k)) [
  | inl same ↦
      let at : insert_name k v ((j, w) ∷ m) ≡ (k, v) ∷ m = rw (same, insert_name) refl in
      elim (subst (λ l. In n (map (λ (e : Ip × Text). e.1) l)) at here) [
        | inl e ↦ inl e
        | inr later ↦ inr (inr later)
      ]
  | inr other ↦
      let at : insert_name k v ((j, w) ∷ m) ≡ (j, w) ∷ insert_name k v m =
        rw (other, insert_name) refl in
      elim (subst (λ l. In n (map (λ (e : Ip × Text). e.1) l)) at here) [
        | inl e ↦ inr (inl e)
        | inr later ↦ elim (In-insert_name k v n m later) [
          | inl e ↦ inl e
          | inr old ↦ inr (inr old)
        ]
      ]
]

-- Every name has an address.
read_from_config-HasAddress :
    (lines : List Text) (c c' : Config)
    → ((n : Text) → In n (started_name c) → HasAddress c n)
    → read_from_config lines c ≡ some c'
    → (n : Text) → In n (started_name c')
    → HasAddress c' n
unfolding read_from_config
read_from_config-HasAddress [] c c' all h n here =
    let same : c ≡ c' = some_inj h in
    subst (λ d. HasAddress d n) same (all n (subst (λ d. In n (started_name d)) (sym same) here))
read_from_config-HasAddress (line ∷ lines) c c' all h n here =
    elim (Option-cases (config_words line)) [
      | inl missing ↦ absurd (ground (arith, missing, h))
      | inr ((m, a, p), words) ↦
          let next : Config = record {
            maps = record { address = insert m a c.maps.address; port = insert m p c.maps.port };
            name = insert_name (record { x = a; y = p }) m c.name;
          } in
          let rest : read_from_config lines next ≡ some c' =
            sym (rw (words, read_from_config) refl) ∙ h in
          read_from_config-HasAddress lines next c'
            (λ k inside. elim (In-insert_name (record { x = a; y = p }) m k c.name inside) [
              | inl e ↦ (
                a,
                ap (λ x. lookup x (insert m a c.maps.address)) e
                    ∙ lookup-insert_self m a c.maps.address,
              )
              | inr old ↦
                  let (b, found) = all k old in lookup-insert_kept m k a b c.maps.address found
            ])
            rest n here
    ]

build_branches-fields :
    (net : Network) (maps : Addresses) (sv sv' : Server) (events : List Event)
    → build_branches net maps sv ≡ returns (sv', events)
    → (dial_branches net.dials sv.me maps net.names sv.send_conn ≡ returns sv'.send_conn)
      × (sv'.me ≡ sv.me)
      × (sv'.name ≡ sv.name)
unfolding build_branches
build_branches-fields net maps sv sv' events h =
    let (send, dials_, h1) =
      >>=-eq-returns (dial_branches net.dials sv.me maps net.names sv.send_conn) _ h in
    let ((read, es), accepts, last) =
      >>=-eq-returns (accept_branches net.order 0 net.accepted sv.read_conn) _ h1 in
    let at : send ≡ sv'.send_conn = ground (arith, last) in
    (dials_ ∙ ap returns at, ground (arith, last), ground (arith, last))

-- A branch `branch i` that has started, from lines whose names of branches differ, where each dial
-- that connects to a branch goes to the address under that branch's name, and where `range` over
-- `address` visits every key: it is wired as the commit takes it to be, and a
-- broadcast of any message returns.
pub start_server-IsWired :
    (i : ℕ) (lines : List Text) (c : Config) (net : Network) (sv : Server) (events : List Event)
    (msg : Text)
    → read_from_config lines no_config ≡ some c
    → AllDifferent (started_name c)
    → ((n : Text) (p : ℕ) (k : Conn)
        → dial_until (net.dials (address_of n c.maps) p) ≡ returns k
        → k < branches
        → n ≡ branch k)
    → ((n a : Text) → lookup n c.maps.address ≡ some a → In n net.names)
    → start_server (branch i) lines net ≡ returns (sv, events)
    → IsWired i sv × ((sends : List Event) × (broadcast msg sv ≡ returns sends))
unfolding start_server broadcast
start_server-IsWired i lines c net sv events msg reads differ reaches visits h =
    let begin : Server = record {
      me = branch i;
      accounts = [];
      send_conn = [];
      read_conn = [];
      tw = [];
      rts = [];
      name = started_name c;
      commit_count = [];
    } in
    let visited : (n : Text) → In n (started_name c) → In n net.names = λ n here.
      let (a, found) =
        read_from_config-HasAddress lines no_config c (λ m none_. absurd none_) reads n here in
      visits n a found in
    let built : build_branches net c.maps begin ≡ returns (sv, events) = sym (rw reads refl) ∙ h in
    let (dials_, me, name) = build_branches-fields net c.maps begin sv events built in
    (
      record {
        me = me;
        names = subst AllDifferent (sym name) differ;
        wires = λ n k found near.
            elim (dialed net.dials (branch i) c.maps net.names [] sv.send_conn n k dials_ found) [
              | inl before ↦ absurd (unfold lookup in ground (arith, before))
              | inr (other, connects) ↦ reaches n (dial_port (branch i) n) k connects near
            ];
      },
      broadcast_to-reaches msg sv.me sv.send_conn sv.name (λ n here other.
          dial_branches-HasConn net.dials (branch i) c.maps net.names [] sv.send_conn n dials_
            (visited n (subst (In n) name here)) (subst (λ m. text_eq n m ≡ false) me other)),
    )
