-- ===== src/Bank/Config/Lines.antt =====
-- The maps that `readFromConfig` makes of a file of lines `name address port`.
use cs.Prelude.{
  ◌≡◌, refl, ◌∙◌, ap, Bool, true, false, Option, none, some, List, [], ◌∷◌, ◌++◌, ◌==◌, map, All,
  arith, if◌then◌else◌,
}
use cs.Prelude.Text.{Text, text_eq, text_eq_iff, join, split}
use cs.Prelude.Text.Words.{split-cons, split-last}
use cs.Prelude.Dict.{lookup, insert, lookup-insert}
use cs.Bank.Config.{
  config_words, Addresses, read_addresses, Ip, ip_eq, insert_name, Config, read_from_config,
}

-- The three words of a line, which are separated by single spaces.
pub record Entry : Type 0 where
  pub name : Text
  pub address : Text
  pub port : Text

abbrev pub written : Entry → Text
written e = join (e.name ∷ e.address ∷ e.port ∷ [])

abbrev NoSpace : Text → Type 0
NoSpace = All (λ c. (c == 32) ≡ false)

abbrev pub IsPlain : Entry → Type 0
IsPlain e = NoSpace e.name × NoSpace e.address × NoSpace e.port

config_words-written :
    (e : Entry) → IsPlain e → config_words (written e) ≡ some (e.name, e.address, e.port)
unfolding config_words join
config_words-written e h =
    let parts : split (written e) 32 ≡ e.name ∷ e.address ∷ e.port ∷ [] =
      split-cons 32 e.name (e.address ++ 32 ∷ e.port) h.0
      ∙ ap (λ x. e.name ∷ x)
          (split-cons 32 e.address e.port h.1
            ∙ ap (λ x. e.address ∷ x) (split-last 32 e.port h.2)) in
    rw (config_words, parts) refl

-- What the last of the entries with a property gives, or the default.
unfoldable pub last_of {ℓ} :
    {A : Type ℓ} → (Entry → Bool) → (Entry → A) → List Entry → Option A → Option A
last_of f g [] d = d
last_of f g (e ∷ es) d = last_of f g es (if f e then some (g e) else d)

-- `sv.name[ip]`
unfoldable pub name_at : Ip → List (Ip × Text) → Option Text
name_at k [] = none
name_at k ((j, v) ∷ m) = if ip_eq j k then some v else name_at k m

ip_eq_iff :
    (a b : Ip)
    → (ip_eq a b ≡ true → (a.x ≡ b.x) × (a.y ≡ b.y))
      × ((a.x ≡ b.x) × (a.y ≡ b.y) → ip_eq a b ≡ true)
ip_eq_iff a b = (
  λ h. ground (arith, h, text_eq_iff a.x b.x, text_eq_iff a.y b.y),
  λ h. ground (arith, h, text_eq_iff a.x b.x, text_eq_iff a.y b.y),
)

name_at-insert_name :
    (k j : Ip) (v : Text) (m : List (Ip × Text))
    → name_at j (insert_name k v m) ≡ (if ip_eq k j then some v else name_at j m)
unfolding name_at insert_name
name_at-insert_name k j v [] = refl
name_at-insert_name k j v ((i, w) ∷ m) =
    ground (arith, ip_eq_iff k j, ip_eq_iff i k, ip_eq_iff i j, name_at-insert_name k j v m)

-- The maps hold, for each key, what the last entry with it says, and else what they held before.
pub record IsRead (es : List Entry) (c c' : Config) : Type 0 where
  pub address :
      (n : Text)
      → lookup n c'.maps.address
        ≡ last_of (λ e. text_eq e.name n) (λ e. e.address) es (lookup n c.maps.address)
  pub port :
      (n : Text)
      → lookup n c'.maps.port
        ≡ last_of (λ e. text_eq e.name n) (λ e. e.port) es (lookup n c.maps.port)
  pub name :
      (k : Ip)
      → name_at k c'.name
        ≡ last_of
            (λ e. ip_eq (record { x = e.address; y = e.port }) k)
            (λ e. e.name)
            es
            (name_at k c.name)

-- One line more.
abbrev entered : Entry → Config → Config
entered e c = record {
  maps = record {
    address = insert e.name e.address c.maps.address;
    port = insert e.name e.port c.maps.port;
  };
  name = insert_name (record { x = e.address; y = e.port }) e.name c.name;
}

read_from_config-next :
    (e : Entry) (lines : List Text) (c : Config)
    → IsPlain e
    → read_from_config (written e ∷ lines) c ≡ read_from_config lines (entered e c)
unfolding read_from_config
read_from_config-next e lines c h =
    let words = config_words-written e h in rw (words, read_from_config) refl

read_addresses-next :
    (e : Entry) (lines : List Text) (maps : Addresses)
    → IsPlain e
    → read_addresses (written e ∷ lines) maps
      ≡ read_addresses lines (record {
        address = insert e.name e.address maps.address;
        port = insert e.name e.port maps.port;
      })
unfolding read_addresses
read_addresses-next e lines maps h =
    let words = config_words-written e h in rw (words, read_addresses) refl

-- From a file whose lines are three words without spaces, separated by single spaces,
-- `readFromConfig` of the server makes maps in which the last line with a name, or with an address
-- and a port, counts; and the client makes the same maps of addresses and ports.
pub read_from_config-written :
    (es : List Entry) (c : Config)
    → All IsPlain es
    → (c' : Config) × (read_from_config (map written es) c ≡ some c')
      × (read_addresses (map written es) c.maps ≡ some c'.maps)
      × IsRead es c c'
unfolding last_of
read_from_config-written [] c h = (
  c,
  unfold read_from_config in refl,
  unfold read_addresses in refl,
  record { address = λ n. refl; port = λ n. refl; name = λ k. refl },
)
read_from_config-written (e ∷ es) c h =
    let (c', read, read', r) = read_from_config-written es (entered e c) h.1 in
    (
      c',
      read_from_config-next e (map written es) c h.0 ∙ read,
      read_addresses-next e (map written es) c.maps h.0 ∙ read',
      record {
        address = λ n.
            r.address n
            ∙ ap (last_of (λ x. text_eq x.name n) (λ x. x.address) es)
                (lookup-insert e.name n e.address c.maps.address);
        port = λ n.
            r.port n
            ∙ ap (last_of (λ x. text_eq x.name n) (λ x. x.port) es)
                (lookup-insert e.name n e.port c.maps.port);
        name = λ k.
            r.name k
            ∙ ap (last_of (λ x. ip_eq (record { x = x.address; y = x.port }) k) (λ x. x.name) es)
                (name_at-insert_name (record { x = e.address; y = e.port }) k e.name c.name);
      },
    )
