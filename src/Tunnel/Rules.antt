-- ===== src/Tunnel/Rules.antt =====
-- The forwarding rules of src/tunnel/rules.rs. The hex crate's decoder is a parameter, a text is its
-- code points, a node identifier its bytes, and reading a rules file is left out.
pub mod Serving
pub mod Accepted
use p2p_file.Common.{
  ℕ, ◌/◌, ◌^◌, Bool, true, false, not, ◌&&◌, ◌||◌, List, [], ◌∷◌, ◌++◌, Option, none, some,
  if◌then◌else◌, ltb, leb, ◌==◌, ◌!=◌, length, select,
}
use p2p_file.Common.Bytes.{same_bytes}
use p2p_file.Identity.{from_hex}
use p2p_file.Common.Text.{utf8, any_char, all_chars, is_control, is_whitespace}

-- `IpAddr`, each address as a number; `SocketAddr`.
pub data Ip : Type 0 where
  v4 : ℕ → Ip
  v6 : ℕ → Ip

pub record SocketAddr : Type 0 where
  pub ip : Ip
  pub port : ℕ  -- u16
  pub flow_and_scope : ℕ  -- 0 in version 4

abbrev pub same_ip : Ip → Ip → Bool
same_ip (v4 a) (v4 b) = a == b
same_ip (v6 a) (v6 b) = a == b
same_ip (v4 a) (v6 b) = false
same_ip (v6 a) (v4 b) = false

abbrev pub same_address : SocketAddr → SocketAddr → Bool
same_address a b = same_ip a.ip b.ip && (a.port == b.port && a.flow_and_scope == b.flow_and_scope)

abbrev pub is_loopback : Ip → Bool
is_loopback (v4 a) = a / 2 ^ 24 == 127
is_loopback (v6 a) = a == 1

abbrev pub is_unspecified : Ip → Bool
is_unspecified (v4 a) = a == 0
is_unspecified (v6 a) = a == 0

abbrev pub is_multicast : Ip → Bool
is_multicast (v4 a) = a / 2 ^ 28 == 14
is_multicast (v6 a) = a / 2 ^ 120 == 255

pub record AllowedForwardTarget : Type 0 where
  pub allowed_peers : List (List ℕ)
  pub id : List ℕ
  pub name : List ℕ
  pub target : SocketAddr
  pub enabled : Bool

pub record TunnelRule : Type 0 where
  pub id : List ℕ
  pub name : List ℕ
  pub peer_node_id : List ℕ
  pub listen : SocketAddr
  pub target : SocketAddr
  pub enabled : Bool
  pub auto_start : Bool

pub record ServiceConfig : Type 0 where
  pub version : ℕ
  pub forward_targets : List AllowedForwardTarget

pub record ClientConfig : Type 0 where
  pub version : ℕ
  pub rules : List TunnelRule

pub data Error : Type 0 where
  bad_version bad_id bad_name bad_target bad_peer duplicate_peer duplicate_id duplicate_target :
      Error
  bad_listen duplicate_listen no_peer several_peers : Error

pub data Result {ℓ} (A : Type ℓ) : Type ℓ where
  ok : A → Result A
  err : Error → Result A

infixl 5 ◌>>=◌
abbrev pub ◌>>=◌ {ℓ κ} : {A : Type ℓ} {B : Type κ} → Result A → (A → Result B) → Result B
ok a >>= f = f a
err e >>= f = err e

abbrev pub rules_schema_version : ℕ
rules_schema_version = 1

abbrev pub has_bytes : List (List ℕ) → List ℕ → Bool
has_bytes [] x = false
has_bytes (y ∷ ys) x = same_bytes y x || has_bytes ys x

abbrev pub has_address : List SocketAddr → SocketAddr → Bool
has_address [] x = false
has_address (y ∷ ys) x = same_address y x || has_address ys x

abbrev pub is_ascii_alphanumeric : ℕ → Bool
is_ascii_alphanumeric c =
    (leb b'0' c && leb c b'9') || ((leb b'a' c && leb c b'z') || (leb b'A' c && leb c b'Z'))

abbrev pub is_id_char : ℕ → Bool
is_id_char c = is_ascii_alphanumeric c || (c == b'-' || (c == b'_' || c == b'.'))

unfoldable pub validate_rule_id : List ℕ → Result (Unit {0})
validate_rule_id id =
    if length id == 0 || (ltb 64 (length (utf8 id)) || not (all_chars is_id_char id))
    then err bad_id
    else ok tt

unfoldable pub validate_target : SocketAddr → Result (Unit {0})
validate_target target =
    if target.port == 0 || (is_unspecified target.ip || is_multicast target.ip)
    then err bad_target
    else ok tt

unfoldable pub validate_listen : SocketAddr → Result (Unit {0})
validate_listen listen =
    if not (is_loopback listen.ip) || listen.port == 0 then err bad_listen else ok tt

module _ (hex_decode : List ℕ → Option (List ℕ)) where
  unfoldable pub validate_rule_name : List ℕ → Result (Unit {0})
  validate_rule_name name =
      if all_chars is_whitespace name || ltb 128 (length name)
      then err bad_name
      else if any_char is_control name
      then err bad_name
      else ok tt

  -- The loop over the peers of one target, with those that are known.
  unfoldable pub validate_peers : List (List ℕ) → List (List ℕ) → Result (Unit {0})
  unfolding from_hex
  validate_peers [] peers = ok tt
  validate_peers (text ∷ rest) peers = elim (from_hex hex_decode text) [
    | none ↦ err bad_peer
    | some peer ↦
        if has_bytes peers peer then err duplicate_peer else validate_peers rest (peer ∷ peers)
  ]

  unfoldable pub validate_each :
      List AllowedForwardTarget → List (List ℕ) → List SocketAddr → Result (Unit {0})
  unfolding validate_rule_id validate_rule_name validate_target validate_peers
  validate_each [] ids enabled_targets = ok tt
  validate_each (entry ∷ rest) ids enabled_targets = do
    _ ← validate_rule_id entry.id
    _ ← validate_rule_name entry.name
    _ ← validate_target entry.target
    _ ← validate_peers entry.allowed_peers []
    if has_bytes ids entry.id
        then err duplicate_id
        else if not entry.enabled
        then validate_each rest (entry.id ∷ ids) enabled_targets
        else if has_address enabled_targets entry.target
        then err duplicate_target
        else validate_each rest (entry.id ∷ ids) (entry.target ∷ enabled_targets)

  unfoldable pub validate_forward_targets : List AllowedForwardTarget → Result (Unit {0})
  unfolding validate_each
  validate_forward_targets targets = validate_each targets [] []

  unfoldable pub validate_service : ServiceConfig → Result (Unit {0})
  unfolding validate_forward_targets
  validate_service c =
      if c.version != rules_schema_version
      then err bad_version
      else validate_forward_targets c.forward_targets

  -- `peers.push` of each new peer that parses.
  unfoldable pub add_peers : List (List ℕ) → List (List ℕ) → List (List ℕ)
  unfolding from_hex
  add_peers [] peers = peers
  add_peers (text ∷ rest) peers = elim (from_hex hex_decode text) [
    | none ↦ add_peers rest peers
    | some peer ↦ add_peers rest (if has_bytes peers peer then peers else (peers ++ (peer ∷ [])))
  ]

  unfoldable pub service_peers : List AllowedForwardTarget → List (List ℕ) → List (List ℕ)
  unfolding add_peers
  service_peers [] peers = peers
  service_peers (entry ∷ rest) peers =
      service_peers rest (if entry.enabled then add_peers entry.allowed_peers peers else peers)

  unfoldable pub service_single_peer : ServiceConfig → Result (List ℕ)
  unfolding service_peers
  service_single_peer c = elim (service_peers c.forward_targets []) [
    | [] ↦ err no_peer
    | peer ∷ more ↦ elim more [ [] ↦ ok peer | _ ∷ _ ↦ err several_peers ]
  ]

  unfoldable pub validate_rules :
      List TunnelRule → List (List ℕ) → List SocketAddr → Result (Unit {0})
  unfolding validate_rule_id validate_rule_name validate_listen validate_target from_hex
  validate_rules [] ids listen = ok tt
  validate_rules (rule ∷ rest) ids listen = do
    _ ← validate_rule_id rule.id
    _ ← validate_rule_name rule.name
    _ ← known (from_hex hex_decode rule.peer_node_id)
    _ ← validate_listen rule.listen
    _ ← validate_target rule.target
    if has_bytes ids rule.id
        then err duplicate_id
        else if not rule.enabled
        then validate_rules rest (rule.id ∷ ids) listen
        else if has_address listen rule.listen
        then err duplicate_listen
        else validate_rules rest (rule.id ∷ ids) (rule.listen ∷ listen)
    where
      known : Option (List ℕ) → Result (Unit {0})
      known none = err bad_peer
      known (some peer) = ok tt

  unfoldable pub validate_client : ClientConfig → Result (Unit {0})
  unfolding validate_rules
  validate_client c =
      if c.version != rules_schema_version then err bad_version else validate_rules c.rules [] []

  unfoldable pub client_peers : List TunnelRule → List (List ℕ) → List (List ℕ)
  unfolding add_peers
  client_peers [] peers = peers
  client_peers (rule ∷ rest) peers =
      client_peers rest (if rule.enabled then add_peers (rule.peer_node_id ∷ []) peers else peers)

  unfoldable pub client_single_peer : ClientConfig → Result (List ℕ)
  unfolding validate_client client_peers
  client_single_peer c = do
    _ ← validate_client c
    elim (client_peers c.rules []) [
      | [] ↦ err no_peer
      | peer ∷ more ↦ elim more [ [] ↦ ok peer | _ ∷ _ ↦ err several_peers ]
    ]

  abbrev pub enabled_rules : ClientConfig → List TunnelRule
  enabled_rules c = select (λ rule. rule.enabled) c.rules
