-- ===== src/Tunnel/Rules/Accepted.antt =====
-- What the validation of src/tunnel/rules.rs accepts.
use p2p_file.Common.{
  ℕ, ◌≤◌, ◌<◌, ◌≡◌, ◌≢◌, true, false, ◌&&◌, ◌||◌, List, [], ◌∷◌, Option, some, if◌then◌else◌,
  length, All, arith, inl, inr, Bool-cases, Option-cases,
}
use p2p_file.Common.Bytes.{same_bytes_iff}
use p2p_file.Common.Text.{utf8}
use p2p_file.Identity.{from_hex}
use p2p_file.Tunnel.Rules.{
  SocketAddr, same_address, is_loopback, is_unspecified, is_multicast, TunnelRule, ClientConfig, ok,
  has_bytes, has_address, validate_rule_id, validate_listen, validate_target, validate_rules,
  validate_client,
}

All-map :
    {P Q : TunnelRule → Type 0} (rs : List TunnelRule)
    → ((r : TunnelRule) → P r → Q r)
    → All P rs
    → All Q rs
All-map [] f h = tt
All-map (r ∷ rs) f h = (f r h.0, All-map rs f h.1)

module _ (hex_decode : List ℕ → Option (List ℕ)) where
  -- A listener on this machine, for a peer that has an identifier, to a target that can be one.
  pub record IsListener (r : TunnelRule) : Type 0 where
    pub id_some : 0 < length r.id
    pub id_short : length (utf8 r.id) ≤ 64
    pub peer : (id : List ℕ) × (from_hex hex_decode r.peer_node_id ≡ some id)
    pub local : is_loopback r.listen.ip ≡ true
    pub listen_port : 0 < r.listen.port
    pub target_port : 0 < r.target.port
    pub specific : (is_unspecified r.target.ip || is_multicast r.target.ip) ≡ false

  -- No two rules have one identifier, and no two enabled ones listen at one address.
  abbrev pub Apart : List TunnelRule → Type 0
  Apart [] = Unit
  Apart (r ∷ rs) =
      All
        (λ s.
          (r.id ≢ s.id) × ((r.enabled && (s.enabled && same_address r.listen s.listen)) ≡ false))
        rs
      × Apart rs

  rules_inv :
      (r : TunnelRule) (rs : List TunnelRule) (ids : List (List ℕ)) (listen : List SocketAddr)
      → validate_rules hex_decode (r ∷ rs) ids listen ≡ ok tt
      → (has_bytes ids r.id ≡ false)
        × ((r.enabled && has_address listen r.listen) ≡ false)
        × (validate_rules hex_decode rs
              (r.id ∷ ids)
              (if r.enabled then r.listen ∷ listen else listen)
            ≡ ok tt)
  unfolding validate_rules
  rules_inv r rs ids listen h = (ground arith, ground arith, ground arith)

  listener :
      (r : TunnelRule) (rs : List TunnelRule) (ids : List (List ℕ)) (listen : List SocketAddr)
      → validate_rules hex_decode (r ∷ rs) ids listen ≡ ok tt
      → IsListener r
  unfolding validate_rules validate_rule_id validate_listen validate_target
  listener r rs ids listen h = elim (Option-cases (from_hex hex_decode r.peer_node_id)) [
    | inl p ↦ absurd (ground arith)
    | inr (peer, p) ↦ record {
      id_some = ground arith;
      id_short = ground arith;
      peer = (peer, p);
      local = ground arith;
      listen_port = ground arith;
      target_port = ground arith;
      specific = ground arith;
    }
  ]

  -- What is known of the rules that are left when those before them have been accepted.
  abbrev Left : List (List ℕ) → List SocketAddr → List TunnelRule → Type 0
  Left ids listen rs =
      All (λ s. (has_bytes ids s.id ≡ false) × ((s.enabled && has_address listen s.listen) ≡ false))
        rs
      × Apart rs
      × All IsListener rs

  validate_rules_lem :
      (rs : List TunnelRule) (ids : List (List ℕ)) (listen : List SocketAddr)
      → validate_rules hex_decode rs ids listen ≡ ok tt
      → Left ids listen rs
  validate_rules_lem [] ids listen h = (tt, tt, tt)
  validate_rules_lem (r ∷ rs) ids listen h =
      let (a, b, rest) = rules_inv r rs ids listen h in
      let taken = if r.enabled then r.listen ∷ listen else listen in
      let (known, apart, good) = validate_rules_lem rs (r.id ∷ ids) taken rest in
      (
        ((a, b), All-map rs (λ s k. older s k) known),
        (All-map rs (λ s k. other s k) known, apart),
        (listener r rs ids listen h, good),
      )
    where
      older :
          (s : TunnelRule)
          → (has_bytes (r.id ∷ ids) s.id ≡ false)
            × ((s.enabled && has_address (if r.enabled then r.listen ∷ listen else listen) s.listen)
                ≡ false)
          → (has_bytes ids s.id ≡ false) × ((s.enabled && has_address listen s.listen) ≡ false)
      older s (x, y) = elim (Bool-cases r.enabled) [
        | inl e ↦ (ground arith, ground (arith, e))
        | inr e ↦ (ground arith, ground (arith, e))
      ]

      other :
          (s : TunnelRule)
          → (has_bytes (r.id ∷ ids) s.id ≡ false)
            × ((s.enabled && has_address (if r.enabled then r.listen ∷ listen else listen) s.listen)
                ≡ false)
          → (r.id ≢ s.id) × ((r.enabled && (s.enabled && same_address r.listen s.listen)) ≡ false)
      other s (x, y) = elim (Bool-cases r.enabled) [
        | inl e ↦ (differs s x, ground (arith, e))
        | inr e ↦ (differs s x, ground (arith, e))
      ]
        where
          differs : (s : TunnelRule) → has_bytes (r.id ∷ ids) s.id ≡ false → r.id ≢ s.id
          differs s x q = let same = (same_bytes_iff r.id s.id).1 q in ground arith

  -- A client configuration that is accepted has version 1 and only listeners on the loopback with
  -- a port, for peers that have an identifier, to specific targets with a port; no two rules have
  -- one identifier, and no two enabled ones listen at one address.
  pub validate_client_lem :
      (config : ClientConfig)
      → validate_client hex_decode config ≡ ok tt
      → (config.version ≡ 1) × All IsListener config.rules × Apart config.rules
  unfolding validate_client
  validate_client_lem config h =
      let (k, apart, good) = validate_rules_lem config.rules [] [] (ground arith) in
      (ground arith, good, apart)
