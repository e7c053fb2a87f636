-- ===== src/Tunnel/Rules/Serving.antt =====
-- The policy that the service applies, ServePolicy of src/tunnel/rules.rs. A set of identifiers is a
-- list in which none stands twice; the theorems do not look at its order. A poisoned lock is left out.
use p2p_file.Common.{
  ℕ, ◌≡◌, refl, ◌∙◌, ap, ◌⊎◌, inl, inr, Bool, false, ◌&&◌, ◌||◌, List, [], ◌∷◌, ◌++◌, Option, none,
  some, if◌then◌else◌, arith, Bool-cases, Option-cases,
}
use p2p_file.Common.Bytes.{same_bytes, same_bytes_iff}
use p2p_file.Identity.{from_hex}
use p2p_file.Tunnel.Rules.{
  SocketAddr, same_address, AllowedForwardTarget, ServiceConfig, Error, Result, ok, err, has_bytes,
  add_peers, validate_service,
}

pub record CompiledTarget : Type 0 where
  pub target : SocketAddr
  pub peers : List (List ℕ)

pub record CompiledPolicy : Type 0 where
  pub targets : List CompiledTarget
  pub peers : List (List ℕ)

-- `peers.push` of each that is not there.
unfoldable pub push_new : List (List ℕ) → List (List ℕ) → List (List ℕ)
push_new [] peers = peers
push_new (peer ∷ rest) peers =
    push_new rest (if has_bytes peers peer then peers else (peers ++ (peer ∷ [])))

unfoldable pub peer_allowed : CompiledPolicy → List ℕ → Bool
peer_allowed policy peer = has_bytes policy.peers peer

abbrev pub reaches : List ℕ → SocketAddr → List CompiledTarget → Bool
reaches peer target [] = false
reaches peer target (entry ∷ rest) =
    (same_address entry.target target && has_bytes entry.peers peer) || reaches peer target rest

unfoldable pub target_allowed : CompiledPolicy → List ℕ → SocketAddr → Bool
target_allowed policy peer target = reaches peer target policy.targets

abbrev pub reachable : List ℕ → List CompiledTarget → List SocketAddr
reachable peer [] = []
reachable peer (entry ∷ rest) =
    let more = reachable peer rest in
    if has_bytes entry.peers peer then entry.target ∷ more else more

unfoldable pub targets_for : CompiledPolicy → List ℕ → List SocketAddr
targets_for policy peer = reachable peer policy.targets

module _ (hex_decode : List ℕ → Option (List ℕ)) where
  unfoldable pub compile_each : List AllowedForwardTarget → CompiledPolicy → CompiledPolicy
  unfolding push_new
  compile_each [] policy = policy
  compile_each (entry ∷ rest) policy =
      let allowed = add_peers hex_decode entry.allowed_peers [] in
      compile_each rest (
        if entry.enabled
        then record {
          targets = policy.targets ++ (record { target = entry.target; peers = allowed } ∷ []);
          peers = push_new allowed policy.peers;
        }
        else policy)

  unfoldable pub compile : ServiceConfig → CompiledPolicy
  unfolding compile_each
  compile config = compile_each config.forward_targets (record { targets = []; peers = [] })

  -- `ServePolicy::new`
  unfoldable pub new_policy : ServiceConfig → Result CompiledPolicy
  unfolding compile
  new_policy config = elim (validate_service hex_decode config) [
    | err e ↦ err e
    | ok _ ↦ ok (compile config)
  ]

  -- `prepare_replace` and `commit`: the policy afterwards.
  unfoldable pub replace : CompiledPolicy → ServiceConfig → CompiledPolicy × Result (Unit {0})
  unfolding compile
  replace policy config = elim (validate_service hex_decode config) [
    | err e ↦ (policy, err e)
    | ok _ ↦ (compile config, ok tt)
  ]

  -- A text of the list is the identifier.
  abbrev pub named : List (List ℕ) → List ℕ → Bool
  named [] peer = false
  named (text ∷ rest) peer =
      elim (from_hex hex_decode text) [ none ↦ false | some found ↦ same_bytes found peer ]
      || named rest peer

  -- An enabled entry has the target and lists the peer.
  abbrev pub grants : List AllowedForwardTarget → List ℕ → SocketAddr → Bool
  grants [] peer target = false
  grants (entry ∷ rest) peer target =
      (entry.enabled && (same_address entry.target target && named entry.allowed_peers peer))
      || grants rest peer target

  -- An enabled entry lists the peer.
  abbrev pub admits : List AllowedForwardTarget → List ℕ → Bool
  admits [] peer = false
  admits (entry ∷ rest) peer = (entry.enabled && named entry.allowed_peers peer) || admits rest peer

has_bytes-append :
    (ys zs : List (List ℕ)) (x : List ℕ)
    → has_bytes (ys ++ zs) x ≡ (has_bytes ys x || has_bytes zs x)
has_bytes-append [] zs x = refl
has_bytes-append (y ∷ ys) zs x = ground (arith, has_bytes-append ys zs x)

-- Pushing one that may be there.
push_one :
    (peers : List (List ℕ)) (peer x : List ℕ)
    → has_bytes (if has_bytes peers peer then peers else (peers ++ (peer ∷ []))) x
      ≡ (has_bytes peers x || same_bytes peer x)
push_one peers peer x = elim (Bool-cases (has_bytes peers peer)) [
  | inr e ↦ rw e (has_bytes-append peers (peer ∷ []) x ∙ (ground arith))
  | inl e ↦ elim (Bool-cases (same_bytes peer x)) [
    | inl f ↦ let same = ap (has_bytes peers) ((same_bytes_iff peer x).0 f) in rw e (ground arith)
    | inr f ↦ rw e (ground arith)
  ]
]

push_new_lem :
    (new peers : List (List ℕ)) (x : List ℕ)
    → has_bytes (push_new new peers) x ≡ (has_bytes peers x || has_bytes new x)
unfolding push_new
push_new_lem [] peers x = ground arith
push_new_lem (peer ∷ rest) peers x =
    push_new_lem rest (if has_bytes peers peer then peers else (peers ++ (peer ∷ []))) x
    ∙ ap (λ b. b || has_bytes rest x) (push_one peers peer x)
    ∙ or_assoc (has_bytes peers x) (same_bytes peer x) (has_bytes rest x)
  where
    or_assoc : (a b c : Bool) → ((a || b) || c) ≡ (a || (b || c))
    or_assoc a b c = ground arith

reaches-append :
    (peer : List ℕ) (target : SocketAddr) (es fs : List CompiledTarget)
    → reaches peer target (es ++ fs) ≡ (reaches peer target es || reaches peer target fs)
reaches-append peer target [] fs = refl
reaches-append peer target (e ∷ es) fs = ground (arith, reaches-append peer target es fs)

module _ (hex_decode : List ℕ → Option (List ℕ)) where
  add_peers_lem :
      (texts peers : List (List ℕ)) (x : List ℕ)
      → has_bytes (add_peers hex_decode texts peers) x
        ≡ (has_bytes peers x || named hex_decode texts x)
  unfolding add_peers
  add_peers_lem [] peers x = ground arith
  add_peers_lem (text ∷ rest) peers x = elim (Option-cases (from_hex hex_decode text)) [
    | inl p ↦ rw (add_peers, p) (add_peers_lem rest peers x)
    | inr (peer, p) ↦
        rw (add_peers, p)
          (add_peers_lem rest (if has_bytes peers peer then peers else (peers ++ (peer ∷ []))) x
            ∙ ap (λ b. b || named hex_decode rest x) (push_one peers peer x)
            ∙ or_assoc (has_bytes peers x) (same_bytes peer x) (named hex_decode rest x))
  ]
    where
      or_assoc : (a b c : Bool) → ((a || b) || c) ≡ (a || (b || c))
      or_assoc a b c = ground arith

  compile_each_targets :
      (es : List AllowedForwardTarget) (policy : CompiledPolicy) (peer : List ℕ)
      (target : SocketAddr)
      → reaches peer target (compile_each hex_decode es policy).targets
        ≡ (reaches peer target policy.targets || grants hex_decode es peer target)
  unfolding compile_each
  compile_each_targets [] policy peer target = ground arith
  compile_each_targets (e ∷ es) policy peer target =
      let allowed = add_peers hex_decode e.allowed_peers [] in
      let entry : CompiledTarget = record { target = e.target; peers = allowed } in
      let next : CompiledPolicy = record {
        targets = policy.targets ++ (entry ∷ []);
        peers = push_new allowed policy.peers;
      } in
      let known = add_peers_lem e.allowed_peers [] peer in
      let split = reaches-append peer target policy.targets (entry ∷ []) in
      let skipped = compile_each_targets es policy peer target in
      let taken = compile_each_targets es next peer target in
      elim (Bool-cases e.enabled) [
        | inl q ↦ ground (arith, q, known, split, taken)
        | inr q ↦ ground (arith, q, skipped)
      ]

  compile_each_peers :
      (es : List AllowedForwardTarget) (policy : CompiledPolicy) (peer : List ℕ)
      → has_bytes (compile_each hex_decode es policy).peers peer
        ≡ (has_bytes policy.peers peer || admits hex_decode es peer)
  unfolding compile_each
  compile_each_peers [] policy peer = ground arith
  compile_each_peers (e ∷ es) policy peer =
      let allowed = add_peers hex_decode e.allowed_peers [] in
      let entry : CompiledTarget = record { target = e.target; peers = allowed } in
      let next : CompiledPolicy = record {
        targets = policy.targets ++ (entry ∷ []);
        peers = push_new allowed policy.peers;
      } in
      let known = add_peers_lem e.allowed_peers [] peer in
      let pushed = push_new_lem allowed policy.peers peer in
      let skipped = compile_each_peers es policy peer in
      let taken = compile_each_peers es next peer in
      elim (Bool-cases e.enabled) [
        | inl q ↦ ground (arith, q, known, pushed, taken)
        | inr q ↦ ground (arith, q, skipped)
      ]

  -- The compiled policy allows what the configuration grants.
  pub compile_lem :
      (config : ServiceConfig) (peer : List ℕ) (target : SocketAddr)
      → (target_allowed (compile hex_decode config) peer target
          ≡ grants hex_decode config.forward_targets peer target)
        × (peer_allowed (compile hex_decode config) peer
            ≡ admits hex_decode config.forward_targets peer)
  unfolding compile target_allowed peer_allowed
  compile_lem config peer target =
      let start : CompiledPolicy = record { targets = []; peers = [] } in
      (
        compile_each_targets config.forward_targets start peer target,
        compile_each_peers config.forward_targets start peer,
      )

  -- A reload that fails validation returns its error and keeps the policy; otherwise it succeeds,
  -- and then a target is allowed for a peer exactly if an enabled entry of the new configuration
  -- with that target lists it, and a peer is allowed exactly if an enabled entry lists it.
  pub replace_lem :
      (policy : CompiledPolicy) (config : ServiceConfig)
      → ((e : Error) × (validate_service hex_decode config ≡ err e)
          × (replace hex_decode policy config ≡ (policy, err e)))
        ⊎ ((validate_service hex_decode config ≡ ok tt)
            × ((replace hex_decode policy config).1 ≡ ok tt)
            × ((peer : List ℕ) (target : SocketAddr)
                → (target_allowed (replace hex_decode policy config).0 peer target
                    ≡ grants hex_decode config.forward_targets peer target)
                  × (peer_allowed (replace hex_decode policy config).0 peer
                      ≡ admits hex_decode config.forward_targets peer)))
  unfolding replace
  replace_lem policy config = either (validate_service hex_decode config) refl
    where
      either :
          (r : Result (Unit {0}))
          → validate_service hex_decode config ≡ r
          → ((e : Error) × (validate_service hex_decode config ≡ err e)
              × (replace hex_decode policy config ≡ (policy, err e)))
            ⊎ ((validate_service hex_decode config ≡ ok tt)
                × ((replace hex_decode policy config).1 ≡ ok tt)
                × ((peer : List ℕ) (target : SocketAddr)
                    → (target_allowed (replace hex_decode policy config).0 peer target
                        ≡ grants hex_decode config.forward_targets peer target)
                      × (peer_allowed (replace hex_decode policy config).0 peer
                          ≡ admits hex_decode config.forward_targets peer)))
      either (err e) p = inl (e, p, rw (replace, p) refl)
      either (ok tt) p =
          inr (
            p,
            rw (replace, p) refl,
            λ peer target. rw (replace, p) (compile_lem config peer target),
          )
