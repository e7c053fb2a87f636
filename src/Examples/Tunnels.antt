-- ===== src/Examples/Tunnels.antt =====
-- Forwarding rules for one peer. A text decodes to its first 16 characters.
use p2p_file.Common.{
  ℕ, ◌≡◌, refl, ◌⊎◌, true, false, List, [], ◌∷◌, Option, some, take, replicate, All,
}
use p2p_file.Identity.{from_hex}
use p2p_file.Tunnel.Rules.{
  SocketAddr, v4, v6, ServiceConfig, TunnelRule, ClientConfig, Error, ok, err, duplicate_listen,
  validate_service, validate_rule_id, validate_rule_name, validate_target, validate_listen,
  validate_client, validate_rules,
}
use p2p_file.Tunnel.Rules.Serving.{
  CompiledPolicy, replace, target_allowed, peer_allowed, grants, admits, replace_lem,
}
use p2p_file.Tunnel.Rules.Accepted.{IsListener, Apart, validate_client_lem}

abbrev decode : List ℕ → Option (List ℕ)
decode text = some (take 16 text)

abbrev sevens : List ℕ
sevens = replicate 32 7

-- The identifier that the text stands for.
abbrev peer : List ℕ
peer = replicate 16 7

-- 127.0.0.1:8080 and [::1]:22
abbrev web : SocketAddr
web = record { ip = v4 2130706433; port = 8080; flow_and_scope = 0 }

abbrev shell : SocketAddr
shell = record { ip = v6 1; port = 22; flow_and_scope = 0 }

abbrev service : ServiceConfig
service = record {
  version = 1;
  forward_targets =
      record {
        allowed_peers = sevens ∷ [];
        id = b'a' ∷ [];
        name = b'w' ∷ [];
        target = web;
        enabled = true;
      }
      ∷ record {
        allowed_peers = sevens ∷ [];
        id = b'b' ∷ [];
        name = b's' ∷ [];
        target = shell;
        enabled = false;
      }
      ∷ [];
}

abbrev closed : CompiledPolicy
closed = record { targets = []; peers = [] }

granted : grants decode service.forward_targets peer web ≡ true
unfolding from_hex
granted = refl

disabled : grants decode service.forward_targets peer shell ≡ false
unfolding from_hex
disabled = refl

replace_lem_example :
    ((e : Error) × (validate_service decode service ≡ err e)
      × (replace decode closed service ≡ (closed, err e)))
    ⊎ ((validate_service decode service ≡ ok tt)
        × ((replace decode closed service).1 ≡ ok tt)
        × ((peer : List ℕ) (target : SocketAddr)
            → (target_allowed (replace decode closed service).0 peer target
                ≡ grants decode service.forward_targets peer target)
              × (peer_allowed (replace decode closed service).0 peer
                  ≡ admits decode service.forward_targets peer)))
replace_lem_example = replace_lem decode closed service

abbrev local_web : TunnelRule
local_web = record {
  id = b'a' ∷ [];
  name = b'w' ∷ [];
  peer_node_id = sevens;
  listen = web;
  target = shell;
  enabled = true;
  auto_start = false;
}

abbrev local_shell : TunnelRule
local_shell = record local_web { id = b'b' ∷ []; listen = shell }

abbrev client : ClientConfig
client = record { version = 1; rules = local_web ∷ local_shell ∷ [] }

client_accepted : validate_client decode client ≡ ok tt
unfolding validate_client validate_rules validate_rule_id validate_rule_name validate_listen
    validate_target from_hex
client_accepted = refl

client_refused :
    validate_client decode
      (record client { rules = local_web ∷ (record local_shell { listen = web }) ∷ [] })
    ≡ err duplicate_listen
unfolding validate_client validate_rules validate_rule_id validate_rule_name validate_listen
    validate_target from_hex
client_refused = refl

validate_client_lem_example :
    (client.version ≡ 1)
    × All (IsListener decode) (local_web ∷ local_shell ∷ [])
    × Apart decode (local_web ∷ local_shell ∷ [])
validate_client_lem_example = validate_client_lem decode client client_accepted
