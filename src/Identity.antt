-- ===== src/Identity.antt =====
-- The node identifiers of src/identity.rs: 16 bytes, written as hexadecimal text. The decoder of
-- the crate `hex` is a parameter.
use p2p_file.Common.{ℕ, List, Option, none, some, if◌then◌else◌, ◌==◌, length}

abbrev pub node_id_len : ℕ
node_id_len = 16

-- `NodeId::from_hex`
unfoldable pub from_hex : (List ℕ → Option (List ℕ)) → List ℕ → Option (List ℕ)
from_hex hex_decode text = elim (hex_decode text) [
  | none ↦ none
  | some raw ↦ if length raw == node_id_len then some raw else none
]
