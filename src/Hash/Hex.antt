-- ===== src/Hash/Hex.antt =====
-- src/hash.rs and src/consensus/vertex.rs: hashes as hex strings, and the form in which a vertex is
-- displayed. A text is the list of its characters' codes; `encode` is `hex::encode`.
use libtaurus.Prelude.{ℕ, List, [], ◌∷◌, ◌++◌, map, take}
use libtaurus.Hash.{Hash}
use libtaurus.Vertex.{Vertex}

module _ (encode : List ℕ → List ℕ) where
  -- `to_hex`
  unfoldable pub to_hex : Hash → List ℕ
  to_hex h = encode h.bytes

  -- `to_short_hex`, which is also how a hash is displayed.
  unfoldable pub to_short_hex : Hash → List ℕ
  to_short_hex h = encode (take 4 h.bytes) ++ b'.' ∷ b'.' ∷ []

-- `PrettyVertex`
pub record PrettyVertex : Type 0 where
  pub version : ℕ
  pub height : ℕ
  pub parents : List (List ℕ)
  pub namespace_id : List ℕ
  pub tx_root : List ℕ
  pub timestamp : ℕ

-- `From<&Vertex> for PrettyVertex`
abbrev pub pretty : (encode : List ℕ → List ℕ) → Vertex → PrettyVertex
pretty encode vertex = record {
  version = vertex.version;
  height = vertex.height;
  parents = map (to_hex encode) vertex.parents;
  namespace_id = to_hex encode vertex.namespace_id;
  tx_root = to_hex encode vertex.root;
  timestamp = vertex.timestamp;
}
