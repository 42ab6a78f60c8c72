-- ===== src/Vertex/Protobuf.antt =====
-- src/consensus/vertex.rs: the protobuf form of a vertex. The instant at which a vertex is decoded
-- becomes its timestamp, which is not part of the message.
use libtaurus.Prelude.{
  ℕ, Bool, Option, some, List, Result, ok, ◌>>=◌, map_err, ok_or, try_map, if◌then◌else◌, ℕ-Key,
}
use libtaurus.Hash.{Hash}
use libtaurus.Hash.Protobuf as hash_proto
use libtaurus.Hash.Protobuf.{HashMessage}
use libtaurus.Vertex.{
  Vertex, VertexError, of_hash, missing_field, namespace_field, root_field, sanity_checks,
}

-- `proto::Vertex`
pub record VertexMessage : Type 0 where
  pub version : ℕ
  pub height : ℕ
  pub parents : List HashMessage
  pub namespace_id : Option HashMessage
  pub root : Option HashMessage

-- The sanity checks, where they are asked for.
abbrev pub checked : Vertex → Bool → Result VertexError (Unit {0})
checked vx check = if check then sanity_checks vx else ok tt

abbrev pub hash_message : Bool → Hash → Result VertexError HashMessage
hash_message check h = map_err of_hash (hash_proto.to_protobuf h check)

abbrev pub of_message : Bool → HashMessage → Result VertexError Hash
of_message check p = map_err of_hash (hash_proto.from_protobuf p check)

-- `Vertex::to_protobuf`
unfoldable pub to_protobuf : Vertex → Bool → Result VertexError VertexMessage
to_protobuf vx check = do
  _ ← checked vx check
  parents ← try_map (hash_message check) vx.parents
  namespace_id ← hash_message check vx.namespace_id
  root ← hash_message check vx.root
  ok (record {
    version = vx.version;
    height = vx.height;
    parents = parents;
    namespace_id = some namespace_id;
    root = some root;
  })

-- `Vertex::from_protobuf` at the instant `now`.
unfoldable pub from_protobuf : ℕ → VertexMessage → Bool → Result VertexError Vertex
from_protobuf now p check = do
  parents ← try_map (of_message check) p.parents
  namespace_message ← ok_or p.namespace_id (missing_field namespace_field)
  namespace_id ← of_message check namespace_message
  root_message ← ok_or p.root (missing_field root_field)
  root ← of_message check root_message
  let vx : Vertex = record {
    version = p.version;
    height = p.height;
    parents = parents;
    namespace_id = namespace_id;
    root = root;
    timestamp = now;
  }
  _ ← checked vx check
  ok vx
