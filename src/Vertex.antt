-- ===== src/Vertex.antt =====
-- src/consensus/vertex.rs: vertices, and how they are built and checked. The constraints that a
-- vertex commits to are in `Constraint`.

pub mod Checks
pub mod Protobuf
pub mod Roundtrip
mod Suite
use libtaurus.Prelude.{
  ℕ, ◌≡◌, refl, Bool, true, false, not, Option, none, some, List, [], ◌∷◌, map, if◌then◌else◌, ◌==◌,
  ℕ-Key, length, is_empty, unique, maximum, add64, Result, ok, err, panic, ◌>>=◌, unwrap,
}
use libtaurus.Constraint.{Constraint, constraints_of}
use libtaurus.Hash
use libtaurus.Namespace.{Namespace, id}
use libtaurus.Hash.{Hash, HashError, Hash-Key}

-- `VERSION`
abbrev pub version : ℕ
version = 1

-- Which field `MissingField` names.
pub data Field : Type 0 where
  parents_field namespace_field root_field : Field

-- `vertex::Error`. A transparent error of another component is carried whole.
pub data VertexError : Type 0 where
  bad_version : ℕ → ℕ → VertexError
  duplicate_parents : VertexError
  missing_field : Field → VertexError
  of_hash : HashError → VertexError

-- A `DateTime<Utc>` is the instant that it orders by.
pub record Vertex : Type 0 where
  pub version : ℕ
  pub height : ℕ
  pub parents : List Hash
  pub namespace_id : Hash
  pub root : Hash
  pub timestamp : ℕ

-- `Vertex::empty()` at the instant `now`.
abbrev pub empty : ℕ → Vertex
empty now = record {
  version = version;
  height = 0;
  parents = [];
  namespace_id = Hash.default;
  root = Hash.default;
  timestamp = now;
}

-- `in_namespace`
abbrev pub in_namespace : (digest : List ℕ → Hash) → Vertex → Namespace → Result VertexError Vertex
in_namespace digest vx namespace = ok (record vx { namespace_id = id digest namespace })

-- `parent_constraints`
unfoldable pub parent_constraints : Vertex → List Constraint
unfolding constraints_of
parent_constraints vx = constraints_of vx.parents

-- `sanity_checks`
unfoldable pub sanity_checks : Vertex → Result VertexError (Unit {0})
sanity_checks vx =
    if not (vx.version == version)
    then err (bad_version version vx.version)
    else if is_empty vx.parents
    then err (missing_field parents_field)
    else if not (length vx.parents == length (unique vx.parents))
    then err duplicate_parents
    else ok tt

module _ (hash : Vertex → Hash) where
  -- `with_parents`
  unfoldable pub with_parents : Vertex → List Vertex → Result VertexError Vertex
  with_parents vx parents =
      let heights = map (λ p. p.height) parents in
      let hashes = map hash parents in
      if is_empty heights
      then err (missing_field parents_field)
      else if not (length hashes == length (unique hashes))
      then err duplicate_parents
      else (do
        m ← unwrap (maximum heights)
        ok (record vx { height = add64 1 m; parents = hashes }))
