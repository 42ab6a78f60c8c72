-- ===== src/Namespace.antt =====
-- src/consensus/namespace.rs: namespaces, and their identifiers under the digest that the program
-- takes from blake3.
use libtaurus.Prelude.{ℕ, List}
use libtaurus.Hash.{Hash}

-- The bytes of the name.
pub record Namespace : Type 0 where
  pub name : List ℕ

abbrev pub new : List ℕ → Namespace
new name = record { name = name }

abbrev pub id : (digest : List ℕ → Hash) → Namespace → Hash
id digest namespace = digest namespace.name
