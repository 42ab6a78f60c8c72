-- ===== src/Hash/Protobuf.antt =====
-- src/hash.rs: the protobuf form of a hash.
use libtaurus.Prelude.{
  ℕ, ◌≡◌, Bool, List, Result, ok, err, ◌==◌, ℕ-Key, if◌then◌else◌, length, arith,
}
use libtaurus.Hash.{Hash, HashError, try_from_slice, hash_len, with_bytes, IsHash}

-- `proto::Hash`
pub record HashMessage : Type 0 where
  pub hash : List ℕ

unfoldable pub to_protobuf : Hash → Bool → Result HashError HashMessage
to_protobuf h _check = ok (record { hash = h.bytes })

-- `try_into` accepts a slice of exactly 32 bytes.
unfoldable pub from_protobuf : HashMessage → Bool → Result HashError Hash
from_protobuf proto _check =
    if length proto.hash == hash_len then ok (with_bytes proto.hash) else err try_from_slice

-- A hash of 32 bytes comes back from its message.
pub from_protobuf-to_protobuf :
    (h : Hash) (p : HashMessage) (check : Bool)
    → IsHash h
    → to_protobuf h check ≡ ok p
    → from_protobuf p check ≡ ok h
unfolding to_protobuf from_protobuf
from_protobuf-to_protobuf h p check l e = ground arith

-- What is decoded from a message is a hash of 32 bytes that encodes to that same message.
pub from_protobuf-IsHash :
    (p : HashMessage) (h : Hash) (check : Bool)
    → from_protobuf p check ≡ ok h
    → IsHash h × (to_protobuf h check ≡ ok p)
unfolding to_protobuf from_protobuf
from_protobuf-IsHash p h check e = ground arith
