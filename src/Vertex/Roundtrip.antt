-- ===== src/Vertex/Roundtrip.antt =====
-- A vertex and its message determine each other, but for the timestamp.
use mathlib.Core.Path.{subst}
use libtaurus.Prelude.{
  ℕ, ◌≡◌, refl, ap, sym, Bool, List, [], ◌∷◌, Result, ok, try_map, arith, ℕ-Key, >>=-eq-ok,
  ok-injective, map_err-eq-ok, try_map-cons, ok_or, ok_or-eq-ok,
}
use libtaurus.Hash.{Hash, IsHash}
use libtaurus.Hash.Protobuf as hash_proto
use libtaurus.Hash.Protobuf.{HashMessage}
use libtaurus.Vertex.{
  Vertex, VertexError, of_hash, missing_field, namespace_field, root_field, sanity_checks,
}
use libtaurus.Wire
use libtaurus.Wire.{WireFormat}
use libtaurus.Vertex.Protobuf.{
  VertexMessage, checked, hash_message, of_message, to_protobuf, from_protobuf,
}

-- The hashes of a vertex are 32 bytes each, as their type says.
abbrev pub AreHashes : List Hash → Type 0
AreHashes [] = Unit {0}
AreHashes (h ∷ hs) = IsHash h × AreHashes hs

pub record IsSized (vx : Vertex) : Type 0 where
  pub parents : AreHashes vx.parents
  pub namespace_id : IsHash vx.namespace_id
  pub root : IsHash vx.root

hash_message-back :
    (check : Bool) (h : Hash) (p : HashMessage)
    → IsHash h
    → hash_message check h ≡ ok p
    → of_message check p ≡ ok h
hash_message-back check h p l e = ground (
  arith,
  hash_proto.from_protobuf-to_protobuf h p check l
      (map_err-eq-ok of_hash (hash_proto.to_protobuf h check) e),
)

of_message-back :
    (check : Bool) (p : HashMessage) (h : Hash)
    → of_message check p ≡ ok h
    → IsHash h × (hash_message check h ≡ ok p)
of_message-back check p h e = ground (
  arith,
  hash_proto.from_protobuf-IsHash p h check
      (map_err-eq-ok of_hash (hash_proto.from_protobuf p check) e),
)

hash_messages-back :
    (check : Bool) (hs : List Hash) (ps : List HashMessage)
    → AreHashes hs
    → try_map (hash_message check) hs ≡ ok ps
    → try_map (of_message check) ps ≡ ok hs
unfolding try_map
hash_messages-back check [] ps l e = rw (← ok-injective e) refl
hash_messages-back check (h ∷ hs) ps (l, ls) e =
    let (q, qs, e₁, e₂, k) = try_map-cons (hash_message check) h hs ps e in
    rw (← k) (rw (hash_message-back check h q l e₁, hash_messages-back check hs qs ls e₂) refl)

of_messages-back :
    (check : Bool) (ps : List HashMessage) (hs : List Hash)
    → try_map (of_message check) ps ≡ ok hs
    → AreHashes hs × (try_map (hash_message check) hs ≡ ok ps)
unfolding try_map
of_messages-back check [] hs e =
    subst (λ (l : List Hash). AreHashes l × (try_map (hash_message check) l ≡ ok []))
      (ok-injective e) (tt, refl)
of_messages-back check (p ∷ ps) hs e =
    let (h, hs', e₁, e₂, k) = try_map-cons (of_message check) p ps hs e in
    let (l, back) = of_message-back check p h e₁ in
    let (ls, backs) = of_messages-back check ps hs' e₂ in
    subst (λ (l : List Hash). AreHashes l × (try_map (hash_message check) l ≡ ok (p ∷ ps))) k
      ((l, ls), rw (back, backs) refl)

-- A vertex whose hashes are 32 bytes comes back from its message, with the instant of the decoding
-- as its timestamp.
pub from_protobuf-to_protobuf :
    (vx : Vertex) (check : Bool) (now : ℕ) (p : VertexMessage)
    → IsSized vx
    → to_protobuf vx check ≡ ok p
    → from_protobuf now p check ≡ ok (record vx { timestamp = now })
unfolding to_protobuf from_protobuf sanity_checks
from_protobuf-to_protobuf vx check now p l h =
    let (_, e₀, h₁) = >>=-eq-ok (checked vx check) _ h in
    let (ps, e₁, h₂) = >>=-eq-ok (try_map (hash_message check) vx.parents) _ h₁ in
    let (n, e₂, h₃) = >>=-eq-ok (hash_message check vx.namespace_id) _ h₂ in
    let (r, e₃, h₄) = >>=-eq-ok (hash_message check vx.root) _ h₃ in
    subst (λ (q : VertexMessage). from_protobuf now q check ≡ ok (record vx { timestamp = now }))
      (ok-injective h₄)
      (rw
        (
          hash_messages-back check vx.parents ps l.parents e₁,
          hash_message-back check vx.namespace_id n l.namespace_id e₂,
          hash_message-back check vx.root r l.root e₃,
          e₀,
        )
        refl)

-- What is decoded from a message is a vertex with hashes of 32 bytes and the instant of the decoding
-- as its timestamp, and it encodes to that same message.
pub to_protobuf-from_protobuf :
    (p : VertexMessage) (check : Bool) (now : ℕ) (vx : Vertex)
    → from_protobuf now p check ≡ ok vx
    → IsSized vx × (vx.timestamp ≡ now) × (to_protobuf vx check ≡ ok p)
unfolding to_protobuf from_protobuf
to_protobuf-from_protobuf p check now vx h =
    let (hs, e₁, h₁) = >>=-eq-ok (try_map (of_message check) p.parents) _ h in
    let (nm, e₂, h₂) = >>=-eq-ok (ok_or p.namespace_id (missing_field namespace_field)) _ h₁ in
    let (n, e₃, h₃) = >>=-eq-ok (of_message check nm) _ h₂ in
    let (rm, e₄, h₄) = >>=-eq-ok (ok_or p.root (missing_field root_field)) _ h₃ in
    let (r, e₅, h₅) = >>=-eq-ok (of_message check rm) _ h₄ in
    let u : Vertex = record {
      version = p.version;
      height = p.height;
      parents = hs;
      namespace_id = n;
      root = r;
      timestamp = now;
    } in
    let (_, e₆, h₆) = >>=-eq-ok (checked u check) _ h₅ in
    let (ls, back) = of_messages-back check p.parents hs e₁ in
    let (ln, back_n) = of_message-back check nm n e₃ in
    let (lr, back_r) = of_message-back check rm r e₅ in
    subst (λ (v : Vertex). IsSized v × (v.timestamp ≡ now) × (to_protobuf v check ≡ ok p))
      (ok-injective h₆)
      (
        record { parents = ls; namespace_id = ln; root = lr },
        refl,
        rw (e₆, back, back_n, back_r)
            (ap ok (λ i. record {
              version = p.version;
              height = p.height;
              parents = p.parents;
              namespace_id = sym (ok_or-eq-ok p.namespace_id (missing_field namespace_field) e₂) i;
              root = sym (ok_or-eq-ok p.root (missing_field root_field) e₄) i;
            })),
      )

-- The wire format of vertices, read at the instant `now`.
abbrev pub vertex_format : ℕ → WireFormat Vertex VertexMessage VertexError
vertex_format now = record { to_protobuf = to_protobuf; from_protobuf = from_protobuf now }

-- With a codec that decodes what it encoded, a vertex whose hashes are 32 bytes comes back from the
-- bytes that it was written to, with the instant of the reading as its timestamp.
pub from_wire-to_wire :
    (encode : VertexMessage → Result VertexError (List ℕ))
    (decode : List ℕ → Result VertexError VertexMessage) (vx : Vertex) (check : Bool) (now : ℕ)
    (bytes : List ℕ)
    → Wire.CodecRoundtrips (vertex_format now) encode decode
    → IsSized vx
    → Wire.to_wire (vertex_format now) encode decode vx check ≡ ok bytes
    → Wire.from_wire (vertex_format now) encode decode bytes check
      ≡ ok (record vx { timestamp = now })
from_wire-to_wire encode decode vx check now bytes codec sized h =
    Wire.from_wire-to_wire (vertex_format now) encode decode vx (record vx { timestamp = now })
      check bytes codec (λ p e. from_protobuf-to_protobuf vx check now p sized e) h
