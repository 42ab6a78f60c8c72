-- ===== src/P2p/Messages.antt =====
-- The messages between peers come back from their protobuf form.
use mathlib.Core.Path.{subst}
use libtaurus.Prelude.{
  ℕ, ◌≡◌, refl, Bool, arith, ok, map_err, >>=-eq-ok, ok-injective, map_err-eq-ok,
}
use libtaurus.Hash.{IsHash}
use libtaurus.Hash.Protobuf as hash_proto
use libtaurus.Vertex.{Vertex}
use libtaurus.Vertex.Protobuf as vertex_proto
use libtaurus.Vertex.Roundtrip
use libtaurus.Vertex.Roundtrip.{IsSized}
use libtaurus.P2p.Request.{
  Request, get_vertex, get_preference, RequestMessage, hash_error, vertex_error,
  request-to_protobuf, request-from_protobuf, ErrorCode, unknown, not_found, error_code, code_of,
  Response, error, vertex, preference, ResponseMessage, response-to_protobuf,
  response-from_protobuf, hash_message, of_message, response_of, request_of,
}
use libtaurus.P2p.Broadcast as broadcast

-- The hash in a request is 32 bytes, as its type says.
abbrev pub IsSizedRequest : Request → Type 0
IsSizedRequest (get_vertex h) = IsHash h
IsSizedRequest (get_preference h) = IsHash h

hash-back :
    (h : _) (p : _) (check : Bool)
    → IsHash h
    → hash_message check h ≡ ok p
    → of_message check p ≡ ok h
hash-back h p check l e = ground (
  arith,
  hash_proto.from_protobuf-to_protobuf h p check l
      (map_err-eq-ok hash_error (hash_proto.to_protobuf h check) e),
)

-- A request whose hash is 32 bytes comes back from its message.
pub request-from_protobuf-to_protobuf :
    (r : Request) (p : RequestMessage) (check : Bool)
    → IsSizedRequest r
    → request-to_protobuf r check ≡ ok p
    → request-from_protobuf p check ≡ ok r
unfolding request-to_protobuf request-from_protobuf
request-from_protobuf-to_protobuf (get_vertex h) p check l e =
    let (m, e₁, h₁) = >>=-eq-ok (hash_message check h) _ e in
    subst (λ (q : RequestMessage). request_of check q.request_data ≡ ok (get_vertex h))
      (ok-injective h₁) (rw (hash-back h m check l e₁) refl)
request-from_protobuf-to_protobuf (get_preference h) p check l e =
    let (m, e₁, h₁) = >>=-eq-ok (hash_message check h) _ e in
    subst (λ (q : RequestMessage). request_of check q.request_data ≡ ok (get_preference h))
      (ok-injective h₁) (rw (hash-back h m check l e₁) refl)

-- The vertex in a response has hashes of 32 bytes.
abbrev pub IsSizedResponse : Response → Type 0
IsSizedResponse (vertex vx) = IsSized vx
IsSizedResponse (error code) = Unit {0}
IsSizedResponse (preference preferred) = Unit {0}

-- A response as its receiver reads it: a vertex is stamped with the instant of the reading.
abbrev pub stamped : ℕ → Response → Response
stamped now (vertex vx) = vertex (record vx { timestamp = now })
stamped now (error code) = error code
stamped now (preference preferred) = preference preferred

error_code-code_of : (c : ErrorCode) → error_code (code_of c) ≡ ok c
error_code-code_of unknown = refl
error_code-code_of not_found = refl

-- A response whose vertex, if it has one, has hashes of 32 bytes comes back from its message, the
-- vertex stamped with the instant of the reading.
pub response-from_protobuf-to_protobuf :
    (r : Response) (p : ResponseMessage) (check : Bool) (now : ℕ)
    → IsSizedResponse r
    → response-to_protobuf r check ≡ ok p
    → response-from_protobuf now p check ≡ ok (stamped now r)
unfolding response-to_protobuf response-from_protobuf
response-from_protobuf-to_protobuf (error code) p check now l e =
    subst (λ (q : ResponseMessage). response_of now check q.response_data ≡ ok (error code))
      (ok-injective e) (rw (error_code-code_of code) refl)
response-from_protobuf-to_protobuf (vertex vx) p check now l e =
    let (m, e₁, h₁) = >>=-eq-ok (map_err vertex_error (vertex_proto.to_protobuf vx check)) _ e in
    let back =
      Roundtrip.from_protobuf-to_protobuf vx check now m l
        (map_err-eq-ok vertex_error (vertex_proto.to_protobuf vx check) e₁) in
    subst
      (λ (q : ResponseMessage).
        response_of now check q.response_data ≡ ok (stamped now (vertex vx)))
      (ok-injective h₁) (rw (back) refl)
response-from_protobuf-to_protobuf (preference preferred) p check now l e =
    subst
      (λ (q : ResponseMessage). response_of now check q.response_data ≡ ok (preference preferred))
      (ok-injective e) refl

-- A broadcast of a vertex whose hashes are 32 bytes comes back from its message, the vertex stamped
-- with the instant of the reading.
pub broadcast-from_protobuf-to_protobuf :
    (vx : Vertex) (p : broadcast.BroadcastMessage) (check : Bool) (now : ℕ)
    → IsSized vx
    → broadcast.to_protobuf (broadcast.vertex vx) check ≡ ok p
    → broadcast.from_protobuf now p check ≡ ok (broadcast.vertex (record vx { timestamp = now }))
unfolding broadcast.to_protobuf broadcast.from_protobuf
broadcast-from_protobuf-to_protobuf vx p check now l e =
    let (m, e₁, h₁) =
      >>=-eq-ok (map_err broadcast.vertex_error (vertex_proto.to_protobuf vx check)) _ e in
    let back =
      Roundtrip.from_protobuf-to_protobuf vx check now m l
        (map_err-eq-ok broadcast.vertex_error (vertex_proto.to_protobuf vx check) e₁) in
    subst
      (λ (q : broadcast.BroadcastMessage).
        broadcast.from_protobuf now q check ≡ ok (broadcast.vertex (record vx { timestamp = now })))
      (ok-injective h₁) (rw (back) refl)
