-- ===== src/Examples/Gossip.antt =====
-- A broadcast at a concrete input, with a codec that writes lists of numbers one after the other.
use libtaurus.Prelude.{
  ℕ, zero, suc, ◌≡◌, refl, Option, none, some, List, [], ◌∷◌, map, Result, ok, ℕ_discrete, insert,
  insert_all,
}
use libtaurus.Hash as hash
use libtaurus.Hash.{Hash, Hash-discrete}
use libtaurus.Hash.Protobuf.{HashMessage}
use libtaurus.Vertex.{Vertex, sanity_checks}
use libtaurus.Vertex.Protobuf.{VertexMessage}
use libtaurus.Vertex.Roundtrip.{IsSized}
use libtaurus.P2p.Broadcast as broadcast
use libtaurus.P2p.Broadcast.{BroadcastMessage, BroadcastError}
use libtaurus.P2p.Gossip.{IsCodec, broadcast-received}
use libtaurus.P2p.Task as p2p
use libtaurus.Examples.Tasks.{net}

-- Each number is raised by one; 0 separates two lists.
put : List ℕ → List ℕ → List ℕ
put [] rest = rest
put (a ∷ l) rest = suc a ∷ put l rest

write : List ℕ → List (List ℕ) → List ℕ
write l [] = put l []
write l (k ∷ ks) = put l (0 ∷ write k ks)

read : List ℕ → List ℕ × List (List ℕ)
read [] = ([], [])
read (zero ∷ bytes) = let (l, ls) = read bytes in ([], l ∷ ls)
read (suc a ∷ bytes) = let (l, ls) = read bytes in (a ∷ l, ls)

read-put :
    (l rest : List ℕ) (ls : List (List ℕ)) → read rest ≡ ([], ls) → read (put l rest) ≡ (l, ls)
unfolding read put
read-put [] rest ls e = e
read-put (a ∷ l) rest ls e = rw (read-put l rest ls e) refl

read-write : (l : List ℕ) (ls : List (List ℕ)) → read (write l ls) ≡ (l, ls)
unfolding read write
read-write l [] = read-put l [] [] refl
read-write l (k ∷ ks) = read-put l (0 ∷ write k ks) (k ∷ ks) (rw (read-write k ks) refl)

field : Option HashMessage → List ℕ
field none = []
field (some h) = 1 ∷ h.hash

field_of : List ℕ → Option HashMessage
field_of [] = none
field_of (a ∷ l) = some (record { hash = l })

field_of-field : (o : Option HashMessage) → field_of (field o) ≡ o
unfolding field field_of
field_of-field none = refl
field_of-field (some h) = refl

hashes_of : List (List ℕ) → List HashMessage
hashes_of [] = []
hashes_of (l ∷ ls) = record { hash = l } ∷ hashes_of ls

hashes_of-map : (hs : List HashMessage) → hashes_of (map (λ (h : HashMessage). h.hash) hs) ≡ hs
unfolding hashes_of
hashes_of-map [] = refl
hashes_of-map (h ∷ hs) = rw (hashes_of-map hs) refl

encode : BroadcastMessage → Result BroadcastError (List ℕ)
encode p = elim p.vertex_message [
  | none ↦ ok []
  | some m ↦ ok (
      write (m.version ∷ m.height ∷ [])
        (field m.namespace_id ∷ field m.root ∷ map (λ (h : HashMessage). h.hash) m.parents))
]

decoded : List ℕ × List (List ℕ) → BroadcastMessage
decoded (version ∷ height ∷ [], namespace_id ∷ root ∷ parents) = record {
  vertex_message = some (record {
    version = version;
    height = height;
    parents = hashes_of parents;
    namespace_id = field_of namespace_id;
    root = field_of root;
  });
}
decoded other = record { vertex_message = none }

decode : List ℕ → Result BroadcastError BroadcastMessage
decode bytes = ok (decoded (read bytes))

codec : IsCodec net encode decode
unfolding encode decode decoded read
codec p = written p.vertex_message
  where
    written :
        (o : Option VertexMessage)
        → (bytes : List ℕ) × (encode (record { vertex_message = o }) ≡ ok bytes)
          × (decode bytes ≡ ok (record { vertex_message = o }))
    written none = ([], refl, refl)
    written (some m) =
        let ls =
          field m.namespace_id ∷ field m.root ∷ map (λ (h : HashMessage). h.hash) m.parents in
        (
          write (m.version ∷ m.height ∷ []) ls,
          refl,
          rw
              (
                read-write (m.version ∷ m.height ∷ []) ls,
                field_of-field m.namespace_id,
                field_of-field m.root,
                hashes_of-map m.parents,
              )
              refl,
        )

abbrev parent : Hash
parent = hash.default

abbrev vx : Vertex
vx = record {
  version = 1;
  height = 7;
  parents = parent ∷ [];
  namespace_id = parent;
  root = parent;
  timestamp = 3;
}

vx-IsSized : IsSized vx
vx-IsSized = record { parents = (refl, tt); namespace_id = refl; root = refl }

vx_sane : sanity_checks vx ≡ ok tt
unfolding sanity_checks insert_all insert Hash-discrete ℕ_discrete
vx_sane = refl

broadcast-received_example :
    (bytes : List ℕ) × (p2p.handle_inbound_action net encode decode 4 5
        (p2p.new net encode decode)
        (p2p.broadcast (broadcast.vertex vx))
      ≡ ok (p2p.new net encode decode, p2p.publish bytes ∷ []))
    × (p2p.handle_gossipsub net encode decode 9 (p2p.message 1 2 3 bytes)
        ≡ some (
            p2p.gossipsub_message (record {
              id = 2;
              src = 1;
              topic = 3;
              content = broadcast.vertex (record vx { timestamp = 9 });
            })))
broadcast-received_example =
    broadcast-received net encode decode 4 9 5 (p2p.new net encode decode) vx 1 2 3 codec vx_sane
      vx-IsSized
