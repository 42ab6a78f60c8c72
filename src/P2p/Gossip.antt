-- ===== src/P2p/Gossip.antt =====
-- A vertex on its way from the task of one node to the handler of another, as gossip.
use libtaurus.Prelude.{ℕ, ◌≡◌, refl, true, some, List, [], ◌∷◌, Result, ok, try_map}
use libtaurus.Hash.{Hash}
use libtaurus.Hash.Protobuf as hash_proto
use libtaurus.Vertex.{Vertex, sanity_checks}
use libtaurus.Vertex.Protobuf.{VertexMessage, to_protobuf, hash_message}
use libtaurus.Vertex.Roundtrip.{IsSized}
use libtaurus.Wire
use libtaurus.P2p.Broadcast as broadcast
use libtaurus.P2p.Broadcast.{BroadcastMessage, BroadcastError, vertex}
use libtaurus.P2p.Messages.{broadcast-from_protobuf-to_protobuf}
use libtaurus.P2p.Task.{
  Net, Task, message, gossipsub_message, publish, handle_gossipsub, handle_inbound_action,
}
use libtaurus.P2p.Task as task

hash_messages-ends :
    (hs : List Hash) → (ps : List hash_proto.HashMessage) × (try_map (hash_message true) hs ≡ ok ps)
unfolding try_map hash_proto.to_protobuf
hash_messages-ends [] = ([], refl)
hash_messages-ends (h ∷ hs) =
    let (ps, e) = hash_messages-ends hs in (record { hash = h.bytes } ∷ ps, rw (e) refl)

-- A vertex that passes the sanity checks has a message.
to_protobuf-ends :
    (vx : Vertex) → sanity_checks vx ≡ ok tt → (p : VertexMessage) × (to_protobuf vx true ≡ ok p)
unfolding to_protobuf hash_proto.to_protobuf
to_protobuf-ends vx sane =
    let (ps, e) = hash_messages-ends vx.parents in
    (
      record {
        version = vx.version;
        height = vx.height;
        parents = ps;
        namespace_id = some (record { hash = vx.namespace_id.bytes });
        root = some (record { hash = vx.root.bytes });
      },
      rw (sane, e) refl,
    )

module _ (net : Net) (encode : BroadcastMessage → Result BroadcastError (List ℕ))
    (decode : List ℕ → Result BroadcastError BroadcastMessage) where
  -- The codec writes every message, and reads what it wrote.
  abbrev pub IsCodec : Type 0
  IsCodec =
      (p : BroadcastMessage) → (bytes : List ℕ) × (encode p ≡ ok bytes) × (decode bytes ≡ ok p)

  -- With a codec that writes every message and reads what it wrote: a vertex that passes the sanity
  -- checks and whose hashes are 32 bytes is published by the task that is to broadcast it, and a task
  -- that receives what was published hands its handler that vertex, from the peer that sent it, with the
  -- instant of the reading as its timestamp.
  pub broadcast-received :
      (now later : ℕ) (rid : net.OutboundId) (sender : Task net) (vx : Vertex) (src : net.Peer)
      (id : net.MessageId) (topic : net.Topic)
      → IsCodec
      → sanity_checks vx ≡ ok tt
      → IsSized vx
      → (bytes : List ℕ) × (handle_inbound_action net encode decode now rid sender
            (task.broadcast (vertex vx))
          ≡ ok (sender, publish bytes ∷ []))
        × (handle_gossipsub net encode decode later (message src id topic bytes)
            ≡ some (
                gossipsub_message (record {
                  id = id;
                  src = src;
                  topic = topic;
                  content = vertex (record vx { timestamp = later });
                })))
  unfolding handle_inbound_action handle_gossipsub Wire.to_wire Wire.from_wire broadcast.to_protobuf
  broadcast-received now later rid sender vx src id topic codec sane sized =
      let (m, e) = to_protobuf-ends vx sane in
      let p : BroadcastMessage = record { vertex_message = some m } in
      let written : broadcast.to_protobuf (vertex vx) true ≡ ok p = rw (e) refl in
      let (bytes, writes, reads) = codec p in
      (
        bytes,
        rw (e, writes) refl,
        rw (reads, broadcast-from_protobuf-to_protobuf vx p true later sized written) refl,
      )
