-- ===== src/P2p/Broadcast.antt =====
-- src/p2p/broadcast.rs: broadcasts, and the reports on their validity. Message identifiers, peers and
-- topics are types of libp2p.
use libtaurus.Prelude.{ℕ, Bool, Option, some, Result, ok, ◌>>=◌, map_err, ok_or}
use libtaurus.Vertex.{Vertex, VertexError}
use libtaurus.Vertex.Protobuf as vertex_proto
use libtaurus.Vertex.Protobuf.{VertexMessage}
use libtaurus.Wire.{WireFormat}

-- `broadcast::Error`, without the errors that only the protobuf codec makes.
pub data BroadcastError : Type 0 where
  empty_broadcast : BroadcastError
  vertex_error : VertexError → BroadcastError

pub data BroadcastData : Type 0 where
  vertex : Vertex → BroadcastData

-- `gossipsub::MessageAcceptance`
pub data Acceptance : Type 0 where
  accepted ignored rejected : Acceptance

pub record Report (MessageId Peer : Type 0) : Type 0 where
  pub msg_id : MessageId
  pub propagation_source : Peer
  pub acceptance : Acceptance

pub record Broadcast (MessageId Peer Topic : Type 0) : Type 0 where
  pub id : MessageId
  pub src : Peer
  pub topic : Topic
  pub content : BroadcastData

module _ {MessageId Peer Topic : Type 0} where
  abbrev report : Acceptance → Broadcast MessageId Peer Topic → Report MessageId Peer
  report acceptance msg = record {
    msg_id = msg.id;
    propagation_source = msg.src;
    acceptance = acceptance;
  }

  abbrev pub accept : Broadcast MessageId Peer Topic → Report MessageId Peer
  accept msg = report accepted msg

  abbrev pub ignore : Broadcast MessageId Peer Topic → Report MessageId Peer
  ignore msg = report ignored msg

  abbrev pub reject : Broadcast MessageId Peer Topic → Report MessageId Peer
  reject msg = report rejected msg

-- `proto::Broadcast`
pub record BroadcastMessage : Type 0 where
  pub vertex_message : Option VertexMessage

-- `BroadcastData::to_protobuf`
unfoldable pub to_protobuf : BroadcastData → Bool → Result BroadcastError BroadcastMessage
to_protobuf (vertex vx) check = do
  p ← map_err vertex_error (vertex_proto.to_protobuf vx check)
  ok (record { vertex_message = some p })

-- `BroadcastData::from_protobuf` at the instant `now`.
unfoldable pub from_protobuf : ℕ → BroadcastMessage → Bool → Result BroadcastError BroadcastData
from_protobuf now broadcast check = do
  p ← ok_or broadcast.vertex_message empty_broadcast
  vx ← map_err vertex_error (vertex_proto.from_protobuf now p check)
  ok (vertex vx)

abbrev pub broadcast_format : ℕ → WireFormat BroadcastData BroadcastMessage BroadcastError
broadcast_format now = record { to_protobuf = to_protobuf; from_protobuf = from_protobuf now }
