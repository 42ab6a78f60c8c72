-- ===== src/Examples.antt =====
-- Messages, vertices and constraints at concrete inputs.
mod Gossip
mod Tasks
mod Node
mod Serving
use libtaurus.Prelude.{
  ℕ, zero, suc, ◌+◌, ◌*◌, ◌^◌, ◌≤◌, ◌<◌, ◌≡◌, ◌≢◌, refl, ◌⊎◌, ◌↔◌, Bool, true, false, Option, none,
  some, List, [], ◌∷◌, ◌++◌, map, reverse, arith, Key, ℕ-Key, ℕ_discrete, distinct, length,
  contains, replicate, unique, insert_all, insert, Result, ok, err, panic, try_map, is_empty,
  maximum,
}
use libtaurus.Map
use libtaurus.Hash
use libtaurus.Hash.{Hash, Hash-Key, Hash-discrete, IsHash, with_bytes}
use libtaurus.Hash.Protobuf as hash_proto
use libtaurus.Constraint.{Constraint, conflict_set_key, conflict, unity, collect, rounds}
use libtaurus.Constraint as constraint
use libtaurus.Constraint.Keys.{conflict_set_key_iff}
use libtaurus.Constraint.Pairs.{collect-pairs, pairs, unities}
use libtaurus.Vertex.{Vertex, sanity_checks, version, with_parents, empty}
use libtaurus.Vertex.Checks.{sanity_checks_iff}
use libtaurus.Vertex.Protobuf.{VertexMessage}
use libtaurus.Vertex.Protobuf as vertex_proto
use libtaurus.Vertex.Roundtrip as roundtrip
use libtaurus.Vertex.Roundtrip.{IsSized}
use libtaurus.Dag.{default_config}
use libtaurus.Dag.Tests as dag_tests
use libtaurus.P2p.Request as request
use libtaurus.P2p.Messages.{
  request-from_protobuf-to_protobuf, response-from_protobuf-to_protobuf,
  broadcast-from_protobuf-to_protobuf,
}
use libtaurus.P2p.Broadcast as broadcast
use libtaurus.P2p.Listener.{start_listener, start_listener-finds, IsFirst, NoneBinds, u16_max}
use libtaurus.Consensus.Pollster.{Pollster, recorded, waiting, run}
use libtaurus.Consensus.Poll.{for, against, run-waiting, run-recorded, run-ends}
use libtaurus.Fetcher as fetcher
use libtaurus.Fetcher.Requests.{task_fn-once}
use libtaurus.Util.{human_readable, human_readable-ends, prefixes}
use libtaurus.Sequencer.{propose}
use libtaurus.Sequencer.Proposal.{propose-with_parents}
use libtaurus.Consensus.Api.{meta_of, ApiError}

abbrev zeros : Hash
zeros = Hash.default

abbrev ones : Hash
ones = with_bytes (replicate 32 1)

abbrev twos : Hash
twos = with_bytes (replicate 32 2)

abbrev vx : Vertex
vx = record {
  version = 1;
  height = 7;
  parents = ones ∷ twos ∷ [];
  namespace_id = zeros;
  root = zeros;
  timestamp = 3;
}

vx-IsSized : IsSized vx
vx-IsSized = record { parents = (refl, (refl, tt)); namespace_id = refl; root = refl }

abbrev message_of : Hash → hash_proto.HashMessage
message_of h = record { hash = h.bytes }

abbrev vx_message : VertexMessage
vx_message = record {
  version = 1;
  height = 7;
  parents = message_of ones ∷ message_of twos ∷ [];
  namespace_id = some (message_of zeros);
  root = some (message_of zeros);
}

vx_written : vertex_proto.to_protobuf vx true ≡ ok vx_message
unfolding vertex_proto.to_protobuf hash_proto.to_protobuf sanity_checks try_map insert_all insert
    Hash-discrete ℕ_discrete
vx_written = refl

from_protobuf-to_protobuf_example :
    vertex_proto.from_protobuf 9 vx_message true ≡ ok (record vx { timestamp = 9 })
from_protobuf-to_protobuf_example =
    roundtrip.from_protobuf-to_protobuf vx true 9 vx_message vx-IsSized vx_written

vx_read : vertex_proto.from_protobuf 9 vx_message true ≡ ok (record vx { timestamp = 9 })
unfolding vertex_proto.from_protobuf hash_proto.from_protobuf sanity_checks try_map insert_all
    insert Hash-discrete ℕ_discrete
vx_read = refl

to_protobuf-from_protobuf_example :
    IsSized (record vx { timestamp = 9 })
    × (◌≡◌ {A = ℕ} 9 9)
    × (vertex_proto.to_protobuf (record vx { timestamp = 9 }) true ≡ ok vx_message)
to_protobuf-from_protobuf_example =
    roundtrip.to_protobuf-from_protobuf vx_message true 9 (record vx { timestamp = 9 }) vx_read

request-from_protobuf-to_protobuf_example :
    request.request-from_protobuf
      (record { request_data = some (request.get_vertex_data (message_of ones)) })
      true
    ≡ ok (request.get_vertex ones)
unfolding request.request-to_protobuf hash_proto.to_protobuf
request-from_protobuf-to_protobuf_example =
    request-from_protobuf-to_protobuf (request.get_vertex ones)
      (record { request_data = some (request.get_vertex_data (message_of ones)) }) true refl refl

response-from_protobuf-to_protobuf_example :
    request.response-from_protobuf 9
      (record { response_data = some (request.vertex_data vx_message) })
      true
    ≡ ok (request.vertex (record vx { timestamp = 9 }))
unfolding request.response-to_protobuf vertex_proto.to_protobuf hash_proto.to_protobuf sanity_checks
    try_map insert_all insert Hash-discrete ℕ_discrete
response-from_protobuf-to_protobuf_example =
    response-from_protobuf-to_protobuf (request.vertex vx)
      (record { response_data = some (request.vertex_data vx_message) }) true 9 vx-IsSized refl

broadcast-from_protobuf-to_protobuf_example :
    broadcast.from_protobuf 9 (record { vertex_message = some vx_message }) true
    ≡ ok (broadcast.vertex (record vx { timestamp = 9 }))
unfolding broadcast.to_protobuf vertex_proto.to_protobuf hash_proto.to_protobuf sanity_checks
    try_map insert_all insert Hash-discrete ℕ_discrete
broadcast-from_protobuf-to_protobuf_example =
    broadcast-from_protobuf-to_protobuf vx (record { vertex_message = some vx_message }) true 9
      vx-IsSized refl

sanity_checks_iff_example :
    (sanity_checks vx ≡ ok tt)
    ↔ ((vx.version ≡ version) × (vx.parents ≢ []) × (distinct vx.parents ≡ true))
sanity_checks_iff_example = sanity_checks_iff vx

abbrev one_two : Constraint
one_two = record { left = ones; right = twos }

abbrev two_one : Constraint
two_one = record { left = twos; right = ones }

conflict_set_key_iff_example :
    (conflict_set_key one_two ≡ conflict_set_key two_one)
    ↔ ((one_two ≡ two_one) ⊎ (conflict one_two ≡ some two_one))
conflict_set_key_iff_example = conflict_set_key_iff one_two two_one

collect-pairs_example :
    collect (rounds (zeros ∷ ones ∷ twos ∷ [])) (constraint.new (zeros ∷ ones ∷ twos ∷ []))
    ≡ some (pairs (zeros ∷ ones ∷ twos ∷ []) ++ unities (zeros ∷ ones ∷ twos ∷ []))
collect-pairs_example = collect-pairs (zeros ∷ ones ∷ twos ∷ [])
