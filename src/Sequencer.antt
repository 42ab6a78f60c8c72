-- ===== src/Sequencer.antt =====
-- src/sequencer/mod.rs: the vertex that the sequencer proposes on each tick. The RPC client and the
-- timer are libraries.
pub mod Proposal
pub mod Ticking
mod Loop
use libtaurus.Prelude.{ℕ, List, map, maximum, add64, Result, ok, err, panic, ◌>>=◌, unwrap}
use libtaurus.Vertex.{Vertex, VertexError, empty}
use libtaurus.Consensus.Api.{VertexMeta}

-- The proposal on the frontier, at the instant `now`.
unfoldable pub propose : ℕ → List VertexMeta → Result VertexError Vertex
propose now frontier_meta = do
  let proposal = empty now
  highest ← unwrap (maximum (map (λ (m : VertexMeta). m.height) frontier_meta))
  ok (record proposal {
    height = add64 1 highest;
    parents = map (λ (m : VertexMeta). m.hash) frontier_meta;
  })
