-- ===== src/Sequencer/Loop.antt =====
-- src/sequencer/mod.rs: the sequencer and its loop. The replies of the RPC server, and the clock, are
-- given for each tick of the timer; the timer and the client are libraries.
use libtaurus.Prelude.{ℕ, ◌≡◌, refl, List, [], ◌∷◌, map, Result, ok, err, panic, ◌>>=◌}
use libtaurus.Hash.{Hash}
use libtaurus.Vertex.{Vertex, VertexError}
use libtaurus.Consensus.Api.{VertexMeta, meta_of}
use libtaurus.Sequencer.{propose}

pub record Config (Url : Type 0) : Type 0 where
  pub rpc_url : Url
  pub delay_millis : ℕ

pub record Sequencer (Url : Type 0) : Type 0 where
  pub config : Config Url

-- `Sequencer::new`
abbrev pub new : {Url E : Type 0} → Config Url → Result E (Sequencer Url)
new config = ok (record { config = config })

-- What the RPC server replies during a tick.
pub record Replies (E : Type 0) : Type 0 where
  pub now : ℕ
  pub get_frontier_meta : Result E (List VertexMeta)
  pub submit_vertex : Vertex → Result E (List Hash)

module _ {E : Type 0} where
  -- A proposal has no error of its own.
  abbrev pub built : Result VertexError Vertex → Result E Vertex
  built (ok vx) = ok vx
  built (err e) = panic
  built panic = panic

  -- One tick of the timer: the vertex that is submitted.
  unfoldable pub tick : Replies E → Result E Vertex
  tick replies = do
    frontier_meta ← replies.get_frontier_meta
    proposal ← built (propose replies.now frontier_meta)
    _ ← replies.submit_vertex proposal
    ok proposal

  -- `run`, over the ticks: the vertices that are submitted, and how the loop ends, if it does.
  unfoldable pub run : List (Replies E) → List Vertex × Result E (Unit {0})
  run [] = ([], ok tt)
  run (replies ∷ ticks) = step (tick replies) (run ticks)
    where
      step : Result E Vertex → List Vertex × Result E (Unit {0}) → List Vertex × Result E (Unit {0})
      step (ok vx) (submitted, end) = (vx ∷ submitted, end)
      step (err e) rest = ([], err e)
      step panic rest = ([], panic)

  -- A tick on a frontier that has a proposal submits it.
  tick-proposal :
      (hash : Vertex → Hash) (replies : Replies E) (vs : List Vertex) (hs : List Hash) {u : Vertex}
      → replies.get_frontier_meta ≡ ok (map (meta_of hash) vs)
      → propose replies.now (map (meta_of hash) vs) ≡ ok u
      → replies.submit_vertex u ≡ ok hs
      → tick replies ≡ ok u
  unfolding tick
  tick-proposal hash replies vs hs e p q = rw (e, p, q) refl
