-- ===== src/Daemon/Startup.antt =====
-- src/app/taurusd/util.rs: the configurations that the daemon builds from its arguments. Parsing the
-- arguments is a library's; paths, addresses and key pairs are types of libraries.
use libtaurus.Prelude.{ℕ, ◌≡◌, refl, Bool, true, List, arith, Key, Result, ok}
use libtaurus.Hash.{Hash}
use libtaurus.Vertex.{Vertex}
use libtaurus.Dag.{default_config}
use libtaurus.Dag.Frontier.{HasFrontier}
use libtaurus.Consensus.Starting.{start, start-IsBegun, IsBegun, bad_quorum, bad_threshold, running}
use libtaurus.Consensus.Task as task
use libtaurus.Consensus.Task.{Task, TaskError, Event, new_frontier, genesis_vertex}
use libtaurus.Rpc.Server as rpc

-- What `build_rpc_cfg` reads of the arguments.
pub record RpcArgs (Ip : Type 0) : Type 0 where
  pub rpcbind : Ip
  pub rpcport : ℕ
  pub rpcportsearch : Bool

-- `build_rpc_cfg`
abbrev pub build_rpc_cfg : {Ip : Type 0} → RpcArgs Ip → rpc.Config Ip
build_rpc_cfg args = record {
  bind_addr = args.rpcbind;
  bind_port = args.rpcport;
  search_port = args.rpcportsearch;
}

-- `build_consensus_cfg`, without the data directory, which nothing reads.
unfoldable pub build_consensus_cfg : (Vertex → Hash) → task.Config
build_consensus_cfg hash = record task.default {
  dag_config = record default_config { genesis = hash genesis_vertex };
}

-- The configuration that the daemon builds passes every check: its consensus task starts, and announces
-- the frontier of its DAG to whoever listens.
pub build_consensus_cfg-starts :
    {Peer : Type 0} ⦃key : Key Peer⦄ (hash : Vertex → Hash)
    → (t : Task Peer) × (vs : List Vertex) × (start true hash (build_consensus_cfg hash)
        ≡ ok (t, new_frontier vs))
      × HasFrontier hash t.dag vs
unfolding build_consensus_cfg
build_consensus_cfg-starts {Peer} hash =
    only (start true hash (build_consensus_cfg hash))
      (start-IsBegun hash (build_consensus_cfg hash))
  where
    only :
        (r : Result TaskError (Task Peer × Event))
        → IsBegun hash (build_consensus_cfg hash) r
        → (t : Task Peer) × (vs : List Vertex) × (r ≡ ok (t, new_frontier vs))
          × HasFrontier hash t.dag vs
    only r (bad_quorum h) = absurd (omega (arith, h))
    only r (bad_threshold h k) = absurd (omega (arith, k))
    only r (running {t} {vs} h k e shown) = (t, vs, refl, shown)
