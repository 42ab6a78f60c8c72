-- ===== src/Rpc.antt =====
-- src/rpc/task.rs: the errors that the RPC server returns. Its search for a port is `P2p.Listener`.
pub mod Handlers
pub mod Server
use libtaurus.Prelude.{ℕ, ◌≡◌, arith}
use libtaurus.Consensus.Api.{ApiError, timer_elapsed}

pub data RpcError : Type 0 where
  unknown busy bad_arg : RpcError

-- `From<consensus::api::Error> for RpcError`
abbrev pub rpc_error_of : ApiError → RpcError
rpc_error_of timer_elapsed = busy
rpc_error_of _ = unknown

-- The code is the negative of this number.
abbrev pub negated_code : RpcError → ℕ
negated_code unknown = 32000
negated_code busy = 32001
negated_code bad_arg = 32002

-- The codes of the JSON RPC errors tell them apart.
pub negated_code-injective : (a b : RpcError) → negated_code a ≡ negated_code b → a ≡ b
negated_code-injective a b h = ground (arith, h)
