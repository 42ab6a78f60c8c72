-- ===== src/Rpc/Server.antt =====
-- src/rpc/task.rs: the RPC task and the address that it binds. The server, and whether it can be built on
-- an address, are a library.
use libtaurus.Prelude.{ℕ, ◌≤◌, ◌≡◌, refl, Bool, true, Option, none, some, ◌⊎◌, inl, inr}
use libtaurus.P2p.Listener.{start_listener, start_listener-finds, IsFirst, NoneBinds, u16_max}

pub record Config (Ip : Type 0) : Type 0 where
  pub bind_addr : Ip
  pub bind_port : ℕ
  pub search_port : Bool

pub record Task (Ip : Type 0) : Type 0 where
  pub config : Config Ip
  pub bind_addr : Ip
  pub bind_port : ℕ

module _ {Ip : Type 0} where
  -- `Task::new`, without the handles to the other tasks.
  abbrev pub new : Config Ip → Task Ip
  new config = record {
    config = config;
    bind_addr = config.bind_addr;
    bind_port = config.bind_port;
  }

  -- `address`, before it is written as a text.
  abbrev pub address : Task Ip → Ip × ℕ
  address task = (task.bind_addr, task.bind_port)

  abbrev pub bound_to : Task Ip → Option (Option ℕ) → Option (Option (Task Ip))
  bound_to task none = none
  bound_to task (some none) = some none
  bound_to task (some (some port)) = some (some (record task { bind_port = port }))

  -- The loop at the start of `task_fn`: the task with the port that it has bound, or `none` if it gives
  -- up; `builds` says whether a server can be built on an address.
  unfoldable pub bind : (Ip × ℕ → Bool) → Task Ip → Option (Option (Task Ip))
  unfolding start_listener
  bind builds task = bound_to task (
      start_listener (λ port. builds (task.bind_addr, port)) task.config.search_port task.bind_port)

  -- A new task that searches from a port that a `u16` holds binds the first port that is free on its
  -- address, or gives up when there is none.
  bind-finds :
      (builds : Ip × ℕ → Bool) (config : Config Ip)
      → config.search_port ≡ true
      → config.bind_port ≤ u16_max
      → ((port : ℕ) × (bind builds (new config)
            ≡ some (some (record (new config) { bind_port = port })))
          × IsFirst (λ p. builds (config.bind_addr, p)) config.bind_port port)
        ⊎ ((bind builds (new config) ≡ some none)
            × NoneBinds (λ p. builds (config.bind_addr, p)) config.bind_port)
  unfolding bind
  bind-finds builds config searching fits =
      elim (start_listener-finds (λ p. builds (config.bind_addr, p)) config.bind_port fits) [
        | inl (port, e, first) ↦ inl (port, rw (searching, e) refl, first)
        | inr (e, nobody) ↦ inr (rw (searching, e) refl, nobody)
      ]
