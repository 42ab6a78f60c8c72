-- ===== src/P2p/Listener.antt =====
-- src/p2p/task.rs and src/rpc/task.rs: the search for a free port, by `start_listener` and by the RPC
-- task alike. Whether a port can be bound is a parameter.
use libtaurus.Prelude.{
  ℕ, zero, suc, ◌-◌, ◌≤◌, ◌<◌, ◌≡◌, refl, Bool, true, false, ◌&&◌, Option, none, some, arith,
  if◌then◌else◌, ltb, ◌⊎◌, inl, inr, Bool-cases,
}

-- `u16::MAX`
abbrev pub u16_max : ℕ
u16_max = 65535

module _ (binds : ℕ → Bool) where
  -- The loop, with the rounds that are allowed: the port that is bound, if any. The inner `none` is the
  -- end of the search, the outer one a search that ran out of rounds.
  unfoldable pub search : ℕ → (search_port : Bool) → ℕ → Option (Option ℕ)
  search zero search_port port = none
  search (suc rounds) search_port port =
      let further = search rounds search_port (suc port) in
      if binds port
      then some (some port)
      else if search_port && ltb port u16_max
      then further
      else some none

  -- `start_listener`, and the loop at the start of the RPC task.
  unfoldable pub start_listener : (search_port : Bool) → ℕ → Option (Option ℕ)
  unfolding search
  start_listener search_port port = search (suc (u16_max - port)) search_port port

  -- The first port from `port` on that binds is `found`.
  pub record IsFirst (port found : ℕ) : Type 0 where
    pub from : port ≤ found
    pub bounded : found ≤ u16_max
    pub bound : binds found ≡ true
    pub earlier : (q : ℕ) → port ≤ q → q < found → binds q ≡ false

  -- No port from `port` on binds.
  abbrev pub NoneBinds : ℕ → Type 0
  NoneBinds port = (q : ℕ) → port ≤ q → q ≤ u16_max → binds q ≡ false

  search-finds :
      (rounds port : ℕ)
      → port ≤ u16_max
      → u16_max - port < rounds
      → ((p : ℕ) × (search rounds true port ≡ some (some p)) × IsFirst port p)
        ⊎ ((search rounds true port ≡ some none) × NoneBinds port)
  unfolding search
  search-finds zero port h r = ground arith
  search-finds (suc rounds) port h r = elim (Bool-cases (binds port)) [
    | inl e ↦ inl (
      port,
      rw (e) refl,
      record {
        from = omega arith;
        bounded = h;
        bound = e;
        earlier = λ q a b. absurd (omega (arith, a, b));
      },
    )
    | inr e ↦ elim (Bool-cases (ltb port u16_max)) [
      | inl less ↦
          elim (search-finds rounds (suc port) (ground (arith, less)) (ground (arith, less))) [
            | inl (p, k, first) ↦ inl (
              p,
              rw (e, less) k,
              record {
                from = omega (arith, first.from);
                bounded = first.bounded;
                bound = first.bound;
                earlier = λ q a b. ground (arith, a, b, e, first.earlier q);
              },
            )
            | inr (k, nobody) ↦ inr (rw (e, less) k, λ q a b. ground (arith, a, b, e, nobody q))
          ]
      | inr last ↦ inr (rw (e, last) refl, λ q a b. ground (arith, a, b, e, last))
    ]
  ]

  -- A search from a port that a `u16` holds comes to an end: it binds the first port that is free, or
  -- it fails, and then no port from there up to the largest is free.
  pub start_listener-finds :
      (port : ℕ)
      → port ≤ u16_max
      → ((p : ℕ) × (start_listener true port ≡ some (some p)) × IsFirst port p)
        ⊎ ((start_listener true port ≡ some none) × NoneBinds port)
  unfolding start_listener
  start_listener-finds port h = search-finds (suc (u16_max - port)) port h (omega arith)
