-- ===== src/Vertex/Checks.antt =====
-- What the checks of a vertex accept.
use libtaurus.Prelude.{◌≡◌, true, [], ◌≢◌, ◌↔◌, ok, arith, unique_iff, distinct}
use libtaurus.Hash.{Hash-Key}
use libtaurus.Vertex.{Vertex, version, sanity_checks}

-- A vertex passes exactly if it has the current version and at least one parent, none twice.
pub sanity_checks_iff :
    (vx : Vertex)
    → (sanity_checks vx ≡ ok tt)
      ↔ ((vx.version ≡ version) × (vx.parents ≢ []) × (distinct vx.parents ≡ true))
unfolding sanity_checks
sanity_checks_iff vx = ground (arith, unique_iff vx.parents)
