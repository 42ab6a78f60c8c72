-- ===== src/Constraint/Keys.antt =====
-- Which constraints share a conflict set.
use libtaurus.Prelude.{◌≡◌, some, ◌⊎◌, ◌↔◌, arith}
use libtaurus.Hash.Order.{hash_lt_asymm, hash_lt_total}
use libtaurus.Constraint.{Constraint, conflict_set_key, conflict}

-- Two constraints have the same conflict set key exactly when they are equal or each other's
-- conflict.
pub conflict_set_key_iff :
    (c d : Constraint)
    → (conflict_set_key c ≡ conflict_set_key d) ↔ ((c ≡ d) ⊎ (conflict c ≡ some d))
unfolding conflict_set_key conflict
conflict_set_key_iff c d = ground (
  arith,
  hash_lt_asymm c.left c.right,
  hash_lt_total c.left c.right,
  hash_lt_asymm c.right c.left,
  hash_lt_asymm d.left d.right,
  hash_lt_total d.left d.right,
)

pub conflict_symm : (c d : Constraint) → conflict c ≡ some d → conflict d ≡ some c
unfolding conflict
conflict_symm c d h = ground arith
