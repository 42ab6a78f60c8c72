-- ===== src/Dag/Levels.antt =====
-- How many vertices of a graph stand at most, or at least, so high: measures that fall along the parents,
-- and along the children.
use libtaurus.Prelude.{ℕ, ◌+◌, ◌≤◌, ◌<◌, ◌≡◌, some, [], ◌∷◌, arith, ◌≟◌, if◌then◌else◌, leb, length}
use libtaurus.Map.{Map, get}
use libtaurus.Hash.{Hash, Hash-Key}
use libtaurus.Vertex.{Vertex}

abbrev pub upto : ℕ → Map Hash Vertex → ℕ
upto b [] = 0
upto b ((k, v) ∷ m) = (if leb v.height b then 1 else 0) + upto b m

pub upto-le-length : (b : ℕ) (m : Map Hash Vertex) → upto b m ≤ length m
upto-le-length b [] = omega arith
upto-le-length b ((k, v) ∷ m) = ground (arith, upto-le-length b m)

pub upto_mono : (a b : ℕ) (m : Map Hash Vertex) → a ≤ b → upto a m ≤ upto b m
upto_mono a b [] h = omega arith
upto_mono a b ((k, v) ∷ m) h = ground (arith, upto_mono a b m h)

-- The vertex itself counts at its own height, and not below.
pub upto-lt :
    (m : Map Hash Vertex) (h : Hash) (v : Vertex) (a : ℕ)
    → get m h ≡ some v
    → a < v.height
    → upto a m < upto v.height m
unfolding get
upto-lt [] h v a e l = cc
upto-lt ((k, w) ∷ m) h v a e l = elim (k ≟ h) [
  | yes q ↦ ground (arith, upto_mono a v.height m, e, q)
  | no q ↦ ground (arith, upto-lt m h v a, e, q)
]

pub upto-pos :
    (m : Map Hash Vertex) (h : Hash) (v : Vertex) → get m h ≡ some v → 0 < upto v.height m
unfolding get
upto-pos [] h v e = cc
upto-pos ((k, w) ∷ m) h v e = elim (k ≟ h) [
  | yes q ↦ ground (arith, e, q)
  | no q ↦ ground (arith, upto-pos m h v, e, q)
]

abbrev pub from : ℕ → Map Hash Vertex → ℕ
from b [] = 0
from b ((k, v) ∷ m) = (if leb b v.height then 1 else 0) + from b m

pub from-le-length : (b : ℕ) (m : Map Hash Vertex) → from b m ≤ length m
from-le-length b [] = omega arith
from-le-length b ((k, v) ∷ m) = ground (arith, from-le-length b m)

pub from_mono : (a b : ℕ) (m : Map Hash Vertex) → a ≤ b → from b m ≤ from a m
from_mono a b [] h = omega arith
from_mono a b ((k, v) ∷ m) h = ground (arith, from_mono a b m h)

pub from-lt :
    (m : Map Hash Vertex) (h : Hash) (v : Vertex) (b : ℕ)
    → get m h ≡ some v
    → v.height < b
    → from b m < from v.height m
unfolding get
from-lt [] h v b e l = cc
from-lt ((k, w) ∷ m) h v b e l = elim (k ≟ h) [
  | yes q ↦ ground (arith, from_mono v.height b m, e, q)
  | no q ↦ ground (arith, from-lt m h v b, e, q)
]

pub from-pos :
    (m : Map Hash Vertex) (h : Hash) (v : Vertex) → get m h ≡ some v → 0 < from v.height m
unfolding get
from-pos [] h v e = cc
from-pos ((k, w) ∷ m) h v e = elim (k ≟ h) [
  | yes q ↦ ground (arith, e, q)
  | no q ↦ ground (arith, from-pos m h v, e, q)
]
