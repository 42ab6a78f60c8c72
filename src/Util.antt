-- ===== src/Util.antt =====
-- src/util/mod.rs: the scaling of `human_readable`. The number is the absolute value of an `i64` other
-- than the least, whose negation overflows.
use libtaurus.Prelude.{
  ℕ, zero, suc, ◌+◌, ◌*◌, ◌/◌, ◌^◌, ◌≤◌, ◌<◌, ◌≡◌, refl, Option, none, some, arith, if◌then◌else◌,
  leb, Bool-cases, inl, inr,
}

-- The number of prefixes: none, k, M, G, T and P.
abbrev pub prefixes : ℕ
prefixes = 6

-- The loop, with the rounds that are allowed: the scaled number, and the index of its prefix.
unfoldable pub scale : ℕ → ℕ → ℕ → Option (ℕ × ℕ)
scale zero num pre = none
scale (suc rounds) num pre =
    let further = scale rounds (num / 1000) (pre + 1) in
    if leb 10000 num then further else some (num, pre)

-- `human_readable`, without the text around the number.
unfoldable pub human_readable : ℕ → Option (ℕ × ℕ)
unfolding scale
human_readable num = scale prefixes num 0

-- The numbers that so many divisions bring below 10000.
abbrev limit : ℕ → ℕ
limit zero = 10000
limit (suc n) = 1000 * limit n

scale-ends :
    (rounds bound num pre : ℕ)
    → (bound ≡ limit rounds)
    → num < bound
    → (n : ℕ) × (p : ℕ) × (scale (suc rounds) num pre ≡ some (n, p))
      × (n < 10000)
      × (p ≤ pre + rounds)
unfolding scale
scale-ends zero bound num pre e h =
    (num, pre, ground (arith, e, h), ground (arith, e, h), omega arith)
scale-ends (suc rounds) bound num pre e h = elim (Bool-cases (leb 10000 num)) [
  | inl big ↦
      let (n, p, k, l, m) =
        scale-ends rounds (limit rounds) (num / 1000) (pre + 1) refl (omega (arith, e, h)) in
      (n, p, rw (big) k, l, omega (arith, m))
  | inr small ↦ (num, pre, rw (small) refl, ground (arith, small), omega arith)
]

-- Every absolute value below 2 ^ 63 is scaled to a number below 10000, under a prefix that the table
-- has.
pub human_readable-ends :
    (num : ℕ)
    → num < 2 ^ 63
    → (n : ℕ) × (p : ℕ) × (human_readable num ≡ some (n, p)) × (n < 10000) × (p < prefixes)
unfolding human_readable
human_readable-ends num h =
    let (n, p, e, l, m) = scale-ends 5 (limit 5) num 0 refl (omega (arith, h)) in
    (n, p, e, l, omega (arith, m))
