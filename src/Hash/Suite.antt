-- ===== src/Hash/Suite.antt =====
-- The test of the hex form of hashes in src/wire/mod.rs, as a function that returns whether its
-- assertions hold. The encoder is lower-case hex, two digits for each byte.
use libtaurus.Prelude.{
  ℕ, ◌+◌, ◌-◌, ◌/◌, ◌%◌, ◌≡◌, refl, Bool, true, ◌&&◌, List, [], ◌∷◌, ◌++◌, ℕ-Key, ℕ_discrete,
  flat_map, if◌then◌else◌, ltb, replicate, same_list,
}
use libtaurus.Hash.{with_bytes}
use libtaurus.Hash.Hex.{to_hex, to_short_hex}

abbrev digit : ℕ → ℕ
digit n = if ltb n 10 then b'0' + n else b'a' + (n - 10)

abbrev lower_hex : List ℕ → List ℕ
lower_hex bytes = flat_map (λ n. digit (n / 16) ∷ digit (n % 16) ∷ []) bytes

-- The assertions on one hash.
abbrev is_case : List ℕ → List ℕ → List ℕ → Bool
is_case decoded long_hex short_hex =
    same_list (to_hex lower_hex (with_bytes decoded)) long_hex
    && same_list (to_short_hex lower_hex (with_bytes decoded)) short_hex

abbrev dots : List ℕ
dots = b'.' ∷ b'.' ∷ []

-- `corner_cases`
abbrev test_corner_cases : Bool
test_corner_cases =
    is_case (replicate 32 0) (replicate 64 b'0') (replicate 8 b'0' ++ dots)
    && is_case (128 ∷ replicate 31 0) (b'8' ∷ replicate 63 b'0') (b'8' ∷ replicate 7 b'0' ++ dots)
    && is_case (replicate 31 0 ++ 1 ∷ []) (replicate 63 b'0' ++ b'1' ∷ [])
        (replicate 8 b'0' ++ dots)
    && is_case (replicate 32 255) (replicate 64 b'f') (replicate 8 b'f' ++ dots)
    && is_case (127 ∷ replicate 31 255) (b'7' ∷ replicate 63 b'f') (b'7' ∷ replicate 7 b'f' ++ dots)
    && is_case (replicate 31 255 ++ 254 ∷ []) (replicate 63 b'f' ++ b'e' ∷ [])
        (replicate 8 b'f' ++ dots)

test_corner_cases_passes : test_corner_cases ≡ true
unfolding to_hex to_short_hex flat_map ℕ_discrete
test_corner_cases_passes = refl
