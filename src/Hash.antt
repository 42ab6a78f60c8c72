-- ===== src/Hash.antt =====
-- src/hash.rs: the 32-byte hash and its order.
pub mod Hex
mod Suite
pub mod Order
pub mod Protobuf
use libtaurus.Prelude.{
  ℕ, ◌≡◌, refl, ap, Bool, true, false, List, [], ◌∷◌, Key, ltb, if◌then◌else◌, ite, ℕ_discrete,
  replicate, length, ◌==◌, ℕ-Key, ◌&&◌, ◌||◌,
}

-- `hash::Error`, without the errors that only the protobuf codec makes.
pub data HashError : Type 0 where
  try_from_slice : HashError

-- `Hash([u8; HASH_LEN])`.
pub record Hash : Type 0 where
  pub bytes : List ℕ

bytes_discrete : Discrete (List ℕ)
bytes_discrete [] [] = yes refl
bytes_discrete [] (y ∷ ys) = no (λ e. cc)
bytes_discrete (x ∷ xs) [] = no (λ e. cc)
bytes_discrete (x ∷ xs) (y ∷ ys) = both (ℕ_discrete x y) (bytes_discrete xs ys)
  where
    both : Dec (x ≡ y) → Dec (xs ≡ ys) → Dec (x ∷ xs ≡ y ∷ ys)
    both (yes p) (yes q) = yes (λ i. p i ∷ q i)
    both (yes p) (no q) = no (λ e. q (cc))
    both (no p) d = no (λ e. p (cc))

-- The derived `PartialEq`.
unfoldable pub Hash-discrete : Discrete Hash
unfolding bytes_discrete ℕ_discrete
Hash-discrete a b = elim (bytes_discrete a.bytes b.bytes) [
  | yes p ↦ yes (λ i. record { bytes = p i })
  | no q ↦ no (λ e. q (ap (λ h. h.bytes) e))
]

instance abbrev pub Hash-Key : Key Hash
Hash-Key = record { dec = Hash-discrete }

-- The derived `PartialOrd` compares the arrays byte by byte, the first difference deciding.
unfoldable pub bytes_lt : List ℕ → List ℕ → Bool
bytes_lt [] [] = false
bytes_lt [] (y ∷ ys) = true
bytes_lt (x ∷ xs) [] = false
bytes_lt (x ∷ xs) (y ∷ ys) = ltb x y || ((x == y) && bytes_lt xs ys)

unfoldable pub hash_lt : Hash → Hash → Bool
unfolding bytes_lt
hash_lt a b = bytes_lt a.bytes b.bytes

abbrev pub hash_len : ℕ
hash_len = 32

abbrev pub with_bytes : List ℕ → Hash
with_bytes bytes = record { bytes = bytes }

-- `Default for Hash`
abbrev pub default : Hash
default = with_bytes (replicate hash_len 0)

-- What the type `[u8; 32]` says of the bytes.
abbrev pub IsHash : Hash → Type 0
IsHash h = length h.bytes ≡ hash_len

test_lt : hash_lt (with_bytes (1 ∷ 2 ∷ [])) (with_bytes (1 ∷ 3 ∷ [])) ≡ true
unfolding hash_lt Hash-discrete
test_lt = refl

test_eq : (with_bytes (1 ∷ 2 ∷ []) == with_bytes (1 ∷ 2 ∷ [])) ≡ true
unfolding Hash-discrete
test_eq = refl
