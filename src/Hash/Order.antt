-- ===== src/Hash/Order.antt =====
-- The order on hashes is a strict total order.
use libtaurus.Prelude.{ℕ, ◌≡◌, refl, true, false, List, [], ◌∷◌, arith}
use libtaurus.Hash.{Hash, bytes_lt, hash_lt}

bytes_lt_asymm : (xs ys : List ℕ) → bytes_lt xs ys ≡ true → bytes_lt ys xs ≡ false
unfolding bytes_lt
bytes_lt_asymm [] [] h = refl
bytes_lt_asymm [] (y ∷ ys) h = refl
bytes_lt_asymm (x ∷ xs) [] h = cc
bytes_lt_asymm (x ∷ xs) (y ∷ ys) h = ground (arith, bytes_lt_asymm xs ys)

bytes_lt_total : (xs ys : List ℕ) → bytes_lt xs ys ≡ false → bytes_lt ys xs ≡ false → xs ≡ ys
unfolding bytes_lt
bytes_lt_total [] [] h g = refl
bytes_lt_total [] (y ∷ ys) h g = cc
bytes_lt_total (x ∷ xs) [] h g = cc
bytes_lt_total (x ∷ xs) (y ∷ ys) h g = ground (arith, bytes_lt_total xs ys)

pub hash_lt_asymm : (a b : Hash) → hash_lt a b ≡ true → hash_lt b a ≡ false
unfolding hash_lt
hash_lt_asymm a b h = bytes_lt_asymm a.bytes b.bytes h

pub hash_lt_total : (a b : Hash) → hash_lt a b ≡ false → hash_lt b a ≡ false → a ≡ b
unfolding hash_lt
hash_lt_total a b h g = ground (arith, bytes_lt_total a.bytes b.bytes h g)
