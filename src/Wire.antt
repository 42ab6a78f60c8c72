-- ===== src/Wire.antt =====
-- src/wire/mod.rs: the `WireFormat` trait. The protobuf codec (prost) and the digest (blake3) are
-- parameters.
pub mod Suite
use libtaurus.Prelude.{ℕ, ◌≡◌, Bool, false, List, Result, ok, err, panic, ◌>>=◌, arith}
use libtaurus.Hash.{Hash}

-- What an implementation of the trait provides.
pub record WireFormat (T P E : Type 0) : Type 0 where
  pub to_protobuf : T → Bool → Result E P
  pub from_protobuf : P → Bool → Result E T

-- `expect`
abbrev expect {ℓ} : {E A : Type ℓ} → Result E A → Result E A
expect (ok a) = ok a
expect (err e) = panic
expect panic = panic

module _ {T P E : Type 0} (w : WireFormat T P E) (encode : P → Result E (List ℕ))
    (decode : List ℕ → Result E P) where
  unfoldable pub to_wire : T → Bool → Result E (List ℕ)
  to_wire x check = do protobuf ← w.to_protobuf x check; encode protobuf

  unfoldable pub from_wire : List ℕ → Bool → Result E T
  from_wire bytes check = do protobuf ← decode bytes; w.from_protobuf protobuf check

  unfoldable pub hash : (digest : List ℕ → Hash) → T → Result E Hash
  unfolding to_wire
  hash digest x = do bytes ← expect (to_wire x false); ok (digest bytes)

  -- What the codec documents: a message is decoded from the bytes that it was encoded to.
  abbrev pub CodecRoundtrips : Type 0
  CodecRoundtrips = (p : P) (bytes : List ℕ) → encode p ≡ ok bytes → decode bytes ≡ ok p

  -- A value comes back from the bytes that it was written to as the value that its message decodes to,
  -- if the codec decodes what it encoded.
  pub from_wire-to_wire :
      (x y : T) (check : Bool) (bytes : List ℕ)
      → CodecRoundtrips
      → ((p : P) → w.to_protobuf x check ≡ ok p → w.from_protobuf p check ≡ ok y)
      → to_wire x check ≡ ok bytes
      → from_wire bytes check ≡ ok y
  unfolding to_wire from_wire
  from_wire-to_wire x y check bytes codec proto h = step (w.to_protobuf x check) proto h
    where
      step :
          (r : Result E P)
          → ((p : P) → r ≡ ok p → w.from_protobuf p check ≡ ok y)
          → (r >>= encode) ≡ ok bytes
          → (decode bytes >>= λ p. w.from_protobuf p check) ≡ ok y
      step (ok p) back e = ground (arith, codec p bytes e, back p)
      step (err x) back e = cc
      step panic back e = cc
