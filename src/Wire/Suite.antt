-- ===== src/Wire/Suite.antt =====
-- The test helpers of src/wire/mod.rs. An assertion that fails panics.
use libtaurus.Prelude.{
  same_list, ℕ, true, Option, none, some, List, Key, ◌==◌, ℕ-Key, if◌then◌else◌, Result, ok, err,
  panic, ◌>>=◌,
}
use libtaurus.Wire.{WireFormat, to_wire, from_wire}

module _ {T P E : Type 0} ⦃values : Key T⦄ (w : WireFormat T P E) (encode : P → Result E (List ℕ))
    (decode : List ℕ → Result E P) where
  abbrev compare_bytes : List ℕ → Result E (List ℕ) → Result E (Option E)
  compare_bytes encoded (ok bytes) = if same_list bytes encoded then ok none else panic
  compare_bytes encoded (err e) = ok (some e)
  compare_bytes encoded panic = panic

  abbrev compare_value : T → Result E T → Result E (Option E)
  compare_value decoded (ok object) = if object == decoded then ok none else panic
  compare_value decoded (err e) = ok (some e)
  compare_value decoded panic = panic

  -- `test_wire_encode`
  abbrev pub test_wire_encode : T → List ℕ → Result E (Option E)
  test_wire_encode decoded encoded = compare_bytes encoded (to_wire w encode decode decoded true)

  -- `test_wire_decode`
  abbrev pub test_wire_decode : T → List ℕ → Result E (Option E)
  test_wire_decode decoded encoded = compare_value decoded (from_wire w encode decode encoded true)

  -- `test_wire_format`
  abbrev pub test_wire_format : T → List ℕ → Result E (Option E × Option E)
  test_wire_format decoded encoded = do
    a ← test_wire_encode decoded encoded
    b ← test_wire_decode decoded encoded
    ok (a, b)
