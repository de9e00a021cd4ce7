-- ===== src/UnitTests/Device.antt =====
-- The unit tests of crates/wdk-safe/src/device.rs.
use wdk_safe.Base.{refl, ℕ, not, List, [], ◌∷◌, ◌==◌}
use wdk_safe.Machine.{Cmd, ◌>>=◌}
use wdk_safe.Device.{Device, from_raw, as_raw_ptr, is_valid}
use wdk_safe.UnitTests.Harness.{assert, AllPass}

abbrev dummy_device : Cmd Device
dummy_device = from_raw 1

abbrev as_raw_ptr_roundtrip : Cmd (Unit {0})
as_raw_ptr_roundtrip = do
  let ptr : ℕ = 0xDEAD_BEEF
  dev ← from_raw ptr
  assert (as_raw_ptr dev == ptr)

abbrev is_valid_for_non_null : Cmd (Unit {0})
is_valid_for_non_null = do dev ← dummy_device; assert (is_valid dev)

abbrev two_devices_with_same_ptr_return_same_raw : Cmd (Unit {0})
two_devices_with_same_ptr_return_same_raw = do
  let ptr : ℕ = 0xCAFE_BABE
  d1 ← from_raw ptr
  d2 ← from_raw ptr
  assert (as_raw_ptr d1 == as_raw_ptr d2)

abbrev different_ptrs_return_different_raw : Cmd (Unit {0})
different_ptrs_return_different_raw = do
  let p1 : ℕ = 1
  let p2 : ℕ = 2
  d1 ← from_raw p1
  d2 ← from_raw p2
  assert (not (as_raw_ptr d1 == as_raw_ptr d2))

abbrev lifetime_constrains_scope : Cmd (Unit {0})
lifetime_constrains_scope = do let raw : ℕ = 1; dev ← from_raw raw; assert (is_valid dev)

abbrev tests : List (Cmd (Unit {0}))
tests =
    as_raw_ptr_roundtrip ∷ is_valid_for_non_null ∷ two_devices_with_same_ptr_return_same_raw
    ∷ different_ptrs_return_different_raw ∷ lifetime_constrains_scope ∷ []

tests-AllPass_device : AllPass tests
unfolding from_raw
tests-AllPass_device = λ w. (refl, refl)
