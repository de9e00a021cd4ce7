-- ===== src/UnitTests/Ioctl.antt =====
-- The unit tests of crates/wdk-safe/src/ioctl.rs.
use wdk_safe.Base.{refl, ℕ, not, List, [], ◌∷◌, ◌==◌, same_name}
use wdk_safe.Base.Hex.{codes, format_hex}
use wdk_safe.Machine.{Cmd, ◌>>◌}
use wdk_safe.Ioctl.{
  buffered, in_direct, out_direct, neither, any, read, write, read_write, IoControlCode, new,
  from_raw, into_raw, device_type, function, method, access, method_of_bits, access_of_bits,
  is_microsoft_device_type, is_vendor_device_type, is_vendor_function,
}
use wdk_safe.Ioctl.Format.{debug, display, method_name, access_name}
use wdk_safe.UnitTests.Harness.{assert, each, contains, same_method, same_access, AllPass}

abbrev test_code : IoControlCode
test_code = new 0x8000 0x800 buffered any

abbrev device_type_roundtrip : Cmd (Unit {0})
device_type_roundtrip = assert (device_type test_code == 0x8000)

abbrev function_roundtrip : Cmd (Unit {0})
function_roundtrip = assert (function test_code == 0x800)

abbrev method_is_buffered : Cmd (Unit {0})
method_is_buffered = assert (same_method (method test_code) buffered)

abbrev access_is_any : Cmd (Unit {0})
access_is_any = assert (same_access (access test_code) any)

abbrev raw_value_deterministic : Cmd (Unit {0})
raw_value_deterministic = assert (into_raw test_code == 0x8000_2000)

abbrev from_raw_roundtrip : Cmd (Unit {0})
from_raw_roundtrip = do let raw : ℕ = 0x8000_2000; assert (into_raw (from_raw raw) == raw)

abbrev const_context : Cmd (Unit {0})
const_context = do
  let c = new 0x0001 0x900 neither read_write
  assert (device_type c == 0x0001)
  assert (function c == 0x900)

abbrev all_methods_roundtrip : Cmd (Unit {0})
all_methods_roundtrip =
    each (buffered ∷ in_direct ∷ out_direct ∷ neither ∷ [])
      (λ m. assert (same_method (method (new 0x8000 0x800 m any)) m))

abbrev all_access_roundtrip : Cmd (Unit {0})
all_access_roundtrip =
    each (any ∷ read ∷ write ∷ read_write ∷ [])
      (λ a. assert (same_access (access (new 0x8000 0x800 buffered a)) a))

abbrev read_write_raw_value : Cmd (Unit {0})
read_write_raw_value = do
  let code = new 0x8000 0x800 buffered read_write
  assert (into_raw code == 0x8000_E000)

abbrev vendor_device_type_detected : Cmd (Unit {0})
vendor_device_type_detected = do
  assert (is_vendor_device_type test_code)
  assert (not (is_microsoft_device_type test_code))

abbrev microsoft_device_type_detected : Cmd (Unit {0})
microsoft_device_type_detected = do
  let ms = new 0x0022 0x800 buffered any
  assert (is_microsoft_device_type ms)
  assert (not (is_vendor_device_type ms))

abbrev vendor_function_detected : Cmd (Unit {0})
vendor_function_detected = assert (is_vendor_function test_code)

abbrev microsoft_function_detected : Cmd (Unit {0})
microsoft_function_detected = do
  let ms_fn = new 0x8000 0x100 buffered any
  assert (not (is_vendor_function ms_fn))

abbrev different_functions_do_not_collide : Cmd (Unit {0})
different_functions_do_not_collide = do
  let a = new 0x8000 0x800 buffered any
  let b = new 0x8000 0x801 buffered any
  assert (not (into_raw a == into_raw b))

abbrev different_device_types_do_not_collide : Cmd (Unit {0})
different_device_types_do_not_collide = do
  let a = new 0x8000 0x800 buffered any
  let b = new 0x0022 0x800 buffered any
  assert (not (into_raw a == into_raw b))

abbrev debug_contains_raw_hex : Cmd (Unit {0})
debug_contains_raw_hex = do let s = debug test_code; assert (contains s (codes "0x80002000"))

abbrev display_is_hex : Cmd (Unit {0})
display_is_hex = assert (same_name (display test_code) (codes "0x80002000"))

abbrev copy_semantics : Cmd (Unit {0})
copy_semantics = do let a = test_code; let b = a; assert (a.value == b.value)

abbrev equal_codes_compare_equal : Cmd (Unit {0})
equal_codes_compare_equal = do
  let a = new 0x8000 0x800 buffered any
  let b = new 0x8000 0x800 buffered any
  assert (a.value == b.value)

abbrev tests : List (Cmd (Unit {0}))
tests =
    device_type_roundtrip ∷ function_roundtrip ∷ method_is_buffered ∷ access_is_any
    ∷ raw_value_deterministic ∷ from_raw_roundtrip ∷ const_context ∷ all_methods_roundtrip
    ∷ all_access_roundtrip ∷ read_write_raw_value ∷ vendor_device_type_detected
    ∷ microsoft_device_type_detected ∷ vendor_function_detected ∷ microsoft_function_detected
    ∷ different_functions_do_not_collide ∷ different_device_types_do_not_collide
    ∷ debug_contains_raw_hex ∷ display_is_hex ∷ copy_semantics ∷ equal_codes_compare_equal ∷ []

tests-AllPass_ioctl : AllPass tests
unfolding new device_type function method access method_of_bits access_of_bits
    is_microsoft_device_type is_vendor_device_type is_vendor_function debug display method_name
    access_name format_hex
tests-AllPass_ioctl = λ w. (refl, refl)
