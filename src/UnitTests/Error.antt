-- ===== src/UnitTests/Error.antt =====
-- The unit tests of crates/wdk-safe/src/error.rs. That of the hash is left out: the hasher is the
-- standard library's.
use wdk_safe.Base.{refl, pos, eq_ℤ, as_i32, as_u32, not, List, [], ◌∷◌, same_name}
use wdk_safe.Base.Hex.{codes, format_hex}
use wdk_safe.Machine.{Cmd, ◌>>◌}
use wdk_safe.Status.{
  from_raw, into_raw, Severity, is_success, is_informational, is_warning, is_error, severity,
}
use wdk_safe.Status.Codes
use wdk_safe.Status.Format.{debug, display}
use wdk_safe.UnitTests.Harness.{assert, each, contains, same_status, same_severity, AllPass}

abbrev success_is_success : Cmd (Unit {0})
success_is_success = assert (is_success Codes.success)

abbrev success_is_not_error : Cmd (Unit {0})
success_is_not_error = assert (not (is_error Codes.success))

abbrev success_is_not_warning : Cmd (Unit {0})
success_is_not_warning = assert (not (is_warning Codes.success))

abbrev success_is_not_informational : Cmd (Unit {0})
success_is_not_informational = assert (not (is_informational Codes.success))

abbrev success_severity_is_success : Cmd (Unit {0})
success_severity_is_success = assert (same_severity (severity Codes.success) Severity.success)

abbrev pending_is_success : Cmd (Unit {0})
pending_is_success = assert (is_success Codes.pending)

abbrev pending_is_not_error : Cmd (Unit {0})
pending_is_not_error = assert (not (is_error Codes.pending))

abbrev pending_severity_is_success : Cmd (Unit {0})
pending_severity_is_success = assert (same_severity (severity Codes.pending) Severity.success)

abbrev buffer_overflow_is_warning : Cmd (Unit {0})
buffer_overflow_is_warning = do
  assert (is_warning Codes.buffer_overflow)
  assert (not (is_success Codes.buffer_overflow))
  assert (not (is_error Codes.buffer_overflow))

abbrev warning_severity_detected_by_raw : Cmd (Unit {0})
warning_severity_detected_by_raw = do
  let seen = from_raw (as_i32 0x8000_0005)
  assert (is_warning seen)
  assert (not (is_error seen))
  assert (not (is_success seen))
  assert (same_severity (severity seen) Severity.warning)

abbrev informational_severity_detected : Cmd (Unit {0})
informational_severity_detected = do
  let info = from_raw (as_i32 0x4000_0000)
  assert (is_informational info)
  assert (not (is_error info))
  assert (not (is_warning info))
  assert (is_success info)
  assert (same_severity (severity info) Severity.informational)

abbrev unsuccessful_is_error : Cmd (Unit {0})
unsuccessful_is_error = do
  assert (is_error Codes.unsuccessful)
  assert (not (is_success Codes.unsuccessful))

abbrev not_supported_is_error : Cmd (Unit {0})
not_supported_is_error = assert (is_error Codes.not_supported)

abbrev not_implemented_is_error : Cmd (Unit {0})
not_implemented_is_error = assert (is_error Codes.not_implemented)

abbrev invalid_parameter_is_error : Cmd (Unit {0})
invalid_parameter_is_error = assert (is_error Codes.invalid_parameter)

abbrev buffer_too_small_is_error : Cmd (Unit {0})
buffer_too_small_is_error = do
  assert (is_error Codes.buffer_too_small)
  assert (not (same_status Codes.buffer_too_small Codes.buffer_overflow))

abbrev access_denied_is_error : Cmd (Unit {0})
access_denied_is_error = assert (is_error Codes.access_denied)

abbrev insufficient_resources_is_error : Cmd (Unit {0})
insufficient_resources_is_error = assert (is_error Codes.insufficient_resources)

abbrev device_not_ready_is_error : Cmd (Unit {0})
device_not_ready_is_error = assert (is_error Codes.device_not_ready)

abbrev invalid_device_request_is_error : Cmd (Unit {0})
invalid_device_request_is_error = assert (is_error Codes.invalid_device_request)

abbrev delete_pending_is_error : Cmd (Unit {0})
delete_pending_is_error = assert (is_error Codes.delete_pending)

abbrev no_memory_is_error : Cmd (Unit {0})
no_memory_is_error = assert (is_error Codes.no_memory)

abbrev object_name_not_found_is_error : Cmd (Unit {0})
object_name_not_found_is_error = assert (is_error Codes.object_name_not_found)

abbrev error_codes_have_error_severity : Cmd (Unit {0})
error_codes_have_error_severity =
    each
      (Codes.unsuccessful ∷ Codes.not_supported ∷ Codes.invalid_parameter ∷ Codes.access_denied
        ∷ [])
      (λ status. assert (same_severity (severity status) Severity.error))

abbrev raw_roundtrip_success : Cmd (Unit {0})
raw_roundtrip_success = assert (eq_ℤ (into_raw (from_raw (pos 0))) (pos 0))

abbrev raw_roundtrip_error : Cmd (Unit {0})
raw_roundtrip_error = do let raw = as_i32 0xC000_0001; assert (eq_ℤ (into_raw (from_raw raw)) raw)

abbrev raw_roundtrip_arbitrary : Cmd (Unit {0})
raw_roundtrip_arbitrary =
    each (0 ∷ 0x4000_0000 ∷ 0x8000_0005 ∷ 0xC000_0001 ∷ 0xFFFF_FFFF ∷ [])
      (λ raw_u32. assert (eq_ℤ (into_raw (from_raw (as_i32 raw_u32))) (as_i32 raw_u32)))

abbrev debug_format_success : Cmd (Unit {0})
debug_format_success = do
  let s = debug Codes.success
  assert (contains s (codes "0x00000000"))
  assert (contains s (codes "Success"))

abbrev debug_format_error : Cmd (Unit {0})
debug_format_error = do
  let s = debug Codes.unsuccessful
  assert (contains s (codes "0xC0000001"))
  assert (contains s (codes "Error"))

abbrev display_format_is_hex : Cmd (Unit {0})
display_format_is_hex = do
  assert (same_name (display Codes.success) (codes "0x00000000"))
  let err = from_raw (as_i32 0xC000_0001)
  assert (same_name (display err) (codes "0xC0000001"))

abbrev equality_same_value : Cmd (Unit {0})
equality_same_value = assert (same_status Codes.success (from_raw (pos 0)))

abbrev inequality_different_values : Cmd (Unit {0})
inequality_different_values = assert (not (same_status Codes.success Codes.unsuccessful))

abbrev copy_semantics : Cmd (Unit {0})
copy_semantics = do let a = Codes.success; let b = a; assert (same_status a b)

abbrev tests : List (Cmd (Unit {0}))
tests =
    success_is_success ∷ success_is_not_error ∷ success_is_not_warning
    ∷ success_is_not_informational ∷ success_severity_is_success ∷ pending_is_success
    ∷ pending_is_not_error ∷ pending_severity_is_success ∷ buffer_overflow_is_warning
    ∷ warning_severity_detected_by_raw ∷ informational_severity_detected ∷ unsuccessful_is_error
    ∷ not_supported_is_error ∷ not_implemented_is_error ∷ invalid_parameter_is_error
    ∷ buffer_too_small_is_error ∷ access_denied_is_error ∷ insufficient_resources_is_error
    ∷ device_not_ready_is_error ∷ invalid_device_request_is_error ∷ delete_pending_is_error
    ∷ no_memory_is_error ∷ object_name_not_found_is_error ∷ error_codes_have_error_severity
    ∷ raw_roundtrip_success ∷ raw_roundtrip_error ∷ raw_roundtrip_arbitrary ∷ debug_format_success
    ∷ debug_format_error ∷ display_format_is_hex ∷ equality_same_value ∷ inequality_different_values
    ∷ copy_semantics ∷ []

tests-AllPass_error : AllPass tests
unfolding as_i32 as_u32 is_success is_informational is_warning is_error severity debug display
    format_hex
tests-AllPass_error = λ w. (refl, refl)
