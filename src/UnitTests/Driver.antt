-- ===== src/UnitTests/Driver.antt =====
-- The unit tests of crates/wdk-safe/src/driver.rs.
use wdk_safe.Base.{refl, as_i32, as_u32, List, [], ◌∷◌}
use wdk_safe.Machine.{Cmd, ◌>>=◌, ◌>>◌}
use wdk_safe.Status.{is_success, is_error}
use wdk_safe.Status.Codes
use wdk_safe.Device
use wdk_safe.Device.{Device}
use wdk_safe.Irp
use wdk_safe.Irp.Completers.{noop_completer}
use wdk_safe.Request
use wdk_safe.Request.{IoRequest}
use wdk_safe.Driver.{WdmDriver, defaults}
use wdk_safe.UnitTests.Harness.{assert, each, same_status, AllPass}

-- A driver that overrides nothing, and two that override one method.
abbrev default_driver : WdmDriver
default_driver = defaults noop_completer

abbrev echo_driver : WdmDriver
echo_driver = record (defaults noop_completer) {
  on_device_control = λ device request. Request.complete noop_completer request Codes.success;
}

abbrev strict_driver : WdmDriver
strict_driver = record (defaults noop_completer) {
  on_create = λ device request. Request.complete noop_completer request Codes.access_denied;
}

abbrev dev : Cmd Device
dev = Device.from_raw 1

abbrev req : Cmd IoRequest
req = Request.from_raw 1 1

abbrev default_create_is_success : Cmd (Unit {0})
default_create_is_success = do
  device ← dev
  request ← req
  status ← default_driver.on_create device request
  assert (is_success status)

abbrev default_close_is_success : Cmd (Unit {0})
default_close_is_success = do
  device ← dev
  request ← req
  status ← default_driver.on_close device request
  assert (is_success status)

abbrev default_cleanup_is_success : Cmd (Unit {0})
default_cleanup_is_success = do
  device ← dev
  request ← req
  status ← default_driver.on_cleanup device request
  assert (is_success status)

abbrev default_read_is_not_supported : Cmd (Unit {0})
default_read_is_not_supported = do
  device ← dev
  request ← req
  status ← default_driver.on_read device request
  assert (same_status status Codes.not_supported)

abbrev default_write_is_not_supported : Cmd (Unit {0})
default_write_is_not_supported = do
  device ← dev
  request ← req
  status ← default_driver.on_write device request
  assert (same_status status Codes.not_supported)

abbrev default_device_control_is_not_supported : Cmd (Unit {0})
default_device_control_is_not_supported = do
  device ← dev
  request ← req
  status ← default_driver.on_device_control device request
  assert (same_status status Codes.not_supported)

abbrev default_internal_device_control_is_not_supported : Cmd (Unit {0})
default_internal_device_control_is_not_supported = do
  device ← dev
  request ← req
  status ← default_driver.on_internal_device_control device request
  assert (same_status status Codes.not_supported)

abbrev default_power_is_not_supported : Cmd (Unit {0})
default_power_is_not_supported = do
  device ← dev
  request ← req
  status ← default_driver.on_power device request
  assert (same_status status Codes.not_supported)

abbrev default_pnp_is_not_supported : Cmd (Unit {0})
default_pnp_is_not_supported = do
  device ← dev
  request ← req
  status ← default_driver.on_pnp device request
  assert (same_status status Codes.not_supported)

abbrev default_query_information_is_not_supported : Cmd (Unit {0})
default_query_information_is_not_supported = do
  device ← dev
  request ← req
  status ← default_driver.on_query_information device request
  assert (same_status status Codes.not_supported)

abbrev default_set_information_is_not_supported : Cmd (Unit {0})
default_set_information_is_not_supported = do
  device ← dev
  request ← req
  status ← default_driver.on_set_information device request
  assert (same_status status Codes.not_supported)

abbrev custom_override_is_called : Cmd (Unit {0})
custom_override_is_called = do
  device ← dev
  request ← req
  status ← echo_driver.on_device_control device request
  assert (same_status status Codes.success)
  device2 ← dev
  request2 ← req
  status2 ← echo_driver.on_read device2 request2
  assert (same_status status2 Codes.not_supported)

abbrev custom_create_with_different_status : Cmd (Unit {0})
custom_create_with_different_status = do
  device ← dev
  request ← req
  status ← strict_driver.on_create device request
  assert (same_status status Codes.access_denied)

abbrev not_supported_defaults_are_errors : Cmd (Unit {0})
not_supported_defaults_are_errors =
    each
      (default_driver.on_read ∷ default_driver.on_write ∷ default_driver.on_device_control
        ∷ default_driver.on_internal_device_control ∷ default_driver.on_power
        ∷ default_driver.on_pnp ∷ default_driver.on_query_information
        ∷ default_driver.on_set_information ∷ [])
      (λ handler. do
        device ← dev
        request ← req
        status ← handler device request
        assert (is_error status))

abbrev success_defaults_are_successes : Cmd (Unit {0})
success_defaults_are_successes =
    each (default_driver.on_create ∷ default_driver.on_close ∷ default_driver.on_cleanup ∷ [])
      (λ handler. do
        device ← dev
        request ← req
        status ← handler device request
        assert (is_success status))

abbrev tests : List (Cmd (Unit {0}))
tests =
    default_create_is_success ∷ default_close_is_success ∷ default_cleanup_is_success
    ∷ default_read_is_not_supported ∷ default_write_is_not_supported
    ∷ default_device_control_is_not_supported ∷ default_internal_device_control_is_not_supported
    ∷ default_power_is_not_supported ∷ default_pnp_is_not_supported
    ∷ default_query_information_is_not_supported ∷ default_set_information_is_not_supported
    ∷ custom_override_is_called ∷ custom_create_with_different_status
    ∷ not_supported_defaults_are_errors ∷ success_defaults_are_successes ∷ []

tests-AllPass_driver : AllPass tests
unfolding as_i32 as_u32 is_success is_error Device.from_raw Irp.from_raw Irp.complete
    Request.from_raw Request.complete noop_completer defaults
tests-AllPass_driver = λ w. (refl, refl)
