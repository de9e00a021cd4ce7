-- ===== src/Driver.antt =====
-- crates/wdk-safe/src/driver.rs: the trait `WdmDriver`, a handler for each IRP major function, and
-- its default methods. A driver is the record of its methods: `record (defaults c) { on_read = … }`
-- overrides some of them.
pub mod Defaults
pub mod Disposal
use wdk_safe.Status.{NtStatus}
use wdk_safe.Status.Codes
use wdk_safe.Machine.{Cmd}
use wdk_safe.Device.{Device}
use wdk_safe.Irp.{IrpCompleter}
use wdk_safe.Request
use wdk_safe.Request.{IoRequest}

abbrev pub Handler : Type 0
Handler = Device → IoRequest → Cmd NtStatus

pub record WdmDriver : Type 0 where
  pub on_create : Handler
  pub on_close : Handler
  pub on_read : Handler
  pub on_write : Handler
  pub on_device_control : Handler
  pub on_internal_device_control : Handler
  pub on_power : Handler
  pub on_pnp : Handler
  pub on_cleanup : Handler
  pub on_query_information : Handler
  pub on_set_information : Handler

unfoldable pub defaults : IrpCompleter → WdmDriver
defaults c = record {
  on_create = λ device request. Request.complete c request Codes.success;
  on_close = λ device request. Request.complete c request Codes.success;
  on_read = λ device request. Request.complete c request Codes.not_supported;
  on_write = λ device request. Request.complete c request Codes.not_supported;
  on_device_control = λ device request. Request.complete c request Codes.not_supported;
  on_internal_device_control = λ device request. Request.complete c request Codes.not_supported;
  on_power = λ device request. Request.complete c request Codes.not_supported;
  on_pnp = λ device request. Request.complete c request Codes.not_supported;
  on_cleanup = λ device request. Request.complete c request Codes.success;
  on_query_information = λ device request. Request.complete c request Codes.not_supported;
  on_set_information = λ device request. Request.complete c request Codes.not_supported;
}
