-- ===== src/Driver/Defaults.antt =====
-- What the default methods of `WdmDriver` do.
use wdk_safe.Base.{◌≡◌}
use wdk_safe.Status.{NtStatus}
use wdk_safe.Status.Codes
use wdk_safe.Memory.{Ptr, Memory}
use wdk_safe.Machine.{World, ok}
use wdk_safe.Device.{Device}
use wdk_safe.Irp
use wdk_safe.Irp.{IrpCompleter}
use wdk_safe.Irp.Completers.{IsCompleter}
use wdk_safe.Irp.Ownership.{CompletedOnce, complete-CompletedOnce}
use wdk_safe.Request
use wdk_safe.Request.{IoRequest}
use wdk_safe.Driver.{Handler, WdmDriver, defaults}

-- The IRP major functions that the trait has a method for.
pub data Major : Type 0 where
  create close read write device_control internal_device_control power pnp cleanup : Major
  query_information set_information : Major

abbrev pub method : WdmDriver → Major → Handler
method d create = d.on_create
method d close = d.on_close
method d read = d.on_read
method d write = d.on_write
method d device_control = d.on_device_control
method d internal_device_control = d.on_internal_device_control
method d power = d.on_power
method d pnp = d.on_pnp
method d cleanup = d.on_cleanup
method d query_information = d.on_query_information
method d set_information = d.on_set_information

-- The table in the module's documentation.
abbrev pub documented : Major → NtStatus
documented create = Codes.success
documented close = Codes.success
documented cleanup = Codes.success
documented other = Codes.not_supported

-- The run of a handler returned the status and completed the IRP, once, with no other completion
-- and no forwarding.
abbrev pub CompletesWith : Handler → NtStatus → Device → IoRequest → World → Type 0
CompletesWith handler status device request w =
    (w' : World) × (handler device request w ≡ ok status w')
    × CompletedOnce (Irp.as_raw_ptr request.irp) w w'

module _ {c : IrpCompleter} {Ready : Ptr → Memory → Type 0} (contract : IsCompleter c Ready) where
  pub request_complete-CompletedOnce :
      (request : IoRequest) (status : NtStatus) (w : World)
      → Ready (Irp.as_raw_ptr request.irp) w.mem
      → (w' : World) × (Request.complete c request status w ≡ ok status w')
        × CompletedOnce (Irp.as_raw_ptr request.irp) w w'
  unfolding Request.complete
  request_complete-CompletedOnce request status w ready =
      complete-CompletedOnce contract request.irp status w ready

  -- With a completer that keeps its contract, and memory that is ready for it, every default method
  -- returns the documented status of its major function after completing the IRP exactly once and
  -- forwarding nothing.
  pub defaults-CompletesWith :
      (major : Major) (device : Device) (request : IoRequest) (w : World)
      → Ready (Irp.as_raw_ptr request.irp) w.mem
      → CompletesWith (method (defaults c) major) (documented major) device request w
  unfolding defaults
  defaults-CompletesWith create device request w ready =
      request_complete-CompletedOnce request Codes.success w ready
  defaults-CompletesWith close device request w ready =
      request_complete-CompletedOnce request Codes.success w ready
  defaults-CompletesWith cleanup device request w ready =
      request_complete-CompletedOnce request Codes.success w ready
  defaults-CompletesWith other device request w ready =
      request_complete-CompletedOnce request Codes.not_supported w ready
