-- ===== src/Thunk/Dispatch.antt =====
-- What a generated dispatch routine returns.
use wdk_safe.Base.{◌≡◌, ◌∙◌, ◌≢◌, ◌&&◌, ◌||◌, true, false, ◌==◌, arith}
use wdk_safe.Status
use wdk_safe.Status.{NtStatus}
use wdk_safe.Memory.{Ptr, Memory, null}
use wdk_safe.Machine.{World, ok, panic, Cmd, pure, ◌>>=◌}
use wdk_safe.Device.{Device}
use wdk_safe.Irp.{IrpCompleter, owned}
use wdk_safe.Irp.Completers.{IsCompleter}
use wdk_safe.Irp.Ownership.{CompletedOnce}
use wdk_safe.Request.{IoRequest}
use wdk_safe.Driver.{Handler, defaults}
use wdk_safe.Driver.Defaults.{Major, method, documented, defaults-CompletesWith}
use wdk_safe.Thunk.{dispatch_fn}

-- The values that the thunk makes of the raw pointers.
abbrev pub request_of : Ptr → Ptr → IoRequest
request_of irp stack = record { irp = owned irp; stack = stack }

abbrev pub device_of : Ptr → Device
device_of device = record { raw = device }

module _ (handler : Handler) (irp_stack : Ptr → Cmd Ptr) (device irp stack : Ptr) (w : World)
    (found : irp_stack irp w ≡ ok stack w) where
  -- In a debug build a null IRP, stack location or device stops the thunk before the driver's method
  -- runs; otherwise the thunk runs the method on the wrapped pointers, in the same world, and returns
  -- the raw value of its status. Condition: finding the stack location changes nothing.
  pub dispatch_fn_lem :
      dispatch_fn handler irp_stack device irp w
      ≡ elim (w.debug_assertions && (irp == null || (stack == null || device == null))) [
        | true ↦ panic
        | false ↦
            (handler (device_of device) (request_of irp stack) >>= λ s. pure (Status.into_raw s)) w
      ]
  unfolding dispatch_fn
  dispatch_fn_lem = rw (found, ◌>>=◌) (ground arith)

  -- With pointers that are not null the thunk returns what the method returns.
  pub dispatch_fn-returns :
      (status : NtStatus) (w' : World)
      → device ≢ null
      → irp ≢ null
      → stack ≢ null
      → handler (device_of device) (request_of irp stack) w ≡ ok status w'
      → dispatch_fn handler irp_stack device irp w ≡ ok (Status.into_raw status) w'
  dispatch_fn-returns status w' hd hi hs e =
      let set : (w.debug_assertions && (irp == null || (stack == null || device == null))) ≡ false =
        ground arith in
      dispatch_fn_lem ∙ rw set (rw (e, ◌>>=◌))

-- A thunk for a default method, called with pointers that are not null and a completer that keeps
-- its contract, returns the raw documented status of the major function after completing the IRP
-- exactly once and forwarding nothing. Conditions: finding the stack location changes nothing, and
-- memory is ready for the completer.
pub dispatch_fn-defaults :
    {c : IrpCompleter} {Ready : Ptr → Memory → Type 0}
    → IsCompleter c Ready
    → (major : Major) (irp_stack : Ptr → Cmd Ptr) (device irp stack : Ptr) (w : World)
    → irp_stack irp w ≡ ok stack w
    → device ≢ null
    → irp ≢ null
    → stack ≢ null
    → Ready irp w.mem
    → (w' : World) × (dispatch_fn (method (defaults c) major) irp_stack device irp w
        ≡ ok (Status.into_raw (documented major)) w')
      × CompletedOnce irp w w'
dispatch_fn-defaults {c} contract major irp_stack device irp stack w found hd hi hs ready =
    let (w', e, once) =
      defaults-CompletesWith contract major (device_of device) (request_of irp stack) w ready in
    (
      w',
      dispatch_fn-returns (method (defaults c) major) irp_stack device irp stack w found
          (documented major) w' hd hi hs e,
      once,
    )
