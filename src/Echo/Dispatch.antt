-- ===== src/Echo/Dispatch.antt =====
-- The echo driver's dispatch routine for device control, from the raw pointers on.
use wdk_safe.Base.{ℕ, ◌+◌, ◌≡◌, ◌≢◌, refl, some, ℤ}
use wdk_safe.Status
use wdk_safe.Status.{NtStatus}
use wdk_safe.Memory.{Ptr, null, read_le}
use wdk_safe.Machine.{World, ok, Kernel, Cmd}
use wdk_safe.Machine.Access.{load_lem}
use wdk_safe.Irp.Ownership.{CompletedOnce}
use wdk_safe.Thunk.{dispatch_fn}
use wdk_safe.Thunk.Dispatch.{request_of, device_of, dispatch_fn-returns}
use wdk_safe.Wdm.{WdkSys, irp_current_stack}
use wdk_safe.Wdm.Completion.{HasStatus, PrintsOnly}
use wdk_safe.Wdm.Objects.{dispatch_device_control}
use wdk_safe.Echo.{driver, on_device_control, routine}
use wdk_safe.Echo.Control.{on_device_control-completes}
use wdk_safe.Echo.Requests.{Inputs, IsEcho, Answerable, echo_status}

-- The dispatch routine that is registered for `IRP_MJ_DEVICE_CONTROL`, called by the I/O manager
-- with pointers that are not null, returns the raw status that the request deserves, after
-- completing the IRP once and forwarding nothing. Conditions: the IRP leads to its current stack
-- location, the parameters are in memory, printing changes no memory, the status field is there, and
-- an answered request has its buffer and an aligned information field, apart from the pointer to
-- the buffer.
pub routine-device_control :
    (sys : WdkSys) (kernel : Kernel)
    → PrintsOnly sys kernel
    → (device irp stack : Ptr) (w : World) (code input output buffer : ℕ) → device ≢ null
    → irp ≢ null
    → stack ≢ null
    → read_le 8 (irp + sys.current_stack_location) w.mem ≡ some stack
    → HasStatus sys kernel irp w.mem
    → Inputs (request_of irp stack) code input output buffer w.mem
    → (IsEcho code input output buffer → Answerable (request_of irp stack) buffer w.mem)
    → (f : Ptr → Ptr → Cmd ℤ) × (w' : World) × (routine sys kernel dispatch_device_control ≡ some f)
      × (f device irp w ≡ ok (Status.into_raw (echo_status code input output buffer)) w')
      × CompletedOnce irp w w'
unfolding routine driver irp_current_stack
routine-device_control sys kernel prints device irp stack w code input output buffer hd hi hs field
      ready inputs answerable =
    let (w', run, once) =
      on_device_control-completes sys kernel prints (device_of device) (request_of irp stack) w code
        input output buffer ready inputs answerable in
    (
      dispatch_fn (on_device_control sys kernel) (irp_current_stack sys),
      w',
      refl,
      dispatch_fn-returns (on_device_control sys kernel) (irp_current_stack sys) device irp stack w
          (load_lem 8 (irp + sys.current_stack_location) stack w field)
          (echo_status code input output buffer) w' hd hi hs run,
      once,
    )
