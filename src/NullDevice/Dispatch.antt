-- ===== src/NullDevice/Dispatch.antt =====
-- The null device's dispatch routines, from the raw pointers on.
use wdk_safe.Base.{◌+◌, ◌≡◌, ◌≢◌, refl, some, ℤ}
use wdk_safe.Status
use wdk_safe.Status.Codes
use wdk_safe.Memory.{Ptr, null, read_le, AreDisjoint}
use wdk_safe.Machine.{World, ok, Kernel, Cmd, io_complete_request}
use wdk_safe.Machine.Access.{load_lem}
use wdk_safe.Irp.Ownership.{CompletedOnce}
use wdk_safe.Driver.Defaults.{Major, create, close, read, write, method}
use wdk_safe.Thunk.{dispatch_fn}
use wdk_safe.Thunk.Dispatch.{request_of, device_of, dispatch_fn-returns}
use wdk_safe.Wdm.{WdkSys, irp_current_stack}
use wdk_safe.Wdm.Completion.{HasStatus, PrintsOnly, answered}
use wdk_safe.Wdm.Objects.{Routine, dispatch_create, dispatch_close, dispatch_read, dispatch_write}
use wdk_safe.NullDevice.{driver, routine}
use wdk_safe.NullDevice.Handlers.{handlers-CompletesUntouched, null_status}

-- The registered routines, and the method that each of them calls.
pub data Serves : Routine → Major → Type 0 where
  serves_create : Serves dispatch_create create
  serves_close : Serves dispatch_close close
  serves_read : Serves dispatch_read read
  serves_write : Serves dispatch_write write

module _ (sys : WdkSys) (kernel : Kernel) (prints : PrintsOnly sys kernel) (device irp stack : Ptr)
    (w : World) (hd : device ≢ null) (hi : irp ≢ null) (hs : stack ≢ null)
    (field : read_le 8 (irp + sys.current_stack_location) w.mem ≡ some stack)
    (ready : HasStatus sys kernel irp w.mem)
    (apart : AreDisjoint 4 (irp + sys.io_status_status) 8 (irp + 0x38)) where
  -- The routine returns success, after one completion that saw the Information field untouched.
  abbrev pub Succeeds : Routine → Type 0
  Succeeds rt =
      (f : Ptr → Ptr → Cmd ℤ) × (v : World) × (routine sys kernel rt ≡ some f)
      × (f device irp w
          ≡ ok (Status.into_raw Codes.success)
              (answered sys kernel (io_complete_request irp sys.io_no_increment) v))
      × CompletedOnce irp w (answered sys kernel (io_complete_request irp sys.io_no_increment) v)
      × (read_le 8 (irp + 0x38) v.mem ≡ read_le 8 (irp + 0x38) w.mem)

  served :
      (rt : Routine) (major : Major)
      → routine sys kernel rt
        ≡ some (dispatch_fn (method (driver sys kernel) major) (irp_current_stack sys))
      → null_status major ≡ Codes.success
      → Succeeds rt
  unfolding irp_current_stack
  served rt major found success =
      let (v, run, once, info) =
        handlers-CompletesUntouched sys kernel prints (request_of irp stack) w ready apart major
          (device_of device) in
      (
        dispatch_fn (method (driver sys kernel) major) (irp_current_stack sys),
        v,
        found,
        dispatch_fn-returns (method (driver sys kernel) major) (irp_current_stack sys) device irp
            stack w (load_lem 8 (irp + sys.current_stack_location) stack w field) Codes.success _ hd
            hi hs (rw success at run),
        once,
        info,
      )

  -- Each registered routine, called with pointers that are not null, returns the raw SUCCESS, after
  -- completing the IRP once, in a call that sees the Information field as the I/O manager had set it.
  -- Conditions: the IRP leads to its current stack location, printing changes no memory, and the
  -- status field is there and apart from the information field.
  pub routine-Succeeds : (rt : Routine) (major : Major) → Serves rt major → Succeeds rt
  unfolding routine
  routine-Succeeds rt major serves_create = served dispatch_create create refl refl
  routine-Succeeds rt major serves_close = served dispatch_close close refl refl
  routine-Succeeds rt major serves_read = served dispatch_read read refl refl
  routine-Succeeds rt major serves_write = served dispatch_write write refl refl
