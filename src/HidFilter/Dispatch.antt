-- ===== src/HidFilter/Dispatch.antt =====
-- The filter's dispatch routines, from the raw pointers on.
use wdk_safe.Base.{◌+◌, ◌≡◌, ◌≢◌, refl, some, ℤ}
use wdk_safe.Memory.{Ptr, null}
use wdk_safe.Machine.{World, ok, Kernel, Cmd, po_start_next_power_irp}
use wdk_safe.Machine.Access.{load_lem}
use wdk_safe.Driver.Defaults.{Major, create, close, read, power, pnp, method}
use wdk_safe.Thunk.{dispatch_fn}
use wdk_safe.Thunk.Dispatch.{request_of, device_of, dispatch_fn-returns}
use wdk_safe.Wdm.{WdkSys, irp_current_stack}
use wdk_safe.Wdm.Completion.{PrintsOnly}
use wdk_safe.Wdm.Objects.{
  Routine, dispatch_create, dispatch_close, dispatch_read, dispatch_power, dispatch_pnp,
  dispatch_passthrough,
}
use wdk_safe.HidFilter.{driver, routine}
use wdk_safe.HidFilter.Skip.{HasNext, skipped}
use wdk_safe.HidFilter.Forward.{
  HasLower, ForwardedOnce, Filtered, filtered_create, filtered_close, filtered_read, filtered_power,
  filtered_pnp, pass, filtered-Passes,
}

-- The routines of the filter, and the method that each of them calls.
pub data Serves : Routine → Major → Type 0 where
  serves_create : Serves dispatch_create create
  serves_close : Serves dispatch_close close
  serves_read : Serves dispatch_read read
  serves_power : Serves dispatch_power power
  serves_pnp : Serves dispatch_pnp pnp
  serves_passthrough : Serves dispatch_passthrough pnp

Serves-Filtered : (rt : Routine) (major : Major) → Serves rt major → Filtered major
Serves-Filtered rt major serves_create = filtered_create
Serves-Filtered rt major serves_close = filtered_close
Serves-Filtered rt major serves_read = filtered_read
Serves-Filtered rt major serves_power = filtered_power
Serves-Filtered rt major serves_pnp = filtered_pnp
Serves-Filtered rt major serves_passthrough = filtered_pnp

module _ (sys : WdkSys) (kernel : Kernel) where
  routine-method :
      (rt : Routine) (major : Major)
      → Serves rt major
      → routine sys kernel rt
        ≡ some (dispatch_fn (method (driver sys kernel) major) (irp_current_stack sys))
  unfolding routine
  routine-method rt major serves_create = refl
  routine-method rt major serves_close = refl
  routine-method rt major serves_read = refl
  routine-method rt major serves_power = refl
  routine-method rt major serves_pnp = refl
  routine-method rt major serves_passthrough = refl

  -- Every dispatch routine of the filter, the passthrough included, called with pointers that are not
  -- null, passes the IRP to the device below exactly once, with the current stack location skipped,
  -- completes no IRP, and returns the raw status of the call. Conditions: the IRP leads to its
  -- current stack location and has one left, the extension leads to the lower device, and printing
  -- and `PoStartNextPowerIrp` change no memory.
  pub routine-forwards :
      PrintsOnly sys kernel
      → ((p : Ptr) (w : World) → (kernel (po_start_next_power_irp p) w).mem ≡ w.mem)
      → (rt : Routine) (major : Major) → Serves rt major
      → (device irp location stack lower : Ptr) (w : World) → device ≢ null
      → irp ≢ null
      → stack ≢ null
      → HasNext sys irp location stack w.mem
      → HasLower sys (device_of device) lower w.mem
      → (f : Ptr → Ptr → Cmd ℤ) × (before : World) × (after : World) × (routine sys kernel rt
          ≡ some f)
        × (before.mem ≡ skipped sys irp location stack w.mem)
        × (f device irp w ≡ ok (kernel (pass major lower irp) before).status after)
        × ForwardedOnce irp w after
  unfolding irp_current_stack
  routine-forwards prints starts rt major serves device irp location stack lower w hd hi hs next
        below =
      let passes =
        filtered-Passes sys kernel (device_of device) (request_of irp stack) location stack lower
          prints starts w next below major (Serves-Filtered rt major serves) in
      (
        dispatch_fn (method (driver sys kernel) major) (irp_current_stack sys),
        passes.before,
        passes.after,
        routine-method rt major serves,
        passes.before_mem,
        dispatch_fn-returns (method (driver sys kernel) major) (irp_current_stack sys) device irp
            stack w (load_lem 8 (irp + sys.current_stack_location) stack w next.stack_field) _
            passes.after hd hi hs passes.ends,
        passes.once,
      )
