-- ===== src/HidFilter/Contract.antt =====
-- The filter keeps the contract of a driver.
use wdk_safe.Base.{ℕ, ◌≡◌, ◌⊎◌, inl, inr, refl, arith}
use wdk_safe.Status.{from_raw}
use wdk_safe.Memory.{Ptr}
use wdk_safe.Machine.{World, Kernel, po_start_next_power_irp}
use wdk_safe.Device.{Device}
use wdk_safe.Irp
use wdk_safe.Request.{IoRequest}
use wdk_safe.Driver.{defaults}
use wdk_safe.Driver.Defaults.{
  Major, create, close, read, write, device_control, internal_device_control, power, pnp, cleanup,
  query_information, set_information, method,
}
use wdk_safe.Driver.Disposal.{Disposes, DisposedOnce, Ends, defaults-Disposes}
use wdk_safe.Wdm
use wdk_safe.Wdm.{WdkSys}
use wdk_safe.Wdm.Completion.{HasStatus, PrintsOnly, kernel_completer-IsCompleter}
use wdk_safe.HidFilter.{driver}
use wdk_safe.HidFilter.Skip.{HasNext}
use wdk_safe.HidFilter.Forward.{
  ForwardedOnce, HasLower, Filtered, filtered_create, filtered_close, filtered_read,
  filtered_internal, filtered_power, filtered_pnp, filtered_cleanup, pass, filtered-Passes,
}

ForwardedOnce-DisposedOnce :
    (irp : Ptr) (w w' : World) → ForwardedOnce irp w w' → DisposedOnce irp w w'
ForwardedOnce-DisposedOnce irp w w' once = record {
  disposed = λ p. omega (arith, once.forwarded_once p, once.no_completion p);
  same_resources = once.same_resources;
}

-- A request that can be passed on and that can be completed.
pub record IsFilterReady (sys : WdkSys) (kernel : Kernel) (major : Major) (device : Device)
    (r : IoRequest) (w : World) : Type 0 where
  pub location : ℕ
  pub stack : ℕ
  pub lower : Ptr
  pub next : HasNext sys (Irp.as_raw_ptr r.irp) location stack w.mem
  pub below : HasLower sys device lower w.mem
  pub status : HasStatus sys kernel (Irp.as_raw_ptr r.irp) w.mem

module _ (sys : WdkSys) (kernel : Kernel) (prints : PrintsOnly sys kernel)
    (starts : (p : Ptr) (w : World) → (kernel (po_start_next_power_irp p) w).mem ≡ w.mem) where
  -- A method is the filter's own, or a default.
  method-Filtered :
      (major : Major)
      → Filtered major
        ⊎ (method (driver sys kernel) major
            ≡ method (defaults (Wdm.kernel_completer sys kernel)) major)
  unfolding driver
  method-Filtered create = inl filtered_create
  method-Filtered close = inl filtered_close
  method-Filtered read = inl filtered_read
  method-Filtered internal_device_control = inl filtered_internal
  method-Filtered power = inl filtered_power
  method-Filtered pnp = inl filtered_pnp
  method-Filtered cleanup = inl filtered_cleanup
  method-Filtered write = inr refl
  method-Filtered device_control = inr refl
  method-Filtered query_information = inr refl
  method-Filtered set_information = inr refl

  -- Every method of the filter, its own or a default, ends and disposes of its IRP exactly once.
  -- Conditions: printing and `PoStartNextPowerIrp` change no memory, and the request has a stack
  -- location left, an extension that leads to the lower device, and a status field.
  pub method-Ends_filter :
      (major : Major) (device : Device) (r : IoRequest) (w : World)
      → IsFilterReady sys kernel major device r w
      → Ends (method (driver sys kernel) major) device r w
  method-Ends_filter major device r w ready = elim (method-Filtered major) [
    | inl f ↦
        let passes =
          filtered-Passes sys kernel device r ready.location ready.stack ready.lower prints starts w
            ready.next ready.below major f in
        (
          from_raw (kernel (pass major ready.lower (Irp.as_raw_ptr r.irp)) passes.before).status,
          passes.after,
          passes.ends,
          ForwardedOnce-DisposedOnce (Irp.as_raw_ptr r.irp) w passes.after passes.once,
        )
    | inr e ↦ rw e (
        (defaults-Disposes (kernel_completer-IsCompleter sys kernel)).ends major device r w
          ready.status)
  ]

-- The contract, for the requests that are ready.
pub driver-Disposes_filter :
    (sys : WdkSys) (kernel : Kernel)
    → PrintsOnly sys kernel
    → ((p : Ptr) (w : World) → (kernel (po_start_next_power_irp p) w).mem ≡ w.mem)
    → Disposes (driver sys kernel) (IsFilterReady sys kernel)
driver-Disposes_filter sys kernel prints starts = record {
  ends =
      λ major device r w ready. method-Ends_filter sys kernel prints starts major device r w ready;
}
