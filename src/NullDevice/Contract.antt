-- ===== src/NullDevice/Contract.antt =====
-- The null device keeps the contract of a driver.
use wdk_safe.Base.{◌+◌}
use wdk_safe.Memory.{AreDisjoint}
use wdk_safe.Machine.{World, Kernel}
use wdk_safe.Device.{Device}
use wdk_safe.Irp
use wdk_safe.Request.{IoRequest}
use wdk_safe.Driver.Defaults.{Major, method}
use wdk_safe.Driver.Disposal.{Ends, Disposes, CompletedOnce-DisposedOnce}
use wdk_safe.Wdm.{WdkSys}
use wdk_safe.Wdm.Completion.{HasStatus, PrintsOnly}
use wdk_safe.NullDevice.{driver}
use wdk_safe.NullDevice.Handlers.{handlers-CompletesUntouched, null_status}

-- The status field is there and apart from the information field.
abbrev pub IsNullReady : WdkSys → Kernel → Major → Device → IoRequest → World → Type 0
IsNullReady sys kernel major device r w =
    HasStatus sys kernel (Irp.as_raw_ptr r.irp) w.mem
    × AreDisjoint 4 (Irp.as_raw_ptr r.irp + sys.io_status_status) 8 (Irp.as_raw_ptr r.irp + 0x38)

-- Every method of the null device ends and disposes of its IRP exactly once. Conditions: printing
-- changes no memory, and the status field is there and apart from the information field.
pub method-Ends_null :
    (sys : WdkSys) (kernel : Kernel)
    → PrintsOnly sys kernel
    → (major : Major) (device : Device) (r : IoRequest) (w : World)
    → IsNullReady sys kernel major device r w
    → Ends (method (driver sys kernel) major) device r w
method-Ends_null sys kernel prints major device r w ready =
    let (v, run, once, info) =
      handlers-CompletesUntouched sys kernel prints r w ready.0 ready.1 major device in
    (null_status major, _, run, CompletedOnce-DisposedOnce (Irp.as_raw_ptr r.irp) w _ once)

-- The contract, for the requests that are ready.
pub driver-Disposes_null :
    (sys : WdkSys) (kernel : Kernel)
    → PrintsOnly sys kernel
    → Disposes (driver sys kernel) (IsNullReady sys kernel)
driver-Disposes_null sys kernel prints = record { ends = method-Ends_null sys kernel prints }
