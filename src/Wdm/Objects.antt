-- ===== src/Wdm/Objects.antt =====
-- The part of a `DRIVER_OBJECT` that the example drivers touch.
use wdk_safe.Base.{ℕ, Bool, Option, List}
use wdk_safe.Memory.{Ptr}

-- The entry points of the three drivers, by the method that a dispatch routine calls, and routines
-- of others, such as the one that the I/O manager puts into every slot.
pub data Routine : Type 0 where
  dispatch_create dispatch_close dispatch_read dispatch_write dispatch_device_control : Routine
  dispatch_power dispatch_pnp dispatch_passthrough : Routine
  foreign : ℕ → Routine

pub record DriverObject : Type 0 where
  pub address : Ptr
  -- `MajorFunction`, a slot for each major function code
  pub major_function : List (Option Routine)
  -- whether `DriverUnload` is the driver's own `driver_unload`
  pub unload_set : Bool
  -- whether `DriverExtension` is not null, and whether its `AddDevice` is the driver's own
  pub has_extension : Bool
  pub add_device_set : Bool
  -- `DeviceObject`, the first of the driver's devices
  pub device_object : Ptr
