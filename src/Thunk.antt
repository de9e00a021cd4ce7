-- ===== src/Thunk.antt =====
-- crates/wdk-safe/src/thunk.rs: the dispatch routine that `dispatch_fn!` generates for a method.
pub mod Dispatch
pub mod Disposal
use wdk_safe.Base.{ℤ}
use wdk_safe.Status
use wdk_safe.Memory.{Ptr}
use wdk_safe.Machine.{Cmd, pure, ◌>>=◌, ◌>>◌}
use wdk_safe.Device
use wdk_safe.Request
use wdk_safe.Driver.{Handler}

unfoldable pub dispatch_fn : Handler → (Ptr → Cmd Ptr) → Ptr → Ptr → Cmd ℤ
unfolding Request.from_raw Device.from_raw
dispatch_fn method irp_stack device irp = do
  stack ← irp_stack irp
  req ← Request.from_raw irp stack
  dev ← Device.from_raw device
  status ← method dev req
  pure (Status.into_raw status)
