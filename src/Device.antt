-- ===== src/Device.antt =====
-- crates/wdk-safe/src/device.rs: a reference to a `DEVICE_OBJECT`.
use wdk_safe.Base.{Bool, not, ◌==◌}
use wdk_safe.Memory.{Ptr, null}
use wdk_safe.Machine.{Cmd, pure, ◌>>◌, debug_assert}

-- Which of `DO_BUFFERED_IO` and `DO_DIRECT_IO` a device has.
pub data IoBufferingMode : Type 0 where
  buffered direct neither : IoBufferingMode

pub record Device : Type 0 where
  pub raw : Ptr

unfoldable pub from_raw : Ptr → Cmd Device
from_raw raw = do debug_assert (not (raw == null)); pure (record { raw = raw })

abbrev pub as_raw_ptr : Device → Ptr
as_raw_ptr d = d.raw

abbrev pub is_valid : Device → Bool
is_valid d = not (d.raw == null)
