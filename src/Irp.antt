-- ===== src/Irp.antt =====
-- crates/wdk-safe/src/irp.rs: the owned IRP, its completer, completion, forwarding and the drop
-- bomb. That a value which was moved is not used again is Rust's own rule: `Irp.Protocol` states
-- what follows from it.
use wdk_safe.Base.{ℕ, Bool, true, false, not, ℤ, ◌==◌}
use wdk_safe.Status
use wdk_safe.Status.{NtStatus}
use wdk_safe.Memory.{Ptr, null}
use wdk_safe.Machine.{
  World, Cmd, ok, pure, ◌>>=◌, ◌>>◌, debug_assert, log, store_aligned, completed,
}
pub mod Completers
pub mod Ownership
pub mod Protocol

-- The trait `IrpCompleter`.
pub record IrpCompleter : Type 0 where
  pub complete : Ptr → ℤ → Cmd (Unit {0})

-- `RawIrp`, the pointer behind an `Irp`.
pub record RawIrp : Type 0 where
  pub pointer : Ptr

pub record Irp : Type 0 where
  pub raw : RawIrp

abbrev pub owned : Ptr → Irp
owned p = record { raw = record { pointer = p } }

unfoldable pub from_raw : Ptr → Cmd Irp
from_raw raw = do debug_assert (not (raw == null)); pure (owned raw)

abbrev pub as_raw_ptr : Irp → Ptr
as_raw_ptr irp = irp.raw.pointer

-- `mem::forget` keeps the drop bomb from going off, and does nothing else.
abbrev pub into_raw : Irp → Ptr
into_raw irp = irp.raw.pointer

-- `info_ptr.write(bytes)`
unfoldable pub set_information_ptr : Ptr → ℕ → Cmd (Unit {0})
set_information_ptr info_ptr bytes = store_aligned 8 info_ptr bytes

unfoldable pub complete : IrpCompleter → Irp → NtStatus → Cmd NtStatus
complete c irp status = do
  let raw = irp.raw.pointer
  log (completed raw (Status.into_raw status))
  c.complete raw (Status.into_raw status)
  pure status

-- What happens to an `Irp` that goes out of scope.
unfoldable pub drop : Irp → Cmd (Unit {0})
drop irp = debug_assert false
