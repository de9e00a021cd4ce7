-- ===== src/Request.antt =====
-- crates/wdk-safe/src/request.rs: an IRP with its current stack location, the reading of the
-- device-control parameters, and completion. `usize` and pointers have eight bytes, as on the
-- x86-64 targets whose offsets the crate gives.
pub mod Parameters
pub mod Completion
use wdk_safe.Base.{ℕ, ◌+◌, not, Option, none, some, ◌==◌, if◌then◌else◌}
use wdk_safe.Status.{NtStatus}
use wdk_safe.Ioctl
use wdk_safe.Ioctl.{IoControlCode, IoStackOffsets}
use wdk_safe.Memory.{Ptr, null}
use wdk_safe.Machine.{Cmd, pure, ◌>>=◌, ◌>>◌, debug_assert, load}
use wdk_safe.Irp
use wdk_safe.Irp.{IrpCompleter, Irp}

pub record IoRequest : Type 0 where
  pub irp : Irp
  pub stack : Ptr

unfoldable pub from_raw : Ptr → Ptr → Cmd IoRequest
unfolding Irp.from_raw
from_raw irp stack = do
  debug_assert (not (irp == null))
  debug_assert (not (stack == null))
  owned ← Irp.from_raw irp
  pure (record { irp = owned; stack = stack })

unfoldable pub ioctl_code : IoRequest → IoStackOffsets → Cmd (Option IoControlCode)
ioctl_code r offsets = do
  raw ← load 4 (r.stack + offsets.ioctl_code)
  pure (if raw == 0 then none else some (Ioctl.from_raw raw))

unfoldable pub input_buffer_length : IoRequest → IoStackOffsets → Cmd ℕ
input_buffer_length r offsets = load 4 (r.stack + offsets.input_buffer_length)

unfoldable pub output_buffer_length : IoRequest → IoStackOffsets → Cmd ℕ
output_buffer_length r offsets = load 4 (r.stack + offsets.output_buffer_length)

unfoldable pub system_buffer : IoRequest → IoStackOffsets → Cmd (Option Ptr)
system_buffer r offsets = do
  ptr ← load 8 (Irp.as_raw_ptr r.irp + offsets.irp_system_buffer)
  pure (if ptr == null then none else some ptr)

abbrev pub io_status_information_ptr : IoRequest → IoStackOffsets → Ptr
io_status_information_ptr r offsets = Irp.as_raw_ptr r.irp + offsets.irp_information

unfoldable pub complete : IrpCompleter → IoRequest → NtStatus → Cmd NtStatus
complete c r status = Irp.complete c r.irp status

unfoldable pub complete_with_info : IrpCompleter → IoRequest → NtStatus → ℕ → Ptr → Cmd NtStatus
complete_with_info c r status bytes_transferred info_ptr = do
  Irp.set_information_ptr info_ptr bytes_transferred
  Irp.complete c r.irp status

abbrev pub into_raw_irp : IoRequest → Ptr
into_raw_irp r = Irp.into_raw r.irp
