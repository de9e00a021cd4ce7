-- ===== src/Wdm.antt =====
-- What the example drivers under examples/ share: the names that they take from `wdk_sys`, which is
-- not of this repository, the reimplemented `IoGetCurrentIrpStackLocation`, and `KernelCompleter`.
pub mod Completion
pub mod Objects
pub mod Unicode
pub mod Slots
pub mod Loading
pub mod Life
pub mod Lifetime
use Prim.Native.String.{String}
use wdk_safe.Base.{ℕ, ◌+◌, ℤ, as_u32}
use wdk_safe.Memory.{Ptr}
use wdk_safe.Machine.{
  Cmd, ◌>>=◌, ◌>>◌, load, store_at, notify, Kernel, io_complete_request, dbg_print,
}
use wdk_safe.Irp.{IrpCompleter}

-- Offsets of the fields of the kernel's structures, and constants of its headers.
pub record WdkSys : Type 0 where
  -- in `IRP`: four bytes, one byte, and a pointer
  pub io_status_status : ℕ
  pub current_location : ℕ
  pub current_stack_location : ℕ
  -- the size of an `IO_STACK_LOCATION`
  pub stack_location_size : ℕ
  -- in `DEVICE_OBJECT`: a pointer, one byte, four bytes, and a pointer
  pub device_extension : ℕ
  pub stack_size : ℕ
  pub flags : ℕ
  pub next_device : ℕ
  pub io_no_increment : ℕ
  pub status_success : ℤ
  pub file_device_keyboard : ℕ
  pub file_device_unknown : ℕ
  pub file_device_null : ℕ
  pub do_buffered_io : ℕ
  pub do_direct_io : ℕ
  pub do_device_initializing : ℕ
  pub irp_mj_create : ℕ
  pub irp_mj_close : ℕ
  pub irp_mj_read : ℕ
  pub irp_mj_write : ℕ
  pub irp_mj_device_control : ℕ
  pub irp_mj_internal_device_control : ℕ
  pub irp_mj_power : ℕ
  pub irp_mj_pnp : ℕ
  pub irp_mj_maximum_function : ℕ

module _ (sys : WdkSys) where
  unfoldable pub irp_current_stack : Ptr → Cmd Ptr
  irp_current_stack irp = load 8 (irp + sys.current_stack_location)

  module _ (kernel : Kernel) where
    unfoldable pub kernel_completer : IrpCompleter
    unfolding as_u32
    kernel_completer = record {
      complete = λ irp status. do
        store_at 4 (irp + sys.io_status_status) (as_u32 status)
        notify kernel (io_complete_request irp sys.io_no_increment);
    }

    unfoldable pub debug_print : String → Cmd (Unit {0})
    debug_print text = notify kernel (dbg_print text)
