-- ===== src/NullDevice.antt =====
-- examples/null-device/null-device/src/lib.rs: a driver with one named device that discards what is
-- written and has nothing to read.
pub mod Handlers
pub mod Load
pub mod Unload
pub mod Reload
pub mod Lifetime
pub mod Dispatch
pub mod Contract
use wdk_safe.Base.{
  ℤ, Option, none, ℕ, ◌+◌, ◌-◌, ◌^◌, true, not, some, List, [], ◌∷◌, ◌==◌, eq_ℤ, if◌then◌else◌, set,
}
use Prim.Native.Nat.{bit_and}
use wdk_safe.Status
use wdk_safe.Status.{NtStatus, from_raw}
use wdk_safe.Status.Codes
use wdk_safe.Memory.{Ptr, null}
use wdk_safe.Machine.{
  Cmd, pure, ◌>>=◌, ◌>>◌, load, store_at, call, notify, Kernel, DeviceRequest, io_create_device,
  io_delete_device, io_create_symbolic_link, io_delete_symbolic_link,
}
use wdk_safe.Irp.{IrpCompleter}
use wdk_safe.Request
use wdk_safe.Driver.{Handler, WdmDriver, defaults}
use wdk_safe.Thunk.{dispatch_fn}
use wdk_safe.Wdm
use wdk_safe.Wdm.{WdkSys}
use wdk_safe.Wdm.Unicode.{UnicodeString, unicode_from_slice, units}
use wdk_safe.Wdm.Objects.{
  DriverObject, Routine, dispatch_create, dispatch_close, dispatch_read, dispatch_write,
}

-- `\Device\WdkSafeNull`
abbrev pub device_name_buf : List ℕ
device_name_buf =
    0x005C ∷ 0x0044 ∷ 0x0065 ∷ 0x0076 ∷ 0x0069 ∷ 0x0063 ∷ 0x0065 ∷ 0x005C ∷ 0x0057 ∷ 0x0064 ∷ 0x006B
    ∷ 0x0053 ∷ 0x0061 ∷ 0x0066 ∷ 0x0065 ∷ 0x004E ∷ 0x0075 ∷ 0x006C ∷ 0x006C ∷ 0x0000 ∷ []

-- `\DosDevices\WdkSafeNull`
abbrev pub dos_name_buf : List ℕ
dos_name_buf =
    0x005C ∷ 0x0044 ∷ 0x006F ∷ 0x0073 ∷ 0x0044 ∷ 0x0065 ∷ 0x0076 ∷ 0x0069 ∷ 0x0063 ∷ 0x0065 ∷ 0x0073
    ∷ 0x005C ∷ 0x0057 ∷ 0x0064 ∷ 0x006B ∷ 0x0053 ∷ 0x0061 ∷ 0x0066 ∷ 0x0065 ∷ 0x004E ∷ 0x0075
    ∷ 0x006C ∷ 0x006C ∷ 0x0000 ∷ []

-- The slice in `driver_unload`.
abbrev pub unload_name_buf : List ℕ
unload_name_buf =
    0x005C ∷ 0x005C ∷ 0x005C ∷ 0x0044 ∷ 0x006F ∷ 0x0073 ∷ 0x0044 ∷ 0x0065 ∷ 0x0076 ∷ 0x0069 ∷ 0x0063
    ∷ 0x0065 ∷ 0x0073 ∷ 0x005C ∷ 0x0057 ∷ 0x0064 ∷ 0x006B ∷ 0x0053 ∷ 0x0061 ∷ 0x0066 ∷ 0x0065
    ∷ 0x004E ∷ 0x0075 ∷ 0x006C ∷ 0x006C ∷ 0x0000 ∷ []

module _ (sys : WdkSys) (kernel : Kernel) where
  abbrev pub irp_current_stack : Ptr → Cmd Ptr
  irp_current_stack = Wdm.irp_current_stack sys

  abbrev pub kernel_completer : IrpCompleter
  kernel_completer = Wdm.kernel_completer sys kernel

  unfoldable pub on_create : Handler
  on_create device request = do
    Wdm.debug_print sys kernel "[null-device] IRP_MJ_CREATE\n"
    Request.complete kernel_completer request Codes.success

  unfoldable pub on_close : Handler
  on_close device request = do
    Wdm.debug_print sys kernel "[null-device] IRP_MJ_CLOSE\n"
    Request.complete kernel_completer request Codes.success

  unfoldable pub on_write : Handler
  on_write device request = do
    Wdm.debug_print sys kernel "[null-device] IRP_MJ_WRITE -- discarding\n"
    Request.complete kernel_completer request Codes.success

  unfoldable pub on_read : Handler
  on_read device request = do
    Wdm.debug_print sys kernel "[null-device] IRP_MJ_READ -- returning EOF\n"
    Request.complete kernel_completer request Codes.success

  unfoldable pub driver : WdmDriver
  driver = record (defaults kernel_completer) {
    on_create = on_create;
    on_close = on_close;
    on_write = on_write;
    on_read = on_read;
  }

  abbrev pub unicode_string_from_slice : List ℕ → Cmd UnicodeString
  unicode_string_from_slice = unicode_from_slice

  unfoldable pub driver_unload : DriverObject → Cmd (Unit {0})
  driver_unload d = do
    Wdm.debug_print sys kernel "[null-device] DriverUnload -- cleaning up\n"
    dos_name ← unicode_string_from_slice unload_name_buf
    notify kernel (io_delete_symbolic_link (units dos_name))
    let device = d.device_object
    if not (device == null) then notify kernel (io_delete_device device) else pure tt

  -- The entries of `MajorFunction`, and `DriverUnload`.
  abbrev pub registered : DriverObject → DriverObject
  registered d =
      let m1 = set d.major_function sys.irp_mj_create (some dispatch_create) in
      let m2 = set m1 sys.irp_mj_close (some dispatch_close) in
      let m3 = set m2 sys.irp_mj_read (some dispatch_read) in
      let m4 = set m3 sys.irp_mj_write (some dispatch_write) in
      record d { major_function = m4; unload_set = true }

  -- `(*device_obj).Flags &= !DO_DEVICE_INITIALIZING`
  unfoldable pub clear_initializing : Ptr → Cmd (Unit {0})
  clear_initializing device_obj = do
    flags ← load 4 (device_obj + sys.flags)
    store_at 4 (device_obj + sys.flags) (bit_and flags (2 ^ 32 - 1 - sys.do_device_initializing))

  -- `driver_entry_inner` from the call of `IoCreateDevice` on.
  unfoldable pub create_and_link :
      UnicodeString → UnicodeString → DriverObject → Cmd (NtStatus × DriverObject)
  create_and_link device_name dos_name d = do
    created ← call kernel (
        io_create_device d.address (record {
          extension_size = 0;
          name = some (units device_name);
          device_type = sys.file_device_null;
        }))
    if not (eq_ℤ created.status sys.status_success)
        then (do
          Wdm.debug_print sys kernel "[null-device] IoCreateDevice failed\n"
          pure (from_raw created.status, d))
        else (do
          linked ← call kernel (io_create_symbolic_link (units dos_name) (units device_name))
          if not (eq_ℤ linked.status sys.status_success)
              then (do
                notify kernel (io_delete_device created.pointer)
                pure (from_raw linked.status, d))
              else (do
                clear_initializing created.pointer
                Wdm.debug_print sys kernel "[null-device] DriverEntry -- ready\n"
                pure (Codes.success, registered d)))

  unfoldable pub driver_entry_inner : DriverObject → Cmd (NtStatus × DriverObject)
  driver_entry_inner d = do
    Wdm.debug_print sys kernel "[null-device] DriverEntry -- loading\n"
    device_name ← unicode_string_from_slice device_name_buf
    dos_name ← unicode_string_from_slice dos_name_buf
    create_and_link device_name dos_name d

  -- `DriverEntry`, and what it leaves in the driver object.
  unfoldable pub driver_entry : DriverObject → Cmd (ℤ × DriverObject)
  driver_entry d = do entered ← driver_entry_inner d; pure (Status.into_raw entered.0, entered.1)

  -- The dispatch routines that `dispatch_fn!` generates.
  unfoldable pub routine : Routine → Option (Ptr → Ptr → Cmd ℤ)
  routine dispatch_create = some (dispatch_fn driver.on_create irp_current_stack)
  routine dispatch_close = some (dispatch_fn driver.on_close irp_current_stack)
  routine dispatch_write = some (dispatch_fn driver.on_write irp_current_stack)
  routine dispatch_read = some (dispatch_fn driver.on_read irp_current_stack)
  routine other = none
