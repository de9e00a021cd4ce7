-- ===== src/Echo.antt =====
-- examples/ioctl-echo/ioctl-echo/src/lib.rs: a driver with one IOCTL, which sends the 32-bit value
-- in its buffer back.
pub mod Requests
pub mod Control
pub mod Answer
pub mod Load
pub mod Unload
pub mod Dispatch
pub mod Contract
pub mod Lifetime
use Prim.Native.Nat.{bit_and, bit_or}
use wdk_safe.Base.{
  ℤ, ℕ, zero, suc, ◌+◌, ◌-◌, ◌*◌, ◌^◌, Bool, true, false, not, Option, none, some, List, [], ◌∷◌,
  ◌==◌, ltb, eq_ℤ, if◌then◌else◌, set,
}
use wdk_safe.Status
use wdk_safe.Status.{NtStatus, from_raw}
use wdk_safe.Status.Codes
use wdk_safe.Ioctl
use wdk_safe.Ioctl.{IoControlCode, buffered, any, wdk_sys_0_5_x64}
use wdk_safe.Memory.{Ptr, null}
use wdk_safe.Machine.{
  Cmd, pure, panic, ◌>>=◌, ◌>>◌, load, store_at, Kernel, call, notify, io_create_device,
  io_delete_device, io_create_symbolic_link, io_delete_symbolic_link,
}
use wdk_safe.Device.{Device}
use wdk_safe.Irp.{IrpCompleter}
use wdk_safe.Request
use wdk_safe.Request.{IoRequest}
use wdk_safe.Driver.{Handler, WdmDriver, defaults}
use wdk_safe.Thunk.{dispatch_fn}
use wdk_safe.Wdm
use wdk_safe.Wdm.{WdkSys}
use wdk_safe.Wdm.Unicode
use wdk_safe.Wdm.Unicode.{UnicodeString, units}
use wdk_safe.Wdm.Objects.{
  DriverObject, Routine, dispatch_create, dispatch_close, dispatch_device_control,
}

-- `EchoRequest` and `EchoResponse` are `repr(C)` structs of one `u32`: four bytes.
abbrev pub size_of_request : ℕ
size_of_request = 4

abbrev pub size_of_response : ℕ
size_of_response = 4

-- `define_ioctl!(IOCTL_ECHO, 0x8000u16, 0x800u16, EchoRequest => EchoResponse)`
unfoldable pub ioctl_echo : IoControlCode
unfolding Ioctl.new
ioctl_echo = Ioctl.new 0x8000 0x800 buffered any

-- `Option::expect`
abbrev pub expect {ℓ} : {A : Type ℓ} → Option A → Cmd A
expect none w = panic
expect (some a) w = pure a w

-- `\Device\WdkSafeEcho`
abbrev pub dev_buf : List ℕ
dev_buf =
    0x005C ∷ 0x0044 ∷ 0x0065 ∷ 0x0076 ∷ 0x0069 ∷ 0x0063 ∷ 0x0065 ∷ 0x005C ∷ 0x0057 ∷ 0x0064 ∷ 0x006B
    ∷ 0x0053 ∷ 0x0061 ∷ 0x0066 ∷ 0x0065 ∷ 0x0045 ∷ 0x0063 ∷ 0x0068 ∷ 0x006F ∷ 0x0000 ∷ []

-- `\DosDevices\WdkSafeEcho`
abbrev pub dos_buf : List ℕ
dos_buf =
    0x005C ∷ 0x0044 ∷ 0x006F ∷ 0x0073 ∷ 0x0044 ∷ 0x0065 ∷ 0x0076 ∷ 0x0069 ∷ 0x0063 ∷ 0x0065 ∷ 0x0073
    ∷ 0x005C ∷ 0x0057 ∷ 0x0064 ∷ 0x006B ∷ 0x0053 ∷ 0x0061 ∷ 0x0066 ∷ 0x0065 ∷ 0x0045 ∷ 0x0063
    ∷ 0x0068 ∷ 0x006F ∷ 0x0000 ∷ []

module _ (sys : WdkSys) (kernel : Kernel) where
  abbrev pub irp_current_stack : Ptr → Cmd Ptr
  irp_current_stack = Wdm.irp_current_stack sys

  abbrev pub kernel_completer : IrpCompleter
  kernel_completer = Wdm.kernel_completer sys kernel

  unfoldable pub on_create : Handler
  on_create device request = do
    Wdm.debug_print sys kernel "[ioctl-echo] IRP_MJ_CREATE\n"
    Request.complete kernel_completer request Codes.success

  unfoldable pub on_close : Handler
  on_close device request = do
    Wdm.debug_print sys kernel "[ioctl-echo] IRP_MJ_CLOSE\n"
    Request.complete kernel_completer request Codes.success

  -- From the point where the value has been read, with both buffers long enough.
  unfoldable pub reply : IoRequest → ℕ → Cmd NtStatus
  reply request value = do
    Wdm.debug_print sys kernel "[ioctl-echo] echoing value\n"
    let bytes_returned = size_of_response
    buf ← Request.system_buffer request wdk_sys_0_5_x64
    buf_ptr ← expect buf
    store_at 4 buf_ptr value
    let info_ptr = Request.io_status_information_ptr request wdk_sys_0_5_x64
    Request.complete_with_info kernel_completer request Codes.success bytes_returned info_ptr

  -- From the point where the system buffer has been read.
  unfoldable pub echo : IoRequest → Option Ptr → Cmd NtStatus
  echo request none = Request.complete kernel_completer request Codes.invalid_parameter
  echo request (some ptr) = do value ← load 4 ptr; reply request value

  -- From the point where the code is the driver's own.
  unfoldable pub checked : IoRequest → Cmd NtStatus
  checked request = do
    in_len ← Request.input_buffer_length request wdk_sys_0_5_x64
    out_len ← Request.output_buffer_length request wdk_sys_0_5_x64
    if ltb in_len size_of_request
        then Request.complete kernel_completer request Codes.buffer_too_small
        else if ltb out_len size_of_response
        then Request.complete kernel_completer request Codes.buffer_too_small
        else (do buf_ptr ← Request.system_buffer request wdk_sys_0_5_x64; echo request buf_ptr)

  -- From the point where the code is known.
  unfoldable pub control : IoRequest → Option IoControlCode → Cmd NtStatus
  control request none = Request.complete kernel_completer request Codes.invalid_device_request
  control request (some code) =
      if not (code.value == ioctl_echo.value)
      then (do
        Wdm.debug_print sys kernel "[ioctl-echo] unknown IOCTL code\n"
        Request.complete kernel_completer request Codes.invalid_device_request)
      else checked request

  unfoldable pub on_device_control : Handler
  on_device_control device request = do
    code ← Request.ioctl_code request wdk_sys_0_5_x64
    control request code

  unfoldable pub driver : WdmDriver
  driver = record (defaults kernel_completer) {
    on_create = on_create;
    on_close = on_close;
    on_device_control = on_device_control;
  }

  abbrev pub unicode_from_slice : List ℕ → Cmd UnicodeString
  unicode_from_slice = Unicode.unicode_from_slice

  unfoldable pub driver_unload : DriverObject → Cmd (Unit {0})
  driver_unload d = do
    Wdm.debug_print sys kernel "[ioctl-echo] DriverUnload\n"
    dos_name ← unicode_from_slice dos_buf
    notify kernel (io_delete_symbolic_link (units dos_name))
    let device = d.device_object
    if not (device == null) then notify kernel (io_delete_device device) else pure tt

  -- The entries of `MajorFunction`, and `DriverUnload`.
  abbrev pub registered : DriverObject → DriverObject
  registered d =
      let m1 = set d.major_function sys.irp_mj_create (some dispatch_create) in
      let m2 = set m1 sys.irp_mj_close (some dispatch_close) in
      let m3 = set m2 sys.irp_mj_device_control (some dispatch_device_control) in
      record d { major_function = m3; unload_set = true }

  -- `(*device_obj).Flags &= !DO_DEVICE_INITIALIZING`, and `|= DO_BUFFERED_IO`
  unfoldable pub start_device : Ptr → Cmd (Unit {0})
  start_device device_obj = do
    flags ← load 4 (device_obj + sys.flags)
    store_at 4 (device_obj + sys.flags) (bit_and flags (2 ^ 32 - 1 - sys.do_device_initializing))
    ready ← load 4 (device_obj + sys.flags)
    store_at 4 (device_obj + sys.flags) (bit_or ready sys.do_buffered_io)

  -- `driver_entry_inner` from the call of `IoCreateDevice` on.
  unfoldable pub create_and_link :
      UnicodeString → UnicodeString → DriverObject → Cmd (NtStatus × DriverObject)
  create_and_link dev_name dos_name d = do
    created ← call kernel (
        io_create_device d.address (record {
          extension_size = 0;
          name = some (units dev_name);
          device_type = sys.file_device_unknown;
        }))
    if not (eq_ℤ created.status sys.status_success) then pure (from_raw created.status, d) else (do
      linked ← call kernel (io_create_symbolic_link (units dos_name) (units dev_name))
      if not (eq_ℤ linked.status sys.status_success)
          then (do
            notify kernel (io_delete_device created.pointer)
            pure (from_raw linked.status, d))
          else (do
            start_device created.pointer
            Wdm.debug_print sys kernel "[ioctl-echo] DriverEntry -- ready\n"
            pure (Codes.success, registered d)))

  unfoldable pub driver_entry_inner : DriverObject → Cmd (NtStatus × DriverObject)
  driver_entry_inner d = do
    Wdm.debug_print sys kernel "[ioctl-echo] DriverEntry -- loading\n"
    dev_name ← unicode_from_slice dev_buf
    dos_name ← unicode_from_slice dos_buf
    create_and_link dev_name dos_name d

  -- `DriverEntry`, and what it leaves in the driver object.
  unfoldable pub driver_entry : DriverObject → Cmd (ℤ × DriverObject)
  driver_entry d = do entered ← driver_entry_inner d; pure (Status.into_raw entered.0, entered.1)

  -- The dispatch routines that `dispatch_fn!` generates.
  unfoldable pub routine : Routine → Option (Ptr → Ptr → Cmd ℤ)
  routine dispatch_create = some (dispatch_fn driver.on_create irp_current_stack)
  routine dispatch_close = some (dispatch_fn driver.on_close irp_current_stack)
  routine dispatch_device_control = some (dispatch_fn driver.on_device_control irp_current_stack)
  routine other = none
