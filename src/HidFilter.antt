-- ===== src/HidFilter.antt =====
-- examples/hid-filter/hid-filter/src/lib.rs: an upper filter of a keyboard's device stack, which
-- hands every request to the device below.
pub mod Skip
pub mod Stack
pub mod Forward
pub mod Configure
pub mod Attach
pub mod Unload
pub mod Added
pub mod Slots
pub mod Entry
pub mod Dispatch
pub mod Lifetime
pub mod Contract
use Prim.Native.Nat.{bit_and, bit_or}
use wdk_safe.Base.{
  ℤ, ℕ, zero, suc, ◌+◌, ◌-◌, ◌%◌, ◌^◌, Bool, true, false, not, Option, none, some, List, ◌==◌, eq_ℤ,
  if◌then◌else◌, set, get_elem?,
}
use wdk_safe.Status
use wdk_safe.Status.{NtStatus, from_raw}
use wdk_safe.Status.Codes
use wdk_safe.Memory.{Ptr, null}
use wdk_safe.Machine.{
  Cmd, pure, ◌>>=◌, ◌>>◌, debug_assert, load, store_at, call, notify, Kernel, io_call_driver,
  po_call_driver, po_start_next_power_irp, io_create_device, io_delete_device, io_attach_device,
  io_detach_device,
}
use wdk_safe.Device
use wdk_safe.Device.{Device}
use wdk_safe.Irp.{IrpCompleter}
use wdk_safe.Request
use wdk_safe.Request.{IoRequest}
use wdk_safe.Driver.{Handler, WdmDriver, defaults}
use wdk_safe.Thunk.{dispatch_fn}
use wdk_safe.Wdm
use wdk_safe.Wdm.{WdkSys}
use wdk_safe.Wdm.Objects.{
  DriverObject, Routine, dispatch_create, dispatch_close, dispatch_read, dispatch_power,
  dispatch_pnp, dispatch_passthrough,
}

-- `FilterDeviceExtension` is a `repr(C)` struct of one pointer, at its start.
abbrev pub size_of_extension : ℕ
size_of_extension = 8

-- One slot, with what is in it.
abbrev pub fill_slot : List (Option Routine) → ℕ → Option (Option Routine) → List (Option Routine)
fill_slot slots i (some none) = set slots i (some dispatch_passthrough)
fill_slot slots i other = slots

-- The slots from `i` on, n of them, are filled where they are empty.
abbrev pub fill_slots : ℕ → ℕ → List (Option Routine) → List (Option Routine)
fill_slots zero i slots = slots
fill_slots (suc n) i slots = fill_slots n (suc i) (fill_slot slots i (get_elem? slots i))

module _ (sys : WdkSys) where
  abbrev pub irp_current_stack : Ptr → Cmd Ptr
  irp_current_stack = Wdm.irp_current_stack sys

  -- `CurrentLocation += 1` on an `i8`, whose overflow a debug build catches.
  unfoldable pub irp_skip_current_stack : Ptr → Cmd (Unit {0})
  irp_skip_current_stack irp = do
    location ← load 1 (irp + sys.current_location)
    debug_assert (not (location == 0x7F))
    store_at 1 (irp + sys.current_location) ((location + 1) % 2 ^ 8)
    stack ← load 8 (irp + sys.current_stack_location)
    store_at 8 (irp + sys.current_stack_location) (stack + sys.stack_location_size)

  unfoldable pub get_lower_device : Device → Cmd Ptr
  get_lower_device device = do
    ext ← load 8 (Device.as_raw_ptr device + sys.device_extension)
    load 8 ext

  module _ (kernel : Kernel) where
    abbrev pub kernel_completer : IrpCompleter
    kernel_completer = Wdm.kernel_completer sys kernel

    unfoldable pub forward_irp : IoRequest → Ptr → Cmd NtStatus
    forward_irp request lower = do
      let irp = Request.into_raw_irp request
      irp_skip_current_stack irp
      answer ← call kernel (io_call_driver lower irp)
      pure (from_raw answer.status)

    unfoldable pub on_create : Handler
    on_create device request = do
      Wdm.debug_print sys kernel "[hid-filter] IRP_MJ_CREATE\n"
      lower ← get_lower_device device
      forward_irp request lower

    unfoldable pub on_close : Handler
    on_close device request = do
      Wdm.debug_print sys kernel "[hid-filter] IRP_MJ_CLOSE\n"
      lower ← get_lower_device device
      forward_irp request lower

    unfoldable pub on_internal_device_control : Handler
    on_internal_device_control device request = do
      lower ← get_lower_device device
      forward_irp request lower

    unfoldable pub on_cleanup : Handler
    on_cleanup device request = do lower ← get_lower_device device; forward_irp request lower

    unfoldable pub on_read : Handler
    on_read device request = do
      Wdm.debug_print sys kernel "[hid-filter] IRP_MJ_READ -- forwarding\n"
      lower ← get_lower_device device
      forward_irp request lower

    unfoldable pub on_power : Handler
    on_power device request = do
      lower ← get_lower_device device
      let irp = Request.into_raw_irp request
      notify kernel (po_start_next_power_irp irp)
      irp_skip_current_stack irp
      answer ← call kernel (po_call_driver lower irp)
      pure (from_raw answer.status)

    unfoldable pub on_pnp : Handler
    on_pnp device request = do lower ← get_lower_device device; forward_irp request lower

    unfoldable pub driver : WdmDriver
    driver = record (defaults kernel_completer) {
      on_create = on_create;
      on_close = on_close;
      on_internal_device_control = on_internal_device_control;
      on_cleanup = on_cleanup;
      on_read = on_read;
      on_power = on_power;
      on_pnp = on_pnp;
    }

    -- The fields of the filter's device that are taken from the device below. `StackSize` is an `i8`.
    unfoldable pub configure : Ptr → Ptr → Cmd (Unit {0})
    configure filter_device lower = do
      ext ← load 8 (filter_device + sys.device_extension)
      store_at 8 ext lower
      size ← load 1 (lower + sys.stack_size)
      debug_assert (not (size == 0x7F))
      store_at 1 (filter_device + sys.stack_size) ((size + 1) % 2 ^ 8)
      lower_flags ← load 4 (lower + sys.flags)
      flags ← load 4 (filter_device + sys.flags)
      store_at 4 (filter_device + sys.flags)
          (bit_or flags (bit_and lower_flags (bit_or sys.do_buffered_io sys.do_direct_io)))
      merged ← load 4 (filter_device + sys.flags)
      store_at 4 (filter_device + sys.flags)
          (bit_and merged (2 ^ 32 - 1 - sys.do_device_initializing))

    -- `add_device_inner` from the call of `IoAttachDeviceToDeviceStack` on.
    unfoldable pub attach : Ptr → Ptr → Cmd NtStatus
    attach filter_device pdo = do
      lower ← call kernel (io_attach_device filter_device pdo)
      if lower.pointer == null
          then (do notify kernel (io_delete_device filter_device); pure Codes.unsuccessful)
          else (do
            configure filter_device lower.pointer
            Wdm.debug_print sys kernel "[hid-filter] AddDevice -- filter attached\n"
            pure Codes.success)

    unfoldable pub add_device_inner : DriverObject → Ptr → Cmd NtStatus
    add_device_inner d pdo = do
      created ← call kernel (
          io_create_device d.address (record {
            extension_size = size_of_extension;
            name = none;
            device_type = sys.file_device_keyboard;
          }))
      if not (eq_ℤ created.status sys.status_success)
          then pure (from_raw created.status)
          else attach created.pointer pdo

    unfoldable pub add_device : DriverObject → Ptr → Cmd ℤ
    add_device d pdo = do status ← add_device_inner d pdo; pure (Status.into_raw status)

    -- One turn of the loop of `driver_unload`: the next device.
    unfoldable pub detach : Ptr → Cmd Ptr
    detach device = do
      next ← load 8 (device + sys.next_device)
      ext ← load 8 (device + sys.device_extension)
      lower ← load 8 ext
      notify kernel (io_detach_device lower)
      notify kernel (io_delete_device device)
      pure next

    -- The loop on fuel, `none` when it runs out.
    unfoldable pub detach_all : ℕ → Ptr → Cmd (Option (Unit {0}))
    detach_all zero device = pure none
    detach_all (suc n) device = elim (device == null) [
      | true ↦ pure (some tt)
      | false ↦ (do next ← detach device; detach_all n next)
    ]

    unfoldable pub driver_unload : ℕ → DriverObject → Cmd (Option (Unit {0}))
    driver_unload fuel d = do
      Wdm.debug_print sys kernel "[hid-filter] DriverUnload -- detaching\n"
      detach_all fuel d.device_object

    -- The entries of `MajorFunction`, and `DriverUnload`.
    abbrev pub registered : List (Option Routine) → List (Option Routine)
    registered slots =
        let m0 = fill_slots (sys.irp_mj_maximum_function + 1) 0 slots in
        let m1 = set m0 sys.irp_mj_create (some dispatch_create) in
        let m2 = set m1 sys.irp_mj_close (some dispatch_close) in
        let m3 = set m2 sys.irp_mj_read (some dispatch_read) in
        let m4 = set m3 sys.irp_mj_internal_device_control (some dispatch_passthrough) in
        let m5 = set m4 sys.irp_mj_power (some dispatch_power) in
        set m5 sys.irp_mj_pnp (some dispatch_pnp)

    unfoldable pub driver_entry_inner : DriverObject → Cmd (NtStatus × DriverObject)
    driver_entry_inner d = do
      Wdm.debug_print sys kernel "[hid-filter] DriverEntry -- loading\n"
      if not d.has_extension then pure (Codes.unsuccessful, d) else (do
        Wdm.debug_print sys kernel "[hid-filter] DriverEntry -- ready\n"
        pure (
          Codes.success,
          record d {
            add_device_set = true;
            major_function = registered d.major_function;
            unload_set = true;
          },
        ))

    -- `DriverEntry`, and what it leaves in the driver object.
    unfoldable pub driver_entry : DriverObject → Cmd (ℤ × DriverObject)
    driver_entry d = do entered ← driver_entry_inner d; pure (Status.into_raw entered.0, entered.1)

    -- The dispatch routines that `dispatch_fn!` generates; that of the passthrough calls `on_pnp`.
    unfoldable pub routine : Routine → Option (Ptr → Ptr → Cmd ℤ)
    routine dispatch_create = some (dispatch_fn driver.on_create irp_current_stack)
    routine dispatch_close = some (dispatch_fn driver.on_close irp_current_stack)
    routine dispatch_read = some (dispatch_fn driver.on_read irp_current_stack)
    routine dispatch_power = some (dispatch_fn driver.on_power irp_current_stack)
    routine dispatch_pnp = some (dispatch_fn driver.on_pnp irp_current_stack)
    routine dispatch_passthrough = some (dispatch_fn driver.on_pnp irp_current_stack)
    routine other = none
