-- ===== src/NullDevice/Handlers.antt =====
-- The methods of `NullDeviceDriver`, overridden and inherited.
use Prim.Native.String.{String}
use wdk_safe.Base.{◌+◌, ◌≡◌, refl, as_u32}
use wdk_safe.Status.{NtStatus}
use wdk_safe.Status.Codes
use wdk_safe.Memory.{Ptr, AreDisjoint, read_le}
use wdk_safe.Memory.Laws.{read_le-store_disjoint}
use wdk_safe.Machine.{
  World, Outcome, ok, Kernel, completed, dbg_print, io_complete_request, ◌>>=◌, ◌>>◌,
}
use wdk_safe.Device.{Device}
use wdk_safe.Irp
use wdk_safe.Irp.Ownership.{CompletedOnce}
use wdk_safe.Request
use wdk_safe.Request.{IoRequest}
use wdk_safe.Driver.{defaults}
use wdk_safe.Driver.Defaults.{Major, create, close, read, write, cleanup, method}
use wdk_safe.Wdm
use wdk_safe.Wdm.{WdkSys}
use wdk_safe.Wdm.Completion.{
  HasStatus, PrintsOnly, answered, logged, seen, finished-CompletedOnce, debug_print_lem,
  request_complete_lem,
}
use wdk_safe.NullDevice.{driver, on_create, on_close, on_read, on_write, kernel_completer}

-- The majors that the driver answers with success.
abbrev pub null_status : Major → NtStatus
null_status create = Codes.success
null_status close = Codes.success
null_status read = Codes.success
null_status write = Codes.success
null_status cleanup = Codes.success
null_status other = Codes.not_supported

module _ (sys : WdkSys) (kernel : Kernel) (prints : PrintsOnly sys kernel) (r : IoRequest)
    (w : World) (ready : HasStatus sys kernel (Irp.as_raw_ptr r.irp) w.mem)
    (apart : AreDisjoint 4
      (Irp.as_raw_ptr r.irp + sys.io_status_status)
      8
      (Irp.as_raw_ptr r.irp + 0x38)) where
  abbrev pub irp : Ptr
  irp = Irp.as_raw_ptr r.irp

  -- The run ended in a call of `IofCompleteRequest` that saw the Information field as it was before
  -- the handler, and it was the only completion.
  abbrev pub CompletesUntouched : Outcome NtStatus → NtStatus → Type 0
  CompletesUntouched run status =
      (v : World) × (run
        ≡ ok status (answered sys kernel (io_complete_request irp sys.io_no_increment) v))
      × CompletedOnce irp w (answered sys kernel (io_complete_request irp sys.io_no_increment) v)
      × (read_le 8 (irp + 0x38) v.mem ≡ read_le 8 (irp + 0x38) w.mem)

  quiet :
      (status : NtStatus)
      → CompletesUntouched (Request.complete (kernel_completer sys kernel) r status w) status
  quiet status = (
    _,
    request_complete_lem sys kernel r status w ready,
    finished-CompletedOnce sys kernel irp status w,
    read_le-store_disjoint 4 8 (irp + sys.io_status_status) (irp + 0x38) (as_u32 status.value) w.mem
        apart,
  )

  printed :
      (text : String)
      → CompletesUntouched
          ((Wdm.debug_print sys kernel text
              >> Request.complete (kernel_completer sys kernel) r Codes.success)
            w)
          Codes.success
  printed text = (
    seen sys kernel irp Codes.success.value (
        logged sys kernel (completed irp Codes.success.value)
          (logged sys kernel (dbg_print text) w)),
    rw (debug_print_lem sys kernel text w prints, ◌>>=◌)
        (request_complete_lem sys kernel r Codes.success (logged sys kernel (dbg_print text) w)
          ready),
    record {
      completed_once = λ p. refl;
      no_forward = λ p. refl;
      same_resources = λ s. (refl, refl, refl);
    },
    read_le-store_disjoint 4 8 (irp + sys.io_status_status) (irp + 0x38)
        (as_u32 Codes.success.value) w.mem apart,
  )

  -- Every method, overridden or inherited, returns the documented status of its major function and
  -- completes the IRP exactly once, in a call that sees the Information field as the I/O manager
  -- had set it. Conditions: printing changes no memory, and the status field is there and apart
  -- from the information field.
  pub handlers-CompletesUntouched :
      (major : Major) (device : Device)
      → CompletesUntouched (method (driver sys kernel) major device r w) (null_status major)
  unfolding driver defaults on_create on_close on_read on_write
  handlers-CompletesUntouched create device = printed "[null-device] IRP_MJ_CREATE\n"
  handlers-CompletesUntouched close device = printed "[null-device] IRP_MJ_CLOSE\n"
  handlers-CompletesUntouched read device = printed "[null-device] IRP_MJ_READ -- returning EOF\n"
  handlers-CompletesUntouched write device = printed "[null-device] IRP_MJ_WRITE -- discarding\n"
  handlers-CompletesUntouched cleanup device = quiet Codes.success
  handlers-CompletesUntouched other device = quiet Codes.not_supported
