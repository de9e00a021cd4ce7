-- ===== src/Echo/Answer.antt =====
-- What an answered `IOCTL_ECHO` hands to the I/O manager.
use wdk_safe.Base.{
  ℕ, ◌+◌, ◌^◌, ◌≤◌, ◌<◌, ◌≡◌, ◌⊎◌, refl, sym, ap, ◌∙◌, false, true, some, pos, as_u32, as_i32, ◌==◌,
  ltb, arith,
}
use wdk_safe.Status.Codes
use wdk_safe.Memory.{Ptr, Memory, read_le, store, IsBytes, AreDisjoint}
use wdk_safe.Memory.Laws.{read_le-store, read_le-store_disjoint, read_le-lt, store-outside}
use wdk_safe.Machine.{World, ok, Kernel, completed, io_complete_request, ◌>>=◌}
use wdk_safe.Machine.Access.{load_lem}
use wdk_safe.Device.{Device}
use wdk_safe.Irp
use wdk_safe.Request
use wdk_safe.Request.{IoRequest}
use wdk_safe.Wdm.{WdkSys}
use wdk_safe.Wdm.Completion.{HasStatus, PrintsOnly, answered, seen, logged, finished}
use wdk_safe.Echo.{ioctl_echo, on_device_control, control, checked, echo}
use wdk_safe.Echo.Control.{answer, reply_lem}
use wdk_safe.Echo.Requests.{Inputs, IsEcho, Answerable}

module _ (sys : WdkSys) (kernel : Kernel) (prints : PrintsOnly sys kernel) (device : Device)
    (r : IoRequest) (w : World) (code input output buffer value : ℕ)
    (ready : HasStatus sys kernel (Irp.as_raw_ptr r.irp) w.mem)
    (i : Inputs r code input output buffer w.mem) (own : IsEcho code input output buffer)
    (a : Answerable r buffer w.mem) (e : read_le 4 buffer w.mem ≡ some value) where
  abbrev irp : Ptr
  irp = Irp.as_raw_ptr r.irp

  -- The exact run.
  answer_run :
      on_device_control sys kernel device r w
      ≡ ok Codes.success
          (finished sys kernel irp Codes.success (answer sys kernel prints r w ready buffer value))
  unfolding on_device_control Request.ioctl_code control ioctl_echo checked
      Request.input_buffer_length Request.output_buffer_length Request.system_buffer echo
  answer_run =
      let nonzero : (code == 0) ≡ false = ground (arith, own.0) in
      let known : (code == 0x8000_2000) ≡ true = ground (arith, own.0) in
      let long_input : ltb input 4 ≡ false = ground (arith, own.1) in
      let long_output : ltb output 4 ≡ false = ground (arith, own.2) in
      let present : (buffer == 0) ≡ false = ground (arith, own.3) in
      rw
        (
          load_lem 4 (r.stack + 0x18) code w i.code_field,
          ◌>>=◌,
          nonzero,
          known,
          load_lem 4 (r.stack + 0x10) input w i.input_field,
          ◌>>=◌,
          load_lem 4 (r.stack + 0x08) output w i.output_field,
          ◌>>=◌,
          long_input,
          long_output,
          load_lem 8 (irp + 0x70) buffer w i.buffer_field,
          ◌>>=◌,
          present,
          load_lem 4 buffer value w e,
          ◌>>=◌,
        )
        (reply_lem sys kernel prints r w ready buffer value own.3 i.buffer_field a)

  -- The world in which `IofCompleteRequest` is called.
  handed : World
  handed =
      seen sys kernel irp (pos 0) (
        logged sys kernel (completed irp (pos 0)) (answer sys kernel prints r w ready buffer value))

  success_run :
      on_device_control sys kernel device r w
      ≡ ok Codes.success (answered sys kernel (io_complete_request irp sys.io_no_increment) handed)
  unfolding handed as_i32
  success_run = answer_run

-- The three ranges of memory that the answer is written to do not meet.
pub record AreSeparate (sys : WdkSys) (r : IoRequest) (buffer : ℕ) : Type 0 where
  pub buffer_info : AreDisjoint 4 buffer 8 (Irp.as_raw_ptr r.irp + 0x38)
  pub buffer_status : AreDisjoint 4 buffer 4 (Irp.as_raw_ptr r.irp + sys.io_status_status)
  pub info_status :
      AreDisjoint 8 (Irp.as_raw_ptr r.irp + 0x38) 4 (Irp.as_raw_ptr r.irp + sys.io_status_status)

-- What the I/O manager is given: the value, four bytes of it, and success; all other memory is as
-- before.
pub record Echoed (sys : WdkSys) (r : IoRequest) (buffer value : ℕ) (w v : World) : Type 0 where
  pub value_back : read_le 4 buffer v.mem ≡ some value
  pub information : read_le 8 (Irp.as_raw_ptr r.irp + 0x38) v.mem ≡ some 4
  pub status : read_le 4 (Irp.as_raw_ptr r.irp + sys.io_status_status) v.mem ≡ some 0
  pub untouched :
      (q : Ptr)
      → (q < buffer) ⊎ (buffer + 4 ≤ q)
      → (q < Irp.as_raw_ptr r.irp + 0x38) ⊎ (Irp.as_raw_ptr r.irp + 0x38 + 8 ≤ q)
      → (q < Irp.as_raw_ptr r.irp + sys.io_status_status)
        ⊎ (Irp.as_raw_ptr r.irp + sys.io_status_status + 4 ≤ q)
      → v.mem q ≡ w.mem q

module _ (sys : WdkSys) (r : IoRequest) (buffer value : ℕ) (m : Memory) where
  abbrev info : Ptr
  info = Irp.as_raw_ptr r.irp + 0x38

  abbrev status_field : Ptr
  status_field = Irp.as_raw_ptr r.irp + sys.io_status_status

  with_value : Memory
  with_value = store 4 buffer value m

  with_info : Memory
  unfolding with_value
  with_info = store 8 info 4 with_value

  with_status : Memory
  unfolding with_info
  with_status = store 4 status_field 0 with_info

  written :
      (w v : World)
      → w.mem ≡ m
      → v.mem ≡ with_status
      → value < 256 ^ 4
      → AreSeparate sys r buffer
      → Echoed sys r buffer value w v
  unfolding with_status
  written w v ew ev small apart = record {
    value_back =
        ap (read_le 4 buffer) ev
        ∙ read_le-store_disjoint 4 4 status_field buffer 0 with_info
            (ground (arith, apart.buffer_status))
        ∙ read_le-store_disjoint 8 4 info buffer 4 with_value (ground (arith, apart.buffer_info))
        ∙ read_le-store 4 buffer value m small;
    information =
        ap (read_le 8 info) ev
        ∙ read_le-store_disjoint 4 8 status_field info 0 with_info
            (ground (arith, apart.info_status))
        ∙ read_le-store 8 info 4 with_value (omega arith);
    status =
        ap (read_le 4 status_field) ev ∙ read_le-store 4 status_field 0 with_info (omega arith);
    untouched = λ q b n s.
        ap (λ (x : Memory). x q) ev
        ∙ store-outside 4 status_field 0 with_info q s
        ∙ store-outside 8 info 4 with_value q n
        ∙ store-outside 4 buffer value m q b
        ∙ sym (ap (λ (x : Memory). x q) ew);
  }

-- An answered request ends in `SUCCESS` by one call of `IofCompleteRequest`, in a world in which the
-- buffer holds the value that came in it, `IoStatus.Information` holds 4, `IoStatus.Status` holds 0,
-- and every other byte is as it was. Conditions: as for `on_device_control-completes`, the code is
-- `IOCTL_ECHO`, both lengths are at least four and the buffer is not null, memory holds bytes, and
-- the buffer and the two fields of the IRP do not overlap.
pub on_device_control-echo :
    (sys : WdkSys) (kernel : Kernel)
    → PrintsOnly sys kernel
    → (device : Device) (r : IoRequest) (w : World) (code input output buffer value : ℕ)
    → HasStatus sys kernel (Irp.as_raw_ptr r.irp) w.mem
    → Inputs r code input output buffer w.mem
    → IsEcho code input output buffer
    → Answerable r buffer w.mem
    → read_le 4 buffer w.mem ≡ some value
    → IsBytes w.mem
    → AreSeparate sys r buffer
    → (v : World) × (on_device_control sys kernel device r w
        ≡ ok Codes.success (
            answered sys kernel (io_complete_request (Irp.as_raw_ptr r.irp) sys.io_no_increment) v))
      × Echoed sys r buffer value w v
unfolding handed with_status as_u32
on_device_control-echo sys kernel prints device r w code input output buffer value ready i own a e
      bytes apart =
    let v = handed sys kernel prints device r w code input output buffer value ready i own a e in
    (
      v,
      success_run sys kernel prints device r w code input output buffer value ready i own a e,
      written sys r buffer value w.mem w v refl refl (read_le-lt 4 buffer w.mem value bytes e)
          apart,
    )
