-- ===== src/Echo/Control.antt =====
-- `on_device_control` of the echo driver on every input.
use Prim.Native.String.{String}
use wdk_safe.Base.{
  ℕ, ◌+◌, ◌≤◌, ◌≡◌, ◌≢◌, inl, inr, refl, false, ◌||◌, some, ◌∷◌, ◌==◌, ltb, if◌then◌else◌, arith,
  Bool-cases, ==_iff,
}
use wdk_safe.Status.{NtStatus}
use wdk_safe.Status.Codes
use wdk_safe.Ioctl
use wdk_safe.Ioctl.{IoControlCode, wdk_sys_0_5_x64}
use wdk_safe.Memory.{Ptr, read_le, store}
use wdk_safe.Machine.{World, Outcome, ok, Kernel, dbg_print, ◌>>=◌, ◌>>◌}
use wdk_safe.Device.{Device}
use wdk_safe.Irp
use wdk_safe.Irp.Ownership.{CompletedOnce}
use wdk_safe.Driver.Defaults.{CompletesWith}
use wdk_safe.Request
use wdk_safe.Request.{IoRequest}
use wdk_safe.Machine.Access.{load_lem, store_at_lem}
use wdk_safe.Wdm
use wdk_safe.Wdm.{WdkSys}
use wdk_safe.Memory.Mapped.{IsMapped-store}
use wdk_safe.Wdm.Completion.{
  HasStatus, PrintsOnly, logged, finished, debug_print_lem, request_complete_lem,
  complete_with_info_lem,
}
use wdk_safe.Echo.{ioctl_echo, on_device_control, control, checked, echo, reply, kernel_completer}
use wdk_safe.Echo.Requests.{Inputs, echo_status, IsEcho, Answerable}

ioctl_echo_value : ioctl_echo.value ≡ 0x8000_2000
unfolding ioctl_echo
ioctl_echo_value = refl

module _ (sys : WdkSys) (kernel : Kernel) (prints : PrintsOnly sys kernel) (r : IoRequest)
    (w : World) (ready : HasStatus sys kernel (Irp.as_raw_ptr r.irp) w.mem) where
  abbrev pub irp : Ptr
  irp = Irp.as_raw_ptr r.irp

  -- The world in which the answer is completed.
  abbrev pub answer : ℕ → ℕ → World
  answer buffer value = record w {
    mem = store 8 (irp + 0x38) 4 (store 4 buffer value w.mem);
    effects = dbg_print "[ioctl-echo] echoing value\n" ∷ w.effects;
  }

  pub buffer_lem :
      (v : World) (buffer : ℕ)
      → buffer ≢ 0
      → read_le 8 (irp + 0x70) v.mem ≡ some buffer
      → Request.system_buffer r wdk_sys_0_5_x64 v ≡ ok (some buffer) v
  unfolding Request.system_buffer
  buffer_lem v buffer ne e = rw (load_lem 8 (irp + 0x70) buffer v e, ◌>>=◌) (ground arith)

  pub reply_lem :
      (buffer value : ℕ)
      → buffer ≢ 0
      → read_le 8 (irp + 0x70) w.mem ≡ some buffer
      → Answerable r buffer w.mem
      → reply sys kernel r value w
        ≡ ok Codes.success (finished sys kernel irp Codes.success (answer buffer value))
  unfolding reply
  reply_lem buffer value ne field a =
      let printed = logged sys kernel (dbg_print "[ioctl-echo] echoing value\n") w in
      let stored = record printed { mem = store 4 buffer value w.mem } in
      rw
        (
          debug_print_lem sys kernel "[ioctl-echo] echoing value\n" w prints,
          ◌>>=◌,
          buffer_lem printed buffer ne field,
          ◌>>=◌,
          store_at_lem 4 buffer value printed a.buffer_mapped,
          ◌>>=◌,
        )
        (complete_with_info_lem sys kernel r Codes.success 4 (irp + 0x38) stored a.info_aligned
          (IsMapped-store 4 8 buffer (irp + 0x38) value w.mem a.info_mapped)
          (IsMapped-store 4 4 buffer (irp + sys.io_status_status) value w.mem ready))

  -- The handler returned the status, after one completion of the request's IRP.
  abbrev Ends : Outcome NtStatus → NtStatus → Type 0
  Ends run status = (w' : World) × (run ≡ ok status w') × CompletedOnce irp w w'

  -- A completion in this world, or behind a line of print.
  complete-Ends :
      (status : NtStatus) → Ends (Request.complete (kernel_completer sys kernel) r status w) status
  complete-Ends status = (
    finished sys kernel irp status w,
    request_complete_lem sys kernel r status w ready,
    record {
      completed_once = λ p. refl;
      no_forward = λ p. refl;
      same_resources = λ s. (refl, refl, refl);
    },
  )

  control-Ends_unknown :
      Ends
        ((Wdm.debug_print sys kernel "[ioctl-echo] unknown IOCTL code\n"
            >> Request.complete (kernel_completer sys kernel) r Codes.invalid_device_request)
          w)
        Codes.invalid_device_request
  control-Ends_unknown =
      let text : String = "[ioctl-echo] unknown IOCTL code\n" in
      let printed = logged sys kernel (dbg_print text) w in
      (
        finished sys kernel irp Codes.invalid_device_request printed,
        rw (debug_print_lem sys kernel text w prints, ◌>>=◌)
            (request_complete_lem sys kernel r Codes.invalid_device_request printed ready),
        record {
          completed_once = λ p. refl;
          no_forward = λ p. refl;
          same_resources = λ s. (refl, refl, refl);
        },
      )

  checked-long :
      (buffer : ℕ)
      → read_le 8 (irp + 0x70) w.mem ≡ some buffer
      → (buffer ≢ 0 → Answerable r buffer w.mem)
      → Ends
          ((Request.system_buffer r wdk_sys_0_5_x64 >>= echo sys kernel r) w)
          (if buffer == 0 then Codes.invalid_parameter else Codes.success)
  unfolding echo Request.system_buffer
  checked-long buffer field answerable = elim (Bool-cases (buffer == 0)) [
    | inl absent ↦
        rw (load_lem 8 (irp + 0x70) buffer w field, ◌>>=◌, absent)
          (complete-Ends Codes.invalid_parameter)
    | inr present ↦
        let a = answerable (ground arith) in
        let (value, e) = a.buffer_mapped in
        (
          finished sys kernel irp Codes.success (answer buffer value),
          rw
              (
                load_lem 8 (irp + 0x70) buffer w field,
                ◌>>=◌,
                present,
                load_lem 4 buffer value w e,
                ◌>>=◌,
              )
              (reply_lem buffer value (ground arith) field a),
          record {
            completed_once = λ p. refl;
            no_forward = λ p. refl;
            same_resources = λ s. (refl, refl, refl);
          },
        )
  ]

  checked-Ends :
      (input output buffer : ℕ)
      → read_le 4 (r.stack + 0x10) w.mem ≡ some input
      → read_le 4 (r.stack + 0x08) w.mem ≡ some output
      → read_le 8 (irp + 0x70) w.mem ≡ some buffer
      → (4 ≤ input → 4 ≤ output → buffer ≢ 0 → Answerable r buffer w.mem)
      → Ends (checked sys kernel r w) (
          if ltb input 4 || ltb output 4
          then Codes.buffer_too_small
          else if buffer == 0
          then Codes.invalid_parameter
          else Codes.success)
  unfolding checked Request.input_buffer_length Request.output_buffer_length
  checked-Ends input output buffer ei eo eb answerable =
      rw
        (
          load_lem 4 (r.stack + 0x10) input w ei,
          ◌>>=◌,
          load_lem 4 (r.stack + 0x08) output w eo,
          ◌>>=◌,
        )
        (elim (Bool-cases (ltb input 4)) [
          | inl short ↦ rw short (complete-Ends Codes.buffer_too_small)
          | inr long_input ↦ elim (Bool-cases (ltb output 4)) [
            | inl short ↦ rw (long_input, short) (complete-Ends Codes.buffer_too_small)
            | inr long_output ↦
                rw (long_input, long_output)
                  (checked-long buffer eb (answerable (ground arith) (ground arith)))
          ]
        ])

  control-Ends :
      (code input output buffer : ℕ)
      → Inputs r code input output buffer w.mem
      → (IsEcho code input output buffer → Answerable r buffer w.mem)
      → Ends
          (control sys kernel r (some (Ioctl.from_raw code)) w)
          (echo_status code input output buffer)
  unfolding echo_status ioctl_echo control
  control-Ends code input output buffer i answerable = elim (Bool-cases (code == 0x8000_2000)) [
    | inl own ↦ rw own (
        checked-Ends input output buffer i.input_field i.output_field i.buffer_field
          (λ hi ho hb. answerable ((==_iff code 0x8000_2000).0 own, hi, ho, hb)))
    | inr other ↦ rw other control-Ends_unknown
  ]

-- On a request whose parameters are in memory as the I/O manager leaves them, `on_device_control`
-- returns, whatever they are: the status is `INVALID_DEVICE_REQUEST` for any other code than
-- `IOCTL_ECHO` (also for no code), else `BUFFER_TOO_SMALL` if a length is below four, else
-- `INVALID_PARAMETER` for a null buffer, else `SUCCESS`; and the request's IRP is completed once and
-- nothing is forwarded. Conditions: printing changes no memory, the IRP's status field is there, and
-- for a request that is answered the buffer and an aligned information field are there and the
-- buffer does not overlap the pointer to it.
pub on_device_control-completes :
    (sys : WdkSys) (kernel : Kernel)
    → PrintsOnly sys kernel
    → (device : Device) (r : IoRequest) (w : World) (code input output buffer : ℕ)
    → HasStatus sys kernel (Irp.as_raw_ptr r.irp) w.mem
    → Inputs r code input output buffer w.mem
    → (IsEcho code input output buffer → Answerable r buffer w.mem)
    → CompletesWith (on_device_control sys kernel) (echo_status code input output buffer) device r w
unfolding on_device_control Request.ioctl_code echo_status control
on_device_control-completes sys kernel prints device r w code input output buffer ready i
      answerable =
    elim (Bool-cases (code == 0)) [
      | inl zero_code ↦
          let other : (code == 0x8000_2000) ≡ false = ground arith in
          rw (load_lem 4 (r.stack + 0x18) code w i.code_field, ◌>>=◌, zero_code, other)
            (complete-Ends sys kernel prints r w ready Codes.invalid_device_request)
      | inr some_code ↦
          rw (load_lem 4 (r.stack + 0x18) code w i.code_field, ◌>>=◌, some_code)
            (control-Ends sys kernel prints r w ready code input output buffer i answerable)
    ]
