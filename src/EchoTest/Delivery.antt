-- ===== src/EchoTest/Delivery.antt =====
-- The test program and the echo driver together, with the I/O manager between them.
use wdk_safe.Base.{ℕ, ◌+◌, ◌*◌, ◌/◌, ◌^◌, ◌≤◌, ◌<◌, ◌≡◌, ◌≢◌, refl, ◌∙◌, some, List, ℤ, arith}
use wdk_safe.Memory.{Ptr, null, read_le, IsBytes, AreDisjoint}
use wdk_safe.Memory.Laws.{read_le-same}
use wdk_safe.Machine.{World, Cmd, ok, Kernel, io_complete_request}
use wdk_safe.Machine.Access.{load_lem}
use wdk_safe.Status
use wdk_safe.Status.Codes
use wdk_safe.Thunk.{dispatch_fn}
use wdk_safe.Thunk.Dispatch.{request_of, device_of, dispatch_fn-returns}
use wdk_safe.Wdm.{WdkSys, irp_current_stack}
use wdk_safe.Wdm.Completion.{HasStatus, PrintsOnly, answered}
use wdk_safe.Wdm.Objects.{dispatch_device_control}
use wdk_safe.Echo.{on_device_control, driver, routine}
use wdk_safe.Echo.Requests.{Inputs, Answerable}
use wdk_safe.Echo.Answer.{AreSeparate, Echoed, on_device_control-echo}
use wdk_safe.EchoTest.{
  Win32, IoAnswer, Session, send_value, main, exit_status, final, ioctl_echo, size_of_request,
  size_of_response,
}
use wdk_safe.EchoTest.Runs.{handle, answer, IsEchoed, pass_line, latest, main-Reports}

module _ (sys : WdkSys) (kernel : Kernel) where
  -- How the I/O manager serves `DeviceIoControl` with a `METHOD_BUFFERED` code: it copies the input
  -- to a system buffer, makes an IRP with the parameters in it and calls the dispatch routine; when
  -- the driver has completed the IRP with success it copies as many bytes as `IoStatus.Information`
  -- says from the system buffer to the output, lowest byte first. At the offset 0x70 of the IRP is
  -- `UserBuffer`, the caller's output buffer.
  pub record Delivers (input input_size output output_size : ℕ) (reply : IoAnswer) : Type 0 where
    pub device : Ptr
    pub irp : Ptr
    pub stack : Ptr
    pub system_buffer : Ptr
    pub user_buffer : Ptr
    pub w : World
    pub device_there : device ≢ null
    pub irp_there : irp ≢ null
    pub stack_there : stack ≢ null
    pub user_there : user_buffer ≢ null
    pub leads : read_le 8 (irp + sys.current_stack_location) w.mem ≡ some stack
    pub has_status : HasStatus sys kernel irp w.mem
    pub inputs : Inputs (request_of irp stack) ioctl_echo input_size output_size user_buffer w.mem
    pub answerable : Answerable (request_of irp stack) user_buffer w.mem
    pub input_there : read_le 4 system_buffer w.mem ≡ some input
    pub bytes : IsBytes w.mem
    pub separate : AreSeparate sys (request_of irp stack) user_buffer
    pub system_user : AreDisjoint 4 system_buffer 4 user_buffer
    pub system_info : AreDisjoint 4 system_buffer 8 (irp + 0x38)
    pub system_status : AreDisjoint 4 system_buffer 4 (irp + sys.io_status_status)
    pub copies :
        (f : Ptr → Ptr → Cmd ℤ) (v : World) (n x : ℕ)
        → routine sys kernel dispatch_device_control ≡ some f
        → f device irp w
          ≡ ok
              (Status.into_raw Codes.success)
              (answered sys kernel (io_complete_request irp sys.io_no_increment) v)
        → read_le 8 (irp + 0x38) v.mem ≡ some n
        → read_le 4 (irp + sys.io_status_status) v.mem ≡ some 0
        → n ≤ output_size
        → read_le n system_buffer v.mem ≡ some x
        → (reply.ok ≢ 0)
          × (reply.bytes_returned ≡ n)
          × (reply.output ≡ x + output / 256 ^ n * 256 ^ n)

  -- The system buffer is as it was when the IRP is completed.
  system_buffer_kept :
      {input input_size output output_size : ℕ} {reply : IoAnswer}
      (d : Delivers input input_size output output_size reply) (old : ℕ) (v : World)
      → Echoed sys (request_of d.irp d.stack) d.user_buffer old d.w v
      → read_le 4 d.system_buffer v.mem ≡ some input
  system_buffer_kept d old v echoed =
      read_le-same 4 d.system_buffer d.w.mem v.mem (λ q low high.
        (echoed.untouched q (ground (arith, d.system_user)) (ground (arith, d.system_info))
          (ground (arith, d.system_status))))
      ∙ d.input_there

  abbrev pub dispatch : Ptr → Ptr → Cmd ℤ
  dispatch = dispatch_fn (on_device_control sys kernel) (irp_current_stack sys)

  pub dispatch_registered : routine sys kernel dispatch_device_control ≡ some dispatch
  unfolding routine driver
  dispatch_registered = refl

  -- A value that is delivered comes back.
  pub comes_back :
      PrintsOnly sys kernel
      → {input output : ℕ} {reply : IoAnswer} → Delivers input 4 output 4 reply
      → output < 256 ^ 4
      → (reply.ok ≢ 0) × (reply.bytes_returned ≡ 4) × (reply.output ≡ input)
  unfolding irp_current_stack
  comes_back prints {input} {output} d small =
      let (old, held) = d.answerable.buffer_mapped in
      let r = request_of d.irp d.stack in
      let (v, run, echoed) =
        on_device_control-echo sys kernel prints (device_of d.device) r d.w ioctl_echo 4 4
          d.user_buffer old d.has_status d.inputs (refl, omega arith, omega arith, d.user_there)
          d.answerable held d.bytes d.separate in
      let returns =
        dispatch_fn-returns (on_device_control sys kernel) (irp_current_stack sys) d.device d.irp
          d.stack d.w (load_lem 8 (d.irp + sys.current_stack_location) d.stack d.w d.leads)
          Codes.success _ d.device_there d.irp_there d.stack_there run in
      let (success, count, copied) =
        d.copies dispatch v 4 input dispatch_registered returns echoed.information echoed.status
          (omega arith) (system_buffer_kept d old v echoed) in
      (success, count, omega arith)

module _ (sys : WdkSys) (kernel : Kernel) (win : Win32) (args : List (List ℕ))
    (s : Session win) where
  -- Whatever value the arguments ask for, the program ends with the exit code 0 and reports that
  -- the echo is correct, if the device is opened and the I/O manager serves the request as
  -- documented for `METHOD_BUFFERED`: it copies the value into a system buffer, runs the driver's
  -- registered routine on an IRP that holds the parameters of the call and, when this has completed
  -- the IRP with success, copies as many bytes as the driver has counted back from the system
  -- buffer. Conditions: printing changes no memory; the device, the IRP, its stack location and the
  -- caller's output buffer, to which the offset 0x70 of the IRP leads, are not null; that buffer,
  -- the system buffer and the fields of the IRP are there and apart, and the information field is
  -- aligned; and memory holds bytes.
  pub main-echoes :
      PrintsOnly sys kernel
      → handle win args s ≢ win.invalid_handle_value
      → Delivers sys kernel (send_value args) size_of_request 0 size_of_response (answer win args s)
      → (exit_status win (main win args s) ≡ 0)
        × (latest (final win (main win args s)).lines ≡ some pass_line)
  main-echoes prints valid delivered =
      let (success, count, back) = comes_back sys kernel prints delivered (omega arith) in
      let reports = main-Reports win args s in
      let echoed : IsEchoed win args s = (valid, success, back) in
      (reports.exit_zero.1 echoed, reports.pass_last echoed)
