-- ===== src/Echo/Contract.antt =====
-- The echo driver keeps the contract of a driver.
use Prim.Native.String.{String}
use wdk_safe.Base.{ℕ, refl, arith}
use wdk_safe.Status.Codes
use wdk_safe.Machine.{World, Kernel, dbg_print, ◌>>=◌, ◌>>◌}
use wdk_safe.Device.{Device}
use wdk_safe.Irp
use wdk_safe.Request
use wdk_safe.Request.{IoRequest}
use wdk_safe.Driver.{defaults}
use wdk_safe.Driver.Defaults.{Major, create, close, device_control, method}
use wdk_safe.Driver.Disposal.{Disposes, Ends, CompletedOnce-DisposedOnce, defaults-Disposes}
use wdk_safe.Wdm
use wdk_safe.Wdm.{WdkSys}
use wdk_safe.Wdm.Completion.{
  HasStatus, PrintsOnly, kernel_completer-IsCompleter, logged, finished, debug_print_lem,
  request_complete_lem,
}
use wdk_safe.Echo.{driver, on_create, on_close}
use wdk_safe.Echo.Control.{on_device_control-completes}
use wdk_safe.Echo.Requests.{Inputs, IsEcho, Answerable, echo_status}

-- The parameters of a request for device control, in memory.
abbrev pub HasParameters : Major → IoRequest → World → Type 0
HasParameters device_control r w =
    (code : ℕ) × (input : ℕ) × (output : ℕ) × (buffer : ℕ) × Inputs r code input output buffer w.mem
    × (IsEcho code input output buffer → Answerable r buffer w.mem)
HasParameters other r w = Unit

abbrev pub IsEchoReady : WdkSys → Kernel → Major → Device → IoRequest → World → Type 0
IsEchoReady sys kernel major device r w =
    HasStatus sys kernel (Irp.as_raw_ptr r.irp) w.mem × HasParameters major r w

module _ (sys : WdkSys) (kernel : Kernel) (prints : PrintsOnly sys kernel) (device : Device)
    (r : IoRequest) (w : World) (ready : HasStatus sys kernel (Irp.as_raw_ptr r.irp) w.mem) where
  default-Ends :
      (major : Major) → Ends (method (defaults (Wdm.kernel_completer sys kernel)) major) device r w
  default-Ends major =
      (defaults-Disposes (kernel_completer-IsCompleter sys kernel)).ends major device r w ready

  printed-Ends :
      (text : String)
      → Ends
          (λ d q.
            Wdm.debug_print sys kernel text
            >> Request.complete (Wdm.kernel_completer sys kernel) q Codes.success)
          device
          r
          w
  printed-Ends text =
      let w' =
        finished sys kernel (Irp.as_raw_ptr r.irp) Codes.success
          (logged sys kernel (dbg_print text) w) in
      (
        Codes.success,
        w',
        rw (debug_print_lem sys kernel text w prints, ◌>>=◌)
            (request_complete_lem sys kernel r Codes.success (logged sys kernel (dbg_print text) w)
              ready),
        record { disposed = λ p. omega arith; same_resources = λ s. (refl, refl, refl) },
      )

  -- Every method of the echo driver, its own or a default, ends and disposes of its IRP exactly once.
  -- Conditions: printing changes no memory, the status field is there, and for device control the
  -- parameters are in memory and an answered request has its buffer and an aligned information
  -- field, apart from the pointer to the buffer.
  pub method-Ends_echo :
      (major : Major) → HasParameters major r w → Ends (method (driver sys kernel) major) device r w
  unfolding driver on_create on_close
  method-Ends_echo create h = printed-Ends "[ioctl-echo] IRP_MJ_CREATE\n"
  method-Ends_echo close h = printed-Ends "[ioctl-echo] IRP_MJ_CLOSE\n"
  method-Ends_echo device_control (code, input, output, buffer, inputs, answerable) =
      let (w', run, once) =
        on_device_control-completes sys kernel prints device r w code input output buffer ready
          inputs answerable in
      (
        echo_status code input output buffer,
        w',
        run,
        CompletedOnce-DisposedOnce (Irp.as_raw_ptr r.irp) w w' once,
      )
  method-Ends_echo other h = default-Ends other

-- The contract, for the requests that are ready.
pub driver-Disposes_echo :
    (sys : WdkSys) (kernel : Kernel)
    → PrintsOnly sys kernel
    → Disposes (driver sys kernel) (IsEchoReady sys kernel)
driver-Disposes_echo sys kernel prints = record {
  ends =
      λ major device r w ready. method-Ends_echo sys kernel prints device r w ready.0 major ready.1;
}
