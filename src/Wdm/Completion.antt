-- ===== src/Wdm/Completion.antt =====
-- `KernelCompleter` keeps the contract of a completer, and what the kernel sees when it is called.
use Prim.Native.String.{String}
use wdk_safe.Base.{ℕ, ◌+◌, ◌%◌, ◌≡◌, refl, ◌∷◌, ℤ, as_u32}
use wdk_safe.Memory.{Ptr, Memory, IsMapped, store}
use wdk_safe.Memory.Mapped.{IsMapped-store}
use wdk_safe.Machine.Access.{store_at_lem}
use wdk_safe.Machine.{World, ok, Kernel, Effect, io_complete_request, dbg_print, completed, ◌>>=◌}
use wdk_safe.Irp.{IrpCompleter}
use wdk_safe.Irp.Completers.{IsCompleter}
use wdk_safe.Irp
use wdk_safe.Irp.Ownership.{CompletedOnce}
use wdk_safe.Status.{NtStatus}
use wdk_safe.Request
use wdk_safe.Request.{IoRequest}
use wdk_safe.Request.Completion.{set_information_ptr_lem}
use wdk_safe.Wdm.{WdkSys, kernel_completer, debug_print}

module _ (sys : WdkSys) (kernel : Kernel) where
  -- The status field of the IRP is there.
  abbrev pub HasStatus : Ptr → Memory → Type 0
  HasStatus irp m = IsMapped 4 (irp + sys.io_status_status) m

  -- The world in which `IofCompleteRequest` is called.
  abbrev pub seen : Ptr → ℤ → World → World
  seen irp status w = record w { mem = store 4 (irp + sys.io_status_status) (as_u32 status) w.mem }

  -- The world after the kernel has answered a call.
  abbrev pub answered : Effect → World → World
  answered e w = record w { mem = (kernel e w).mem; effects = e ∷ w.effects }

  pub kernel_completer_lem :
      (irp : Ptr) (status : ℤ) (w : World)
      → HasStatus irp w.mem
      → (kernel_completer sys kernel).complete irp status w
        ≡ ok tt (answered (io_complete_request irp sys.io_no_increment) (seen irp status w))
  unfolding kernel_completer
  kernel_completer_lem irp status w ready =
      rw (store_at_lem 4 (irp + sys.io_status_status) (as_u32 status) w ready, ◌>>=◌)

  pub kernel_completer-IsCompleter : IsCompleter (kernel_completer sys kernel) HasStatus
  kernel_completer-IsCompleter = record {
    runs = λ irp status w ready. (
      answered (io_complete_request irp sys.io_no_increment) (seen irp status w),
      kernel_completer_lem irp status w ready,
      record {
        same_completions = λ p. refl;
        same_forwards = λ p. refl;
        same_resources = λ s. (refl, refl, refl);
      },
    );
  }

  -- The kernel's printing changes no memory that the driver reads.
  abbrev pub PrintsOnly : Type 0
  PrintsOnly = (text : String) (w : World) → (kernel (dbg_print text) w).mem ≡ w.mem

  -- The world with a call logged.
  abbrev pub logged : Effect → World → World
  logged e w = record w { effects = e ∷ w.effects }

  pub debug_print_lem :
      (text : String) (w : World)
      → PrintsOnly
      → debug_print sys kernel text w ≡ ok tt (logged (dbg_print text) w)
  unfolding debug_print
  debug_print_lem text w prints = rw (prints text w)

  -- The world that a completion with `KernelCompleter` leaves.
  abbrev pub finished : Ptr → NtStatus → World → World
  finished irp status w =
      answered (io_complete_request irp sys.io_no_increment)
        (seen irp status.value (logged (completed irp status.value) w))

  pub finished-CompletedOnce :
      (irp : Ptr) (status : NtStatus) (w : World) → CompletedOnce irp w (finished irp status w)
  finished-CompletedOnce irp status w = record {
    completed_once = λ p. refl;
    no_forward = λ p. refl;
    same_resources = λ s. (refl, refl, refl);
  }

  pub request_complete_lem :
      (r : IoRequest) (status : NtStatus) (w : World)
      → HasStatus (Irp.as_raw_ptr r.irp) w.mem
      → Request.complete (kernel_completer sys kernel) r status w
        ≡ ok status (finished (Irp.as_raw_ptr r.irp) status w)
  unfolding Request.complete Irp.complete
  request_complete_lem r status w ready = rw (
    kernel_completer_lem (Irp.as_raw_ptr r.irp) status.value
        (logged (completed (Irp.as_raw_ptr r.irp) status.value) w) ready,
    ◌>>=◌,
  )

  pub complete_with_info_lem :
      (r : IoRequest) (status : NtStatus) (bytes info : ℕ) (w : World)
      → info % 8 ≡ 0
      → IsMapped 8 info w.mem
      → HasStatus (Irp.as_raw_ptr r.irp) w.mem
      → Request.complete_with_info (kernel_completer sys kernel) r status bytes info w
        ≡ ok status
            (finished (Irp.as_raw_ptr r.irp) status (record w { mem = store 8 info bytes w.mem }))
  unfolding Request.complete_with_info Irp.complete
  complete_with_info_lem r status bytes info w aligned mapped ready =
      let irp = Irp.as_raw_ptr r.irp in
      let set = record w { mem = store 8 info bytes w.mem } in
      rw (
        set_information_ptr_lem info bytes w aligned mapped,
        ◌>>=◌,
        kernel_completer_lem irp status.value (logged (completed irp status.value) set)
            (IsMapped-store 8 4 info (irp + sys.io_status_status) bytes w.mem ready),
      )
