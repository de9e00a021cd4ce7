-- ===== src/Tests/Stack.antt =====
-- Tests of a stack of filters: one device of the filter above another driver.
use wdk_safe.Base.{
  ℕ, ◌+◌, ◌≡◌, refl, Option, none, some, [], ◌∷◌, ℤ, pos, arith, ◌==◌, if◌then◌else◌,
}
use wdk_safe.Memory.{Ptr, read_le}
use wdk_safe.Machine.{World, ok, Kernel, Cmd, io_call_driver, po_start_next_power_irp}
use wdk_safe.Driver.Defaults.{pnp, method}
use wdk_safe.Thunk.{dispatch_fn}
use wdk_safe.Wdm.{irp_current_stack}
use wdk_safe.Wdm.Completion.{PrintsOnly}
use wdk_safe.HidFilter.{driver}
use wdk_safe.HidFilter.Forward.{filtered_pnp}
use wdk_safe.HidFilter.Stack.{advanced, CallsRoutine, Answers, IsServed, stack-IsServed}
use wdk_safe.Tests.Fixtures.{world, x64}
use wdk_safe.Tests.Dispatch.{memory, memory-HasNext, memory-HasLower, memory-IsBytes}

or_zero : Option ℕ → ℕ
or_zero none = 0
or_zero (some n) = n

-- A kernel whose calls of a lower driver advance the IRP and succeed.
calling_kernel : Kernel
unfolding or_zero
calling_kernel (io_call_driver lower irp) w = record {
  mem =
      advanced x64 irp (or_zero (read_le 1 (irp + 0x43) w.mem))
        (or_zero (read_le 8 (irp + 0xB8) w.mem)) w.mem;
  status = pos 0;
  pointer = 0;
}
calling_kernel e w = record { mem = w.mem; status = pos 0; pointer = 0 }

routine_of : Ptr → Ptr → Ptr → Cmd ℤ
routine_of d =
    if d == 0x9000
    then dispatch_fn (method (driver x64 calling_kernel) pnp) (irp_current_stack x64)
    else λ device irp w. ok (pos 0) w

calls : CallsRoutine x64 calling_kernel pnp 0x1000 memory routine_of 0x8000
unfolding calling_kernel routine_of or_zero
calls w w' location stack status e f run = (cc, rw (e, f) cc)

calling-PrintsOnly : PrintsOnly x64 calling_kernel
unfolding calling_kernel
calling-PrintsOnly text w = refl

calling_starts : (p : Ptr) (w : World) → (calling_kernel (po_start_next_power_irp p) w).mem ≡ w.mem
unfolding calling_kernel
calling_starts p w = refl

bottom-Answers : Answers x64 calling_kernel pnp 0x1000 memory routine_of 0x8000 (pos 0) memory
unfolding routine_of
bottom-Answers w same = (w, refl, same)

stack-IsServed_example :
    IsServed x64 calling_kernel pnp 0x1000 memory routine_of calling-PrintsOnly calling_starts
      filtered_pnp 0 0x2000
      (omega arith)
      (omega arith)
      memory-HasNext
      memory-IsBytes
      (omega arith)
      0x8000
      (pos 0)
      memory
      bottom-Answers
      (0x9000 ∷ [])
      (world memory)
unfolding calling_kernel routine_of
stack-IsServed_example =
    stack-IsServed x64 calling_kernel pnp 0x1000 memory routine_of calling-PrintsOnly calling_starts
      filtered_pnp 0 0x2000 (omega arith) (omega arith) memory-HasNext memory-IsBytes (omega arith)
      0x8000 (pos 0) memory bottom-Answers (0x9000 ∷ [])
      (
        (record {
          device_there = omega arith;
          below = memory-HasLower;
          routine = refl;
          calls = calls;
        }),
        tt,
      )
      (world memory) refl
