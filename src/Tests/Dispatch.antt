-- ===== src/Tests/Dispatch.antt =====
-- Tests of the drivers' dispatch routines.
use wdk_safe.Base.{◌≡◌, refl, some, ℤ, inl, arith}
use wdk_safe.Status
use wdk_safe.Memory.{Ptr, Memory, read_le, store, IsBytes}
use wdk_safe.Memory.Laws.{store-IsBytes}
use wdk_safe.Machine.{World, ok, Cmd}
use wdk_safe.Irp.Ownership.{CompletedOnce}
use wdk_safe.Thunk.Dispatch.{request_of, device_of}
use wdk_safe.Wdm.Completion.{HasStatus}
use wdk_safe.Wdm.Objects.{dispatch_read, dispatch_passthrough, dispatch_device_control}
use wdk_safe.Driver.Defaults.{Major, pnp}
use wdk_safe.Echo
use wdk_safe.Echo.Requests.{Inputs, echo_status}
use wdk_safe.Echo.Dispatch.{routine-device_control}
use wdk_safe.NullDevice.Dispatch.{Succeeds, serves_read, routine-Succeeds}
use wdk_safe.HidFilter
use wdk_safe.HidFilter.Skip.{HasNext, skipped}
use wdk_safe.HidFilter.Forward.{HasLower, ForwardedOnce, pass}
use wdk_safe.HidFilter.Dispatch.{serves_passthrough, routine-forwards}
use wdk_safe.Tests.Fixtures.{zeros, world, idle_kernel, x64, idle-PrintsOnly}

-- The IRP at 0x1000 has its stack location at 0x2000, with another code than the echo driver's, and
-- the filter's device at 0x9000 lies above the one at 0x8000.
unfoldable pub memory : Memory
unfolding store
memory =
    store 4 0x2018 0x8000_2004
      (store 8 0x10B8 0x2000 (store 8 0x9040 0x9100 (store 8 0x9100 0x8000 zeros)))

pub memory_stack : read_le 8 0x10B8 memory ≡ some 0x2000
unfolding memory read_le
memory_stack = refl

pub memory-Inputs : Inputs (request_of 0x1000 0x2000) 0x8000_2004 0 0 0 memory
unfolding memory read_le
memory-Inputs = record {
  code_field = refl;
  input_field = refl;
  output_field = refl;
  buffer_field = refl;
}

pub memory-HasStatus : HasStatus x64 idle_kernel 0x1000 memory
unfolding memory read_le
memory-HasStatus = (0, refl)

pub memory-HasNext : HasNext x64 0x1000 0 0x2000 memory
unfolding memory read_le
memory-HasNext = record {
  location_field = refl;
  stack_field = refl;
  room = omega arith;
  apart = inl (omega arith);
}

pub memory-HasLower : HasLower x64 (device_of 0x9000) 0x8000 memory
unfolding memory read_le
memory-HasLower = record { extension = 0x9100; extension_field = refl; lower_field = refl }

pub memory-IsBytes : IsBytes memory
unfolding memory
memory-IsBytes = store-IsBytes 4 0x2018 0x8000_2004 _ (
    store-IsBytes 8 0x10B8 0x2000 _ (
      store-IsBytes 8 0x9040 0x9100 _
        (store-IsBytes 8 0x9100 0x8000 zeros (λ p b e. ground arith))))

routine-device_control_example :
    (f : Ptr → Ptr → Cmd ℤ) × (w' : World) × (Echo.routine x64 idle_kernel dispatch_device_control
      ≡ some f)
    × (f 0x500 0x1000 (world memory) ≡ ok (Status.into_raw (echo_status 0x8000_2004 0 0 0)) w')
    × CompletedOnce 0x1000 (world memory) w'
routine-device_control_example =
    routine-device_control x64 idle_kernel idle-PrintsOnly 0x500 0x1000 0x2000 (world memory)
      0x8000_2004 0 0 0 (omega arith) (omega arith) (omega arith) memory_stack memory-HasStatus
      memory-Inputs (λ own. ground arith)

routine-Succeeds_example :
    Succeeds x64 idle_kernel idle-PrintsOnly 0x500 0x1000 0x2000
      (world memory)
      (omega arith)
      (omega arith)
      (omega arith)
      memory_stack
      memory-HasStatus
      (inl (omega arith))
      dispatch_read
routine-Succeeds_example =
    routine-Succeeds x64 idle_kernel idle-PrintsOnly 0x500 0x1000 0x2000 (world memory)
      (omega arith) (omega arith) (omega arith) memory_stack memory-HasStatus (inl (omega arith))
      dispatch_read Major.read serves_read

routine-forwards_example :
    (f : Ptr → Ptr → Cmd ℤ) × (before : World) × (after : World) × (HidFilter.routine x64
        idle_kernel dispatch_passthrough
      ≡ some f)
    × (before.mem ≡ skipped x64 0x1000 0 0x2000 memory)
    × (f 0x9000 0x1000 (world memory)
        ≡ ok (idle_kernel (pass pnp 0x8000 0x1000) before).status after)
    × ForwardedOnce 0x1000 (world memory) after
routine-forwards_example =
    routine-forwards x64 idle_kernel idle-PrintsOnly (λ p w. refl) dispatch_passthrough pnp
      serves_passthrough 0x9000 0x1000 0 0x2000 0x8000 (world memory) (omega arith) (omega arith)
      (omega arith) memory-HasNext memory-HasLower
