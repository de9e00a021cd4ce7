-- ===== src/Tests/Echo.antt =====
-- Tests of examples/ioctl-echo/ioctl-echo/src/lib.rs.
use wdk_safe.Base.{◌≡◌, refl, some, inr, arith}
use wdk_safe.Status.Codes
use wdk_safe.Memory.{Memory, read_le, store, IsBytes}
use wdk_safe.Memory.Laws.{store-IsBytes}
use wdk_safe.Machine.{World, ok, io_complete_request}
use wdk_safe.Driver.Defaults.{CompletesWith}
use wdk_safe.Thunk.Dispatch.{device_of}
use wdk_safe.Wdm.Completion.{HasStatus, answered}
use wdk_safe.Echo.{on_device_control}
use wdk_safe.Echo.Control.{on_device_control-completes}
use wdk_safe.Echo.Requests.{Inputs, Answerable, echo_status}
use wdk_safe.Echo.Answer.{AreSeparate, Echoed, on_device_control-echo}
use wdk_safe.Tests.Fixtures.{zeros, world, request, idle_kernel, x64, idle-PrintsOnly}

-- The request for 0xDEAD_BEEF: the code and the lengths at 0x2000, the pointer to the buffer in the
-- IRP, and the value in the buffer at 0x3000.
memory : Memory
unfolding store
memory =
    store 4 0x2018 0x8000_2000 (
      store 4 0x2010 4
        (store 4 0x2008 4 (store 8 0x1070 0x3000 (store 4 0x3000 0xDEAD_BEEF zeros))))

memory-Inputs : Inputs request 0x8000_2000 4 4 0x3000 memory
unfolding memory read_le
memory-Inputs = record {
  code_field = refl;
  input_field = refl;
  output_field = refl;
  buffer_field = refl;
}

memory-Answerable : Answerable request 0x3000 memory
unfolding memory read_le
memory-Answerable = record {
  buffer_mapped = (0xDEAD_BEEF, refl);
  info_mapped = (0, refl);
  info_aligned = refl;
  apart = inr (omega arith);
}

memory-HasStatus : HasStatus x64 idle_kernel 0x1000 memory
unfolding memory read_le
memory-HasStatus = (0, refl)

zeros-IsBytes : IsBytes zeros
zeros-IsBytes p b e = ground arith

memory-IsBytes : IsBytes memory
unfolding memory
memory-IsBytes = store-IsBytes 4 0x2018 0x8000_2000 _ (
    store-IsBytes 4 0x2010 4 _ (
      store-IsBytes 4 0x2008 4 _
        (store-IsBytes 8 0x1070 0x3000 _ (store-IsBytes 4 0x3000 0xDEAD_BEEF zeros zeros-IsBytes))))

memory_value : read_le 4 0x3000 memory ≡ some 0xDEAD_BEEF
unfolding memory read_le
memory_value = refl

memory-AreSeparate : AreSeparate x64 request 0x3000
memory-AreSeparate = record {
  buffer_info = inr (omega arith);
  buffer_status = inr (omega arith);
  info_status = inr (omega arith);
}

on_device_control-completes_example :
    CompletesWith
      (on_device_control x64 idle_kernel)
      (echo_status 0x8000_2000 4 4 0x3000)
      (device_of 0x500)
      request
      (world memory)
on_device_control-completes_example =
    on_device_control-completes x64 idle_kernel idle-PrintsOnly (device_of 0x500) request
      (world memory) 0x8000_2000 4 4 0x3000 memory-HasStatus memory-Inputs
      (λ own. memory-Answerable)

on_device_control-echo_example :
    (v : World) × (on_device_control x64 idle_kernel (device_of 0x500) request (world memory)
      ≡ ok Codes.success (answered x64 idle_kernel (io_complete_request 0x1000 0) v))
    × Echoed x64 request 0x3000 0xDEAD_BEEF (world memory) v
on_device_control-echo_example =
    on_device_control-echo x64 idle_kernel idle-PrintsOnly (device_of 0x500) request (world memory)
      0x8000_2000 4 4 0x3000 0xDEAD_BEEF memory-HasStatus memory-Inputs
      (refl, omega arith, omega arith, omega arith) memory-Answerable memory_value memory-IsBytes
      memory-AreSeparate
