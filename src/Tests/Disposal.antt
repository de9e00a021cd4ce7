-- ===== src/Tests/Disposal.antt =====
-- Tests of the drivers' contract.
use wdk_safe.Base.{◌≡◌, refl, ℤ, inl, arith}
use wdk_safe.Memory.{read_le}
use wdk_safe.Machine.{World, ok, pure}
use wdk_safe.Driver.Defaults.{Major, method}
use wdk_safe.Driver.Disposal.{Ends, DisposedOnce}
use wdk_safe.Thunk.{dispatch_fn}
use wdk_safe.Thunk.Disposal.{dispatch_fn-DisposedOnce}
use wdk_safe.Wdm.Completion.{HasStatus}
use wdk_safe.Echo
use wdk_safe.Echo.Contract.{method-Ends_echo}
use wdk_safe.NullDevice
use wdk_safe.NullDevice.Contract.{IsNullReady, driver-Disposes_null}
use wdk_safe.HidFilter
use wdk_safe.HidFilter.Contract.{method-Ends_filter}
use wdk_safe.Thunk.Dispatch.{request_of, device_of}
use wdk_safe.Tests.Dispatch.{
  memory, memory-Inputs, memory-HasStatus, memory-HasNext, memory-HasLower,
}
use wdk_safe.Tests.Fixtures.{world, zeros, fresh, idle_kernel, x64, idle-PrintsOnly}

method-Ends_filter_example :
    Ends
      (method (HidFilter.driver x64 idle_kernel) Major.power)
      (device_of 0x9000)
      (request_of 0x1000 0x2000)
      (world memory)
method-Ends_filter_example =
    method-Ends_filter x64 idle_kernel idle-PrintsOnly (λ p w. refl) Major.power (device_of 0x9000)
      (request_of 0x1000 0x2000) (world memory)
      (record {
        location = 0;
        stack = 0x2000;
        lower = 0x8000;
        next = memory-HasNext;
        below = memory-HasLower;
        status = memory-HasStatus;
      })

method-Ends_echo_example :
    Ends
      (method (Echo.driver x64 idle_kernel) Major.device_control)
      (device_of 0x500)
      (request_of 0x1000 0x2000)
      (world memory)
method-Ends_echo_example =
    method-Ends_echo x64 idle_kernel idle-PrintsOnly (device_of 0x500) (request_of 0x1000 0x2000)
      (world memory) memory-HasStatus Major.device_control
      (0x8000_2004, 0, 0, 0, memory-Inputs, λ own. ground arith)

zeros-HasStatus : HasStatus x64 idle_kernel 0x1000 zeros
unfolding read_le
zeros-HasStatus = (0, refl)

dispatch_fn-DisposedOnce_example :
    (status : ℤ) × (w' : World) × (dispatch_fn
        (method (NullDevice.driver x64 idle_kernel) Major.write)
        (λ p. pure 0x2000)
        0x500
        0x1000
        fresh
      ≡ ok status w')
    × DisposedOnce 0x1000 fresh w'
dispatch_fn-DisposedOnce_example =
    dispatch_fn-DisposedOnce (NullDevice.driver x64 idle_kernel) (IsNullReady x64 idle_kernel)
      (driver-Disposes_null x64 idle_kernel idle-PrintsOnly) Major.write (λ p. pure 0x2000) 0x500
      0x1000 0x2000 fresh refl (omega arith) (omega arith) (omega arith)
      (zeros-HasStatus, inl (omega arith))
