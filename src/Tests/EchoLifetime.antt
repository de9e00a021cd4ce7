-- ===== src/Tests/EchoLifetime.antt =====
-- A life of the echo driver: it is loaded and serves a request.
use mathlib.Core.Path.{subst}
use wdk_safe.Base.{as_i32, ◌≡◌, refl, [], ◌∷◌, arith}
use wdk_safe.Status
use wdk_safe.Status.Codes
use wdk_safe.Memory.{read_le}
use wdk_safe.Machine.{World, ok, dbg_print, ◌>>=◌}
use wdk_safe.Driver.Defaults.{create, method}
use wdk_safe.Thunk.{dispatch_fn}
use wdk_safe.Wdm.{irp_current_stack}
use wdk_safe.Wdm.Completion.{logged}
use wdk_safe.Wdm.Objects.{DriverObject}
use wdk_safe.Echo.{driver, driver_entry, driver_entry_inner, registered}
use wdk_safe.Echo.Load.{after_link, started, loads}
use wdk_safe.Echo.Lifetime.{callbacks, Inv, Lives-Inv}
use wdk_safe.Wdm.Lifetime.{Lives, begins, enters, serves, serving, after_entry, after_request}
use wdk_safe.Wdm.Life.{IsRequest, SuccessAgrees}
use wdk_safe.Echo.Contract.{IsEchoReady}
use wdk_safe.Tests.Fixtures.{world, object, idle_kernel, x64, idle-PrintsOnly}
use wdk_safe.Tests.Dispatch.{memory}

start : World
start = world memory

after_load : World
unfolding start
after_load =
    logged x64 idle_kernel (dbg_print "[ioctl-echo] DriverEntry -- ready\n")
      (record (after_link x64 idle_kernel idle-PrintsOnly object start) {
        mem = started x64 idle_kernel idle-PrintsOnly object start 0;
      })

loaded_object : DriverObject
loaded_object = record (registered x64 idle_kernel object) { device_object = 0x9000 }

runs :
    driver_entry_inner x64 idle_kernel object start
    ≡ ok (Codes.success, registered x64 idle_kernel object) after_load
unfolding start after_load memory read_le as_i32
runs = loads x64 idle_kernel idle-PrintsOnly object start 0 refl refl refl (omega arith)

entry_runs :
    driver_entry x64 idle_kernel object start
    ≡ ok (Status.into_raw Codes.success, registered x64 idle_kernel object) after_load
unfolding driver_entry
entry_runs = rw (runs, ◌>>=◌)

loaded :
    Lives x64
      (callbacks x64 idle_kernel idle-PrintsOnly)
      object
      start
      []
      (serving 1 loaded_object after_load)
unfolding start after_load loaded_object memory read_le as_i32
loaded =
    subst
      (λ run.
        Lives x64 (callbacks x64 idle_kernel idle-PrintsOnly) object start []
          (after_entry x64 (callbacks x64 idle_kernel idle-PrintsOnly) 0 0x9000 run))
      entry_runs (enters begins ((λ e f. omega arith), (λ e f. (0, refl, omega arith))))

request : IsRequest x64 (IsEchoReady x64 idle_kernel) create 0x9000 0x1000 0x2000 after_load
unfolding start after_load memory read_le
request = record {
  device_there = omega arith;
  irp_there = omega arith;
  stack_there = omega arith;
  leads = refl;
  ready = ((0, refl), tt);
}

agrees : SuccessAgrees x64
unfolding as_i32
agrees = refl

Lives-Inv_example : Inv x64 idle_kernel idle-PrintsOnly start (0x1000 ∷ []) (
    after_request x64 (callbacks x64 idle_kernel idle-PrintsOnly) 1 loaded_object (
      dispatch_fn
        (method (driver x64 idle_kernel) create)
        (irp_current_stack x64)
        0x9000
        0x1000
        after_load))
Lives-Inv_example =
    Lives-Inv x64 idle_kernel idle-PrintsOnly agrees object start (0x1000 ∷ []) _
      (serves loaded create 0x9000 0x1000 0x2000 request)
