-- ===== src/Tests/NullLifetime.antt =====
-- A life of the null device: it is loaded, serves a write, is unloaded, and is loaded again.
use mathlib.Core.Path.{subst}
use wdk_safe.Base.{as_i32, ap, ◌≡◌, refl, inl, [], ◌∷◌, arith, ℤ, pos, eq_ℤ, true}
use wdk_safe.Status
use wdk_safe.Status.Codes
use wdk_safe.Memory.{null, read_le, store}
use wdk_safe.Machine.{World, ok, pure, dbg_print, ◌>>=◌}
use wdk_safe.Driver.Defaults.{Major, method}
use wdk_safe.Thunk.{dispatch_fn}
use wdk_safe.Wdm.{irp_current_stack}
use wdk_safe.Wdm.Completion.{PrintsOnly, logged}
use wdk_safe.Wdm.Objects.{DriverObject}
use wdk_safe.Wdm.Life.{served, IsRequest, SuccessAgrees}
use wdk_safe.Wdm.Lifetime.{
  Lives, begins, enters, serves, leaves, serving, after_entry, after_request, after_unload,
}
use wdk_safe.Driver.Disposal.{DisposedOnce}
use wdk_safe.Machine.Resources.{devices, links}
use wdk_safe.Wdm.Loading.{SameRequests}
use wdk_safe.NullDevice.Unload.{driver_unload_keeps_link}
use wdk_safe.NullDevice.{driver, driver_entry, driver_unload, registered}
use wdk_safe.NullDevice.Contract.{IsNullReady, driver-Disposes_null}
use wdk_safe.NullDevice.Load.{
  dos_name, device_name, linked, after_create, after_link, cleared, loads,
}
use wdk_safe.NullDevice.Lifetime.{callbacks, Inv, Lives-Inv_null}
use wdk_safe.Tests.Fixtures.{world, object, x64}
use wdk_safe.Tests.Dispatch.{memory}
use wdk_safe.Tests.NullDevice.{strict_kernel, strict-RefusesTaken}

strict-PrintsOnly : PrintsOnly x64 strict_kernel
strict-PrintsOnly text w = refl

abbrev start : World
start = world memory

abbrev after_load : World
after_load =
    logged x64 strict_kernel (dbg_print "[null-device] DriverEntry -- ready\n")
      (record (after_link x64 strict_kernel strict-PrintsOnly object start) {
        mem = cleared x64 strict_kernel strict-PrintsOnly object start 0;
      })

abbrev loaded_object : DriverObject
loaded_object = record (registered x64 strict_kernel object) { device_object = 0x9000 }

entry_runs :
    driver_entry x64 strict_kernel object start
    ≡ ok (Status.into_raw Codes.success, registered x64 strict_kernel object) after_load
unfolding driver_entry memory read_le
entry_runs =
    ap (λ run. ((λ _. run) >>= λ entered. pure (Status.into_raw entered.0, entered.1)) start)
      (loads x64 strict_kernel strict-PrintsOnly object start 0 refl refl refl)

loaded :
    Lives x64
      (callbacks x64 strict_kernel strict-PrintsOnly)
      object
      start
      []
      (serving 1 loaded_object after_load)
unfolding memory read_le as_i32
loaded =
    subst
      (λ run.
        Lives x64 (callbacks x64 strict_kernel strict-PrintsOnly) object start []
          (after_entry x64 (callbacks x64 strict_kernel strict-PrintsOnly) 0 0x9000 run))
      entry_runs (enters begins ((λ e f. omega arith), (λ e f. (0, refl))))

agrees : SuccessAgrees x64
unfolding as_i32
agrees = refl

request : IsRequest x64 (IsNullReady x64 strict_kernel) Major.write 0x9000 0x1000 0x2000 after_load
unfolding memory read_le store
request = record {
  device_there = omega arith;
  irp_there = omega arith;
  stack_there = omega arith;
  leads = refl;
  ready = ((0, refl), inl (omega arith));
}

-- The write returns, and its IRP was disposed of.
served_write :
    (status : ℤ) × (w' : World) × (dispatch_fn
        (method (driver x64 strict_kernel) Major.write)
        (irp_current_stack x64)
        0x9000
        0x1000
        after_load
      ≡ ok status w')
    × DisposedOnce 0x1000 after_load w'
served_write =
    served x64 (IsNullReady x64 strict_kernel) (driver x64 strict_kernel)
      (driver-Disposes_null x64 strict_kernel strict-PrintsOnly) Major.write 0x9000 0x1000 0x2000
      after_load request

abbrev after_write : World
after_write = served_write.1

writes :
    Lives x64
      (callbacks x64 strict_kernel strict-PrintsOnly)
      object
      start
      (0x1000 ∷ [])
      (serving 1 loaded_object after_write)
writes =
    subst
      (λ run.
        Lives x64 (callbacks x64 strict_kernel strict-PrintsOnly) object start (0x1000 ∷ [])
          (after_request x64 (callbacks x64 strict_kernel strict-PrintsOnly) 1 loaded_object run))
      served_write.2 (serves loaded Major.write 0x9000 0x1000 0x2000 request)

-- The unload returns and leaves the link.
unloads :
    (w' : World) × (driver_unload x64 strict_kernel loaded_object after_write ≡ ok tt w')
    × (devices (pos 0) w'.effects ≡ [])
    × (links (pos 0) w'.effects ≡ dos_name ∷ [])
    × SameRequests after_write w'
unloads =
    let (one, (there, devs, lks, counts)) =
      Lives-Inv_null x64 strict_kernel strict-PrintsOnly agrees strict-RefusesTaken object start
        refl (0x1000 ∷ []) _ writes in
    driver_unload_keeps_link x64 strict_kernel strict-PrintsOnly loaded_object after_write [] []
      there devs lks

abbrev after_unloading : World
after_unloading = unloads.0

abbrev unloaded_object : DriverObject
unloaded_object = record loaded_object { device_object = null }

-- A second load cannot make its link.
no_second : ¬ (
    eq_ℤ (linked x64 strict_kernel strict-PrintsOnly unloaded_object after_unloading).status (pos 0)
    ≡ true)
no_second linked_ok =
    let refused =
      strict-RefusesTaken dos_name device_name
        (after_create x64 strict_kernel strict-PrintsOnly unloaded_object after_unloading)
        (rw unloads.3 refl) in
    cc

Lives-Inv_null_example : Inv x64 strict_kernel strict-PrintsOnly start (0x1000 ∷ []) (
    after_entry x64
      (callbacks x64 strict_kernel strict-PrintsOnly)
      1
      0x9000
      (driver_entry x64 strict_kernel unloaded_object after_unloading))
Lives-Inv_null_example =
    Lives-Inv_null x64 strict_kernel strict-PrintsOnly agrees strict-RefusesTaken object start refl
      (0x1000 ∷ []) _
      (enters
        (subst
          (λ run.
            Lives x64 (callbacks x64 strict_kernel strict-PrintsOnly) object start (0x1000 ∷ []) (
              after_unload x64 (callbacks x64 strict_kernel strict-PrintsOnly) 1 loaded_object run))
          unloads.1 (leaves writes))
        ((λ e f. absurd (no_second f)), (λ e f. absurd (no_second f))))
