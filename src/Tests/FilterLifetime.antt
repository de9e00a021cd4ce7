-- ===== src/Tests/FilterLifetime.antt =====
-- A life of the filter: it is loaded, added to a device stack and unloaded.
use mathlib.Core.Path.{subst}
use wdk_safe.Base.{as_i32, ap, List, ◌≡◌, refl, inr, [], ◌∷◌, arith}
use wdk_safe.Status
use wdk_safe.Status.Codes
use wdk_safe.Memory.{read_le, store}
use wdk_safe.Machine.{World, ok, pure, dbg_print, ◌>>=◌}
use wdk_safe.Wdm.Life.{SuccessAgrees}
use wdk_safe.Wdm.Completion.{logged}
use wdk_safe.Wdm.Objects.{DriverObject}
use wdk_safe.HidFilter.{driver_entry, add_device, add_device_inner, driver_unload}
use wdk_safe.HidFilter.Entry.{loaded, driver_entry_inner_loads}
use wdk_safe.HidFilter.Attach.{Succeeded, succeeds}
use wdk_safe.HidFilter.Unload.{Pair}
use wdk_safe.HidFilter.Lifetime.{
  Lives, begins, enters, adds, leaves, CanAdd, Inv, after_entry, after_add, after_unload, serving,
}
use wdk_safe.HidFilter.Lifetime.Invariant.{Lives-Inv_filter}
use wdk_safe.Tests.Fixtures.{world, object, x64}
use wdk_safe.Tests.HidFilter.{
  memory, memory-Fields, attach_kernel, attach-PrintsOnly, attach-LeavesOthers,
}

abbrev start : World
start = world memory

abbrev loading : World
loading = logged x64 attach_kernel (dbg_print "[hid-filter] DriverEntry -- loading\n") start

abbrev after_load : World
after_load = logged x64 attach_kernel (dbg_print "[hid-filter] DriverEntry -- ready\n") loading

abbrev loaded_object : DriverObject
loaded_object = loaded x64 attach_kernel object

entry_runs :
    driver_entry x64 attach_kernel object start
    ≡ ok (Status.into_raw Codes.success, loaded_object) after_load
unfolding driver_entry
entry_runs =
    ap (λ run. ((λ _. run) >>= λ entered. pure (Status.into_raw entered.0, entered.1)) start)
      (driver_entry_inner_loads x64 attach_kernel attach-PrintsOnly object start refl)

serving_none :
    Lives x64 attach_kernel attach-PrintsOnly object start [] (serving loaded_object [] after_load)
unfolding as_i32
serving_none =
    subst
      (λ run.
        Lives x64 attach_kernel attach-PrintsOnly object start []
          (after_entry x64 attach_kernel attach-PrintsOnly run))
      entry_runs (enters (begins refl))

can_add : CanAdd x64 attach_kernel attach-PrintsOnly loaded_object [] 0x7000 after_load
unfolding memory memory-Fields read_le store
can_add = record {
  create_keeps = tt;
  creates = λ e. (omega arith, tt, tt);
  attaches =
      λ e ne. (memory-Fields, refl, (inr (omega arith), inr (omega arith), inr (omega arith)), tt);
}

add_succeeds :
    Succeeded x64 attach_kernel attach-PrintsOnly loaded_object 0x7000 after_load
      (add_device_inner x64 attach_kernel loaded_object 0x7000 after_load)
      memory-Fields
add_succeeds =
    succeeds x64 attach_kernel attach-PrintsOnly loaded_object 0x7000 after_load memory-Fields refl
      (omega arith)

abbrev pairs : List Pair
pairs = record { filter = 0x9000; lower = 0x8000 } ∷ []

filtering :
    Lives x64 attach_kernel attach-PrintsOnly object start []
      (serving (record loaded_object { device_object = 0x9000 }) pairs add_succeeds.world)
unfolding as_i32 add_device
filtering =
    subst
      (λ run. Lives x64 attach_kernel attach-PrintsOnly object start [] (
        after_add x64 attach_kernel attach-PrintsOnly loaded_object []
          (record { filter = 0x9000; lower = 0x8000 })
          (((λ _. run) >>= λ status. pure (Status.into_raw status)) after_load)))
      add_succeeds.ends (adds serving_none 0x7000 can_add)

agrees : SuccessAgrees x64
unfolding as_i32
agrees = refl

Lives-Inv_filter_example : Inv x64 attach_kernel attach-PrintsOnly start [] (
    after_unload x64 attach_kernel attach-PrintsOnly
      (record loaded_object { device_object = 0x9000 })
      (driver_unload x64 attach_kernel 2
        (record loaded_object { device_object = 0x9000 })
        add_succeeds.world))
Lives-Inv_filter_example =
    Lives-Inv_filter x64 attach_kernel attach-PrintsOnly agrees attach-LeavesOthers (λ p w. refl)
      object start [] _ (leaves filtering 2 (omega arith))
