-- ===== src/Tests/HidFilter.antt =====
-- Tests of examples/hid-filter/hid-filter/src/lib.rs.
use wdk_safe.Base.{
  ℕ, ◌≡◌, ◌≢◌, ◌⊎◌, refl, true, false, none, some, List, [], ◌∷◌, pos, inl, inr, eq_ℤ, arith,
}
use wdk_safe.Status.{NtStatus, from_raw}
use wdk_safe.Status.Codes
use wdk_safe.Memory.{Memory, read_le, store}
use wdk_safe.Machine.{World, ok, Kernel, dbg_print, returned, io_create_device, io_attach_device}
use wdk_safe.Thunk.Dispatch.{device_of}
use wdk_safe.Wdm.Completion.{PrintsOnly}
use wdk_safe.Wdm.Objects.{DriverObject}
use wdk_safe.Machine.Resources.{devices, SameResources}
use wdk_safe.Wdm.Loading.{SameRequests}
use wdk_safe.HidFilter.{add_device_inner, driver_unload, driver_entry_inner}
use wdk_safe.HidFilter.Skip.{HasNext}
use wdk_safe.HidFilter.Forward.{HasLower}
use wdk_safe.HidFilter.Configure.{Fields}
use wdk_safe.HidFilter.Attach.{Failed, Succeeded, add_device_inner_all_or_nothing}
use wdk_safe.HidFilter.Unload.{Pair, Chain, LeavesOthers, teardown, driver_unload_detaches}
use wdk_safe.HidFilter.Entry.{Registered, driver_entry_inner-Registered}
use wdk_safe.Tests.Fixtures.{zeros, world, fresh, idle_kernel, x64, idle-PrintsOnly, object}

-- The IRP at 0x1000 has its stack location at 0x2000. The filter's device at 0x9000 has its extension
-- at 0x9100, which leads to the device at 0x8000.
unfoldable pub memory : Memory
unfolding store
memory = store 8 0x10B8 0x2000 (store 8 0x9040 0x9100 (store 8 0x9100 0x8000 zeros))

memory-HasNext : HasNext x64 0x1000 0 0x2000 memory
unfolding memory read_le
memory-HasNext = record {
  location_field = refl;
  stack_field = refl;
  room = λ debug. omega arith;
  apart = inl (omega arith);
}

memory-HasLower : HasLower x64 (device_of 0x9000) 0x8000 memory
unfolding memory read_le
memory-HasLower = record { extension = 0x9100; extension_field = refl; lower_field = refl }

-- A kernel that attaches to the device at 0x8000.
abbrev pub attach_kernel : Kernel
attach_kernel (io_attach_device s t) w = record { mem = w.mem; status = pos 0; pointer = 0x8000 }
attach_kernel e w = record { mem = w.mem; status = pos 0; pointer = 0x9000 }

pub attach-PrintsOnly : PrintsOnly x64 attach_kernel
attach-PrintsOnly text w = refl

unfoldable pub memory-Fields : Fields x64 true 0x9000 0x8000 memory
unfolding memory read_le
memory-Fields = record {
  extension = 0x9100;
  size = 0;
  lower_flags = 0;
  flags = 0;
  extension_field = refl;
  extension_mapped = (0x8000, refl);
  size_field = refl;
  size_mapped = (0, refl);
  lower_flags_field = refl;
  flags_field = refl;
  room = λ debug. omega arith;
  flags_bound = omega arith;
  lower_flags_bound = omega arith;
  lower_bound = omega arith;
  apart_size = inr (omega arith);
  apart_lower_flags = inr (omega arith);
  apart_flags = inr (omega arith);
  apart_extension = inr (omega arith);
  apart_filter_size = inl (omega arith);
  size_lower_flags = inr (omega arith);
  size_flags = inr (omega arith);
  size_extension = inr (omega arith);
  flags_extension = inl (omega arith);
  flags_size = inl (omega arith);
}

add_device_inner_all_or_nothing_example :
    ((eq_ℤ (pos 0) (pos 0) ≡ false)
      × Failed x64 attach_kernel attach-PrintsOnly object 0x7000
          (world memory)
          (add_device_inner x64 attach_kernel object 0x7000 (world memory))
          (from_raw (pos 0))
          memory)
    ⊎ (((◌≡◌ {A = ℕ} 0x8000 0)
          × Failed x64 attach_kernel attach-PrintsOnly object 0x7000
              (world memory)
              (add_device_inner x64 attach_kernel object 0x7000 (world memory))
              Codes.unsuccessful
              memory)
        ⊎ ((e : eq_ℤ (pos 0) (pos 0) ≡ true) × (ne : ◌≢◌ {A = ℕ} 0x8000 0) × Succeeded x64
              attach_kernel attach-PrintsOnly object 0x7000
              (world memory)
              (add_device_inner x64 attach_kernel object 0x7000 (world memory))
              memory-Fields))
add_device_inner_all_or_nothing_example =
    add_device_inner_all_or_nothing x64 attach_kernel attach-PrintsOnly object 0x7000 (world memory)
      (λ e ne. memory-Fields)

driver_entry_inner-Registered_example :
    (status : NtStatus) × (d' : DriverObject) × (w' : World) × (driver_entry_inner x64 idle_kernel
        object fresh
      ≡ ok (status, d') w')
    × (w'.mem ≡ zeros)
    × SameResources fresh w'
    × SameRequests fresh w'
    × (((true ≡ false) × (status ≡ Codes.unsuccessful) × (d' ≡ object))
        ⊎ ((true ≡ true) × (status ≡ Codes.success) × Registered x64 object d'))
driver_entry_inner-Registered_example =
    driver_entry_inner-Registered x64 idle_kernel idle-PrintsOnly object fresh

-- The driver has one device.
abbrev pairs : List Pair
pairs = record { filter = 0x9000; lower = 0x8000 } ∷ []

memory-Chain : Chain x64 pairs 0x9000 memory
unfolding memory read_le
memory-Chain = (
  refl,
  omega arith,
  tt,
  (
    0,
    record { extension = 0x9100; next_field = refl; extension_field = refl; lower_field = refl },
    refl,
  ),
)

idle-LeavesOthers : LeavesOthers x64 idle_kernel
idle-LeavesOthers = record { on_detach = λ q w p next e. e; on_delete = λ q w p next ne e. e }

-- The world after the device was added.
added : World
added = record {
  mem = memory;
  effects =
      returned (pos 0) 0x9000
      ∷ io_create_device 0x700 (record { extension_size = 8; name = none; device_type = 0x0B })
      ∷ [];
  debug_assertions = true;
  tracking_complete_called = false;
}

driver_unload_detaches_example :
    (w' : World) × (driver_unload x64 idle_kernel 2 (record object { device_object = 0x9000 }) added
      ≡ ok (some tt) w')
    × (w'.effects
        ≡ teardown pairs (dbg_print "[hid-filter] DriverUnload -- detaching\n" ∷ added.effects))
    × (devices (pos 0) w'.effects ≡ [])
unfolding added
driver_unload_detaches_example =
    driver_unload_detaches x64 idle_kernel idle-LeavesOthers idle-PrintsOnly
      (record object { device_object = 0x9000 }) pairs [] added 2 (omega arith) memory-Chain refl

pub attach-LeavesOthers : LeavesOthers x64 attach_kernel
attach-LeavesOthers = record { on_detach = λ q w p next e. e; on_delete = λ q w p next ne e. e }
