-- ===== src/HidFilter/Entry.antt =====
-- `driver_entry_inner` of the filter.
use wdk_safe.Base.{ℕ, ◌≡◌, refl, true, false, get_elem?, Bool-cases, ◌⊎◌, inl, inr, map_some}
use wdk_safe.Wdm.{WdkSys}
use wdk_safe.Machine.Resources.{SameResources}
use wdk_safe.Wdm.Loading.{SameRequests}
use wdk_safe.Wdm.Objects.{DriverObject}
use wdk_safe.Status.{NtStatus}
use wdk_safe.Status.Codes
use wdk_safe.Machine.{World, ok, Kernel, dbg_print, ◌>>=◌}
use wdk_safe.Wdm.Completion.{PrintsOnly, logged, debug_print_lem}
use wdk_safe.HidFilter.{driver_entry_inner, registered}
use wdk_safe.HidFilter.Slots.{slot_after, registered-slot_after}

-- The driver object that `driver_entry_inner` leaves, slot by slot.
pub record Registered (sys : WdkSys) (d d' : DriverObject) : Type 0 where
  pub slots :
      (j : ℕ)
      → get_elem? d'.major_function j ≡ map_some (slot_after sys j) (get_elem? d.major_function j)
  pub add_device : d'.add_device_set ≡ true
  pub unload : d'.unload_set ≡ true
  pub same_device : d'.device_object ≡ d.device_object

-- The driver object after a load.
abbrev pub loaded : WdkSys → Kernel → DriverObject → DriverObject
loaded sys kernel d = record d {
  add_device_set = true;
  major_function = registered sys kernel d.major_function;
  unload_set = true;
}

pub driver_entry_inner_loads :
    (sys : WdkSys) (kernel : Kernel)
    → PrintsOnly sys kernel
    → (d : DriverObject) (w : World) → d.has_extension ≡ true
    → driver_entry_inner sys kernel d w
      ≡ ok
          (Codes.success, loaded sys kernel d)
          (logged sys kernel
            (dbg_print "[hid-filter] DriverEntry -- ready\n")
            (logged sys kernel (dbg_print "[hid-filter] DriverEntry -- loading\n") w))
unfolding driver_entry_inner
driver_entry_inner_loads sys kernel prints d w present =
    let loading = logged sys kernel (dbg_print "[hid-filter] DriverEntry -- loading\n") w in
    simp (
      debug_print_lem sys kernel "[hid-filter] DriverEntry -- loading\n" w prints,
      ◌>>=◌,
      present,
      debug_print_lem sys kernel "[hid-filter] DriverEntry -- ready\n" loading prints,
    )

-- `driver_entry_inner` of the filter creates nothing: without a driver extension it fails with
-- UNSUCCESSFUL and leaves the driver object as it was; with one it succeeds, and the driver object
-- has the two callbacks and a dispatch table in which the six registered slots have their routines
-- and every other slot up to `IRP_MJ_MAXIMUM_FUNCTION` has the passthrough routine if it was empty,
-- and keeps what it had if not. On both ways memory, the devices, links and attachments and the
-- requests are as before. Condition: printing changes no memory.
pub driver_entry_inner-Registered :
    (sys : WdkSys) (kernel : Kernel)
    → PrintsOnly sys kernel
    → (d : DriverObject) (w : World)
    → (status : NtStatus) × (d' : DriverObject) × (w' : World) × (driver_entry_inner sys kernel d w
        ≡ ok (status, d') w')
      × (w'.mem ≡ w.mem)
      × SameResources w w'
      × SameRequests w w'
      × (((d.has_extension ≡ false) × (status ≡ Codes.unsuccessful) × (d' ≡ d))
          ⊎ ((d.has_extension ≡ true) × (status ≡ Codes.success) × Registered sys d d'))
unfolding driver_entry_inner
driver_entry_inner-Registered sys kernel prints d w =
    let loading = logged sys kernel (dbg_print "[hid-filter] DriverEntry -- loading\n") w in
    elim (Bool-cases d.has_extension) [
      | inr missing ↦ (
        Codes.unsuccessful,
        d,
        loading,
        rw
            (
              debug_print_lem sys kernel "[hid-filter] DriverEntry -- loading\n" w prints,
              ◌>>=◌,
              missing,
            )
            refl,
        refl,
        λ s. (refl, refl, refl),
        λ p. (refl, refl),
        inl (missing, refl, refl),
      )
      | inl present ↦ (
        Codes.success,
        loaded sys kernel d,
        logged sys kernel (dbg_print "[hid-filter] DriverEntry -- ready\n") loading,
        driver_entry_inner_loads sys kernel prints d w present,
        refl,
        λ s. (refl, refl, refl),
        λ p. (refl, refl),
        inr (
          present,
          refl,
          record {
            slots = registered-slot_after sys kernel d.major_function;
            add_device = refl;
            unload = refl;
            same_device = refl;
          },
        ),
      )
    ]
