-- ===== src/Echo/Unload.antt =====
-- `driver_unload` of the echo driver.
use wdk_safe.Base.{ℕ, ◌≡◌, ◌≢◌, refl, List, ◌∷◌, arith, ==_refl, ==_false}
use wdk_safe.Memory.{Ptr}
use wdk_safe.Machine.{
  World, ok, Kernel, dbg_print, io_delete_device, io_delete_symbolic_link, ◌>>=◌,
}
use wdk_safe.Wdm.{WdkSys}
use wdk_safe.Wdm.Completion.{PrintsOnly, answered, logged, debug_print_lem}
use wdk_safe.Wdm.Objects.{DriverObject}
use wdk_safe.Wdm.Unicode.{unicode_from_slice_lem, described, units}
use wdk_safe.Wdm.Loading.{SameRequests}
use wdk_safe.Machine.Resources.{devices, links}
use wdk_safe.Echo.{driver_unload, dos_buf}
use wdk_safe.Echo.Load.{dos_name}

module _ (sys : WdkSys) (kernel : Kernel) (prints : PrintsOnly sys kernel) (d : DriverObject)
    (w : World) where
  abbrev unload_start : World
  unload_start = logged sys kernel (dbg_print "[ioctl-echo] DriverUnload\n") w

  -- The world at the end of `driver_unload`.
  abbrev pub unloaded : World
  unloaded =
      answered sys kernel (io_delete_device d.device_object)
        (answered sys kernel (io_delete_symbolic_link (units (described dos_buf))) unload_start)

  unload_lem : d.device_object ≢ 0 → driver_unload sys kernel d w ≡ ok tt unloaded
  unfolding driver_unload
  unload_lem ne = rw (
    debug_print_lem sys kernel "[ioctl-echo] DriverUnload\n" w prints,
    ◌>>=◌,
    unicode_from_slice_lem dos_buf unload_start (ground arith) (ground arith),
    ◌>>=◌,
    ==_false d.device_object 0 ne,
  )

  -- After a load, `driver_unload` takes away the device and the link that `driver_entry_inner`
  -- made, and no others, and touches no IRP. Conditions: printing changes no memory, and the device and the link are
  -- the latest.
  pub driver_unload_removes :
      (others : List Ptr) (other_links : List (List ℕ))
      → d.device_object ≢ 0
      → devices sys.status_success w.effects ≡ d.device_object ∷ others
      → links sys.status_success w.effects ≡ dos_name ∷ other_links
      → (w' : World) × (driver_unload sys kernel d w ≡ ok tt w')
        × (devices sys.status_success w'.effects ≡ others)
        × (links sys.status_success w'.effects ≡ other_links)
        × SameRequests w w'
  driver_unload_removes others other_links ne devs lks = (
    unloaded,
    unload_lem ne,
    rw (devs, ==_refl d.device_object) refl,
    rw lks refl,
    λ p. (refl, refl),
  )
