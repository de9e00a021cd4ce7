-- ===== src/NullDevice/Reload.antt =====
-- Loads of the null device after an unload.
use wdk_safe.Base.{
  ℕ, ◌≡◌, ◌≢◌, inl, inr, refl, Bool, true, false, ◌||◌, List, [], ◌∷◌, eq_ℤ, same_name, Bool-cases,
}
use wdk_safe.Status.{NtStatus}
use wdk_safe.Memory.{Ptr}
use wdk_safe.Machine.{World, ok, Kernel, io_create_symbolic_link}
use wdk_safe.Machine.Resources.{devices, links, without_link}
use wdk_safe.Wdm.{WdkSys}
use wdk_safe.Wdm.Completion.{PrintsOnly}
use wdk_safe.Wdm.Objects.{DriverObject}
use wdk_safe.Wdm.Loading.{Refused}
use wdk_safe.NullDevice.{driver_entry_inner, driver_unload, unload_name_buf}
use wdk_safe.Wdm.Unicode.{units, described}
use wdk_safe.NullDevice.Load.{
  dos_name, device_name, created, after_create, create-Refused, link-Refused,
}
use wdk_safe.NullDevice.Unload.{driver_unload_keeps_link}

abbrev pub has_link : List ℕ → List (List ℕ) → Bool
has_link n [] = false
has_link n (l ∷ ls) = same_name n l || has_link n ls

module _ (sys : WdkSys) (kernel : Kernel) where
  -- `IoCreateSymbolicLink` does not succeed for a name that is a link already: it answers
  -- STATUS_OBJECT_NAME_COLLISION.
  abbrev pub RefusesTaken : Type 0
  RefusesTaken =
      (name target : List ℕ) (w : World)
      → has_link name (links sys.status_success w.effects) ≡ true
      → eq_ℤ (kernel (io_create_symbolic_link name target) w).status sys.status_success ≡ false

  -- One load after the other, each with a driver object of its own, fails and leaves that object
  -- and the given devices and links.
  abbrev pub LoadsFail : List Ptr → List (List ℕ) → List DriverObject → World → Type 0
  LoadsFail devs lks [] w =
      (devices sys.status_success w.effects ≡ devs) × (links sys.status_success w.effects ≡ lks)
  LoadsFail devs lks (d ∷ ds) w =
      (status : NtStatus) × (w' : World) × (driver_entry_inner sys kernel d w ≡ ok (status, d) w')
      × (eq_ℤ status.value sys.status_success ≡ false)
      × LoadsFail devs lks ds w'

  module _ (prints : PrintsOnly sys kernel) (taken : RefusesTaken) where
    pub taken-Refused :
        (d : DriverObject) (w : World)
        → has_link dos_name (links sys.status_success w.effects) ≡ true
        → Refused sys.status_success w (driver_entry_inner sys kernel d w) d
    taken-Refused d w there =
        elim (Bool-cases (eq_ℤ (created sys kernel prints d w).status sys.status_success)) [
          | inr e ↦ create-Refused sys kernel prints d w e
          | inl e ↦
              link-Refused sys kernel prints d w e
                (taken dos_name device_name (after_create sys kernel prints d w) there)
        ]

    taken-LoadsFail :
        (devs : List Ptr) (lks : List (List ℕ)) (ds : List DriverObject) (w : World)
        → has_link dos_name lks ≡ true
        → devices sys.status_success w.effects ≡ devs
        → links sys.status_success w.effects ≡ lks
        → LoadsFail devs lks ds w
    taken-LoadsFail devs lks [] w there e f = (e, f)
    taken-LoadsFail devs lks (d ∷ ds) w there e f =
        let refused = taken-Refused d w (rw (f, there) refl) in
        (
          refused.status,
          refused.world,
          refused.ends,
          refused.not_success,
          taken-LoadsFail devs lks ds refused.world there (rw (refused.same_devices, e) refl)
              (rw (refused.same_links, f) refl),
        )

    -- `driver_unload` of the null device deletes the device and ends, but from then on every load,
    -- however many are tried in turn, fails and leaves the devices and links as the unload did: the link of
    -- the first load is still there. Conditions: printing changes no memory,
    -- `IoCreateSymbolicLink` does not succeed for a name that is a link already, and before the
    -- unload the device and the link of the driver are the latest.
    pub driver_unload-LoadsFail :
        (d : DriverObject) (w : World) (others : List Ptr) (other_links : List (List ℕ))
        (ds : List DriverObject)
        → d.device_object ≢ 0
        → devices sys.status_success w.effects ≡ d.device_object ∷ others
        → links sys.status_success w.effects ≡ dos_name ∷ other_links
        → (w' : World) × (driver_unload sys kernel d w ≡ ok tt w')
          × LoadsFail others
              (dos_name ∷ without_link (units (described unload_name_buf)) other_links)
              ds
              w'
    driver_unload-LoadsFail d w others other_links ds ne devs lks =
        let (w', ends, e, f, same) =
          driver_unload_keeps_link sys kernel prints d w others other_links ne devs lks in
        (w', ends, taken-LoadsFail others _ ds w' refl e f)
