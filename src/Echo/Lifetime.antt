-- ===== src/Echo/Lifetime.antt =====
-- The life of the echo driver: it is loaded, serves requests and is unloaded, any number of times.
use wdk_safe.Base.{eq_ℤ, true, ℕ, ◌≡◌, ◌≢◌, inl, inr, refl, List, arith, ◌∙◌}
use wdk_safe.Memory.{Ptr, null}
use wdk_safe.Machine.{World, Kernel, ◌>>=◌}
use wdk_safe.Machine.Resources.{devices, links}
use wdk_safe.Wdm.{WdkSys}
use wdk_safe.Wdm.Completion.{PrintsOnly}
use wdk_safe.Wdm.Objects.{DriverObject}
use wdk_safe.Wdm.Lifetime.{
  Callbacks, Life, idle, serving, crashed, after_entry, after_unload, Lives, Lives-Preserved,
}
use wdk_safe.Wdm.Life.{
  Accounts, Accounts-same, SuccessAgrees, Serves, Serves-Loaded, Serves-disposed,
}
use wdk_safe.Echo.{driver, driver_entry, driver_unload}
use wdk_safe.Echo.Contract.{IsEchoReady, driver-Disposes_echo}
use wdk_safe.Echo.Load.{created, linked, HasFlags, dos_name, driver_entry_inner_starts}
use wdk_safe.Echo.Unload.{driver_unload_removes}

module _ (sys : WdkSys) (kernel : Kernel) (prints : PrintsOnly sys kernel) where
  -- If `IoCreateDevice` and `IoCreateSymbolicLink` succeed, the created device is not null and has
  -- 32 bits of flags.
  abbrev pub CanLoad : DriverObject → World → Type 0
  CanLoad d w =
      (eq_ℤ (created sys kernel prints d w).status sys.status_success ≡ true
        → eq_ℤ (linked sys kernel prints d w).status sys.status_success ≡ true
        → (created sys kernel prints d w).pointer ≢ null)
      × HasFlags sys kernel prints d w

  abbrev pub callbacks : Callbacks
  callbacks = record {
    entry = driver_entry sys kernel;
    unload = driver_unload sys kernel;
    methods = driver sys kernel;
    device = λ d w. (created sys kernel prints d w).pointer;
    CanLoad = CanLoad;
    Ready = IsEchoReady sys kernel;
  }

  -- What holds at any time: a driver that is not loaded has left nothing behind, one that is has one
  -- device and one link, and the machine is not stopped.
  abbrev pub Inv : World → List Ptr → Life → Type 0
  Inv w₀ irps (idle n d w) =
      (devices sys.status_success w.effects ≡ devices sys.status_success w₀.effects)
      × (links sys.status_success w.effects ≡ links sys.status_success w₀.effects)
      × Accounts w₀ irps w
  Inv w₀ irps (serving n d w) = Serves sys dos_name w₀ irps d w
  Inv w₀ irps crashed = ⊥

  enters-Inv :
      SuccessAgrees sys
      → (w₀ : World) (irps : List Ptr) (n : ℕ) (d : DriverObject) (w : World) → CanLoad d w
      → Inv w₀ irps (idle n d w)
      → Inv w₀ irps (
          after_entry sys callbacks n
            (created sys kernel prints d w).pointer
            (driver_entry sys kernel d w))
  unfolding driver_entry
  enters-Inv agrees w₀ irps n d w (there, has_flags) (devs, lks, counts) =
      elim (driver_entry_inner_starts sys kernel prints d w has_flags) [
        | inl refused ↦
            rw (refused.ends, ◌>>=◌, refused.not_success)
              (
                refused.same_devices ∙ devs,
                refused.same_links ∙ lks,
                Accounts-same w₀ irps w refused.world refused.same_requests counts,
              )
        | inr success ↦
            rw (success.loaded.ends, ◌>>=◌, agrees)
              (Serves-Loaded sys dos_name w₀ irps w _ _ _ _ success.loaded
                (there success.created_ok success.linked_ok) devs lks counts)
      ]

  leaves-Inv :
      (w₀ : World) (irps : List Ptr) (n : ℕ) (d : DriverObject) (w : World)
      → Inv w₀ irps (serving n d w)
      → Inv w₀ irps (after_unload sys callbacks n d (driver_unload sys kernel d w))
  leaves-Inv w₀ irps n d w (there, devs, lks, counts) =
      let (w', run, same_devices, same_links, same) =
        driver_unload_removes sys kernel prints d w (devices sys.status_success w₀.effects)
          (links sys.status_success w₀.effects) there devs lks in
      rw run (same_devices, same_links, Accounts-same w₀ irps w w' same counts)

  -- However often the driver is loaded, serves requests and is unloaded, it never stops the machine;
  -- whenever it is not loaded, the devices and the links are those from the beginning, and while it
  -- is loaded there is one device and one link more; and every IRP was completed or passed on as
  -- often as it was served. Conditions: `STATUS_SUCCESS` is the crate's success, printing changes no
  -- memory, if both calls of a load succeed the created device is not null and has 32 bits of flags,
  -- and every request that is served is ready.
  pub Lives-Inv :
      SuccessAgrees sys
      → (d₀ : DriverObject) (w₀ : World) (irps : List Ptr) (l : Life)
      → Lives sys callbacks d₀ w₀ irps l
      → Inv w₀ irps l
  Lives-Inv agrees d₀ w₀ =
      Lives-Preserved sys callbacks (driver-Disposes_echo sys kernel prints)
        (record {
          on_entry = enters-Inv agrees w₀;
          on_disposal = λ irps n. Serves-disposed sys dos_name w₀ irps;
          on_unload = leaves-Inv w₀;
        })
        d₀ w₀ (refl, refl, λ p. omega arith)
