-- ===== src/NullDevice/Lifetime.antt =====
-- The life of the null device: it is loaded, serves requests and is unloaded, any number of times.
use wdk_safe.Base.{
  eq_ℤ, true, suc, zero, ℕ, ◌≡◌, ◌≢◌, inl, inr, refl, false, List, [], ◌∷◌, arith, ap, ◌∙◌,
  Bool-cases, same_name,
}
use wdk_safe.Memory.{Ptr, null}
use wdk_safe.Machine.{World, Kernel, ◌>>=◌}
use wdk_safe.Machine.Resources.{devices, links, without_link}
use wdk_safe.Wdm.{WdkSys}
use wdk_safe.Wdm.Completion.{PrintsOnly}
use wdk_safe.Wdm.Objects.{DriverObject}
use wdk_safe.Wdm.Life.{
  Accounts, Accounts-same, SuccessAgrees, Serves, Serves-Loaded, Serves-disposed,
}
use wdk_safe.Wdm.Lifetime.{
  Callbacks, Life, idle, serving, crashed, after_entry, after_unload, Lives, Lives-Preserved,
}
use wdk_safe.Wdm.Loading.{Refused}
use wdk_safe.Wdm.Unicode.{units, described}
use wdk_safe.NullDevice.{driver, driver_entry, driver_entry_inner, driver_unload, unload_name_buf}
use wdk_safe.NullDevice.Contract.{IsNullReady, driver-Disposes_null}
use wdk_safe.NullDevice.Load.{
  created, linked, HasFlags, dos_name, driver_entry_inner_all_or_nothing,
}
use wdk_safe.NullDevice.Unload.{driver_unload_keeps_link}
use wdk_safe.NullDevice.Reload.{has_link, RefusesTaken, taken-Refused}

-- Deleting a link that is not there changes nothing.
without_link-absent :
    (n : List ℕ) (ls : List (List ℕ)) → has_link n ls ≡ false → without_link n ls ≡ ls
without_link-absent n [] e = refl
without_link-absent n (l ∷ ls) e = elim (Bool-cases (same_name n l)) [
  | inl same ↦ ground arith
  | inr other ↦
      let rest : has_link n ls ≡ false = ground arith in
      rw (other, without_link-absent n ls rest) refl
]

module _ (sys : WdkSys) (kernel : Kernel) (prints : PrintsOnly sys kernel) where
  -- If `IoCreateDevice` and `IoCreateSymbolicLink` succeed, the created device is not null and has
  -- flags.
  abbrev pub CanLoad : DriverObject → World → Type 0
  CanLoad d w =
      (eq_ℤ (created sys kernel prints d w).status sys.status_success ≡ true
        → eq_ℤ (linked sys kernel prints d w).status sys.status_success ≡ true
        → (created sys kernel prints d w).pointer ≢ null)
      × HasFlags sys kernel prints d w

  abbrev pub callbacks : Callbacks
  callbacks = record {
    entry = driver_entry sys kernel;
    unload = driver_unload sys kernel;
    methods = driver sys kernel;
    device = λ d w. (created sys kernel prints d w).pointer;
    CanLoad = CanLoad;
    Ready = IsNullReady sys kernel;
  }

  -- The links from the beginning, and that of the driver if a load has succeeded.
  abbrev pub left : ℕ → List (List ℕ) → List (List ℕ)
  left zero lks = lks
  left (suc n) lks = dos_name ∷ lks

  -- What holds at any time: there are the devices from the beginning, and that of the driver while it
  -- is loaded, which no load but the first can bring about. The links are those from the beginning
  -- until the driver is loaded, and from then on its link is there too.
  abbrev pub Inv : World → List Ptr → Life → Type 0
  Inv w₀ irps (idle n d w) =
      (devices sys.status_success w.effects ≡ devices sys.status_success w₀.effects)
      × (links sys.status_success w.effects ≡ left n (links sys.status_success w₀.effects))
      × Accounts w₀ irps w
  Inv w₀ irps (serving n d w) = (n ≡ 1) × Serves sys dos_name w₀ irps d w
  Inv w₀ irps crashed = ⊥

  Refused-Inv :
      (w₀ : World) (irps : List Ptr) (n : ℕ) (d : DriverObject) (w : World)
      → Refused sys.status_success w (driver_entry_inner sys kernel d w) d
      → Inv w₀ irps (idle n d w)
      → Inv w₀ irps (
          after_entry sys callbacks n
            (created sys kernel prints d w).pointer
            (driver_entry sys kernel d w))
  unfolding driver_entry
  Refused-Inv w₀ irps n d w refused (devs, lks, counts) =
      rw (refused.ends, ◌>>=◌, refused.not_success)
        (
          refused.same_devices ∙ devs,
          refused.same_links ∙ lks,
          Accounts-same w₀ irps w refused.world refused.same_requests counts,
        )

  enters-Inv :
      SuccessAgrees sys
      → RefusesTaken sys kernel
      → (w₀ : World) (irps : List Ptr) (n : ℕ) (d : DriverObject) (w : World) → CanLoad d w
      → Inv w₀ irps (idle n d w)
      → Inv w₀ irps (
          after_entry sys callbacks n
            (created sys kernel prints d w).pointer
            (driver_entry sys kernel d w))
  unfolding driver_entry
  enters-Inv agrees taken w₀ irps (suc n) d w can (devs, lks, counts) =
      Refused-Inv w₀ irps (suc n) d w (taken-Refused sys kernel prints taken d w (rw lks refl))
        (devs, lks, counts)
  enters-Inv agrees taken w₀ irps zero d w (there, has_flags) (devs, lks, counts) =
      elim (driver_entry_inner_all_or_nothing sys kernel prints d w has_flags) [
        | inl refused ↦ Refused-Inv w₀ irps zero d w refused (devs, lks, counts)
        | inr success ↦
            rw (success.loaded.ends, ◌>>=◌, agrees)
              (
                refl,
                Serves-Loaded sys dos_name w₀ irps w _ _ _ _ success.loaded
                    (there success.created_ok success.linked_ok) devs lks counts,
              )
      ]

  leaves-Inv :
      (w₀ : World)
      → has_link (units (described unload_name_buf)) (links sys.status_success w₀.effects) ≡ false
      → (irps : List Ptr) (n : ℕ) (d : DriverObject) (w : World) → Inv w₀ irps (serving n d w)
      → Inv w₀ irps (after_unload sys callbacks n d (driver_unload sys kernel d w))
  leaves-Inv w₀ absent irps n d w (once, (there, devs, lks, counts)) =
      let (w', run, same_devices, kept_link, same) =
        driver_unload_keeps_link sys kernel prints d w (devices sys.status_success w₀.effects)
          (links sys.status_success w₀.effects) there devs lks in
      rw (run, once)
        (
          same_devices,
          kept_link
              ∙ ap (λ (l : List (List ℕ)). dos_name ∷ l)
                  (without_link-absent (units (described unload_name_buf)) _ absent),
          Accounts-same w₀ irps w w' same counts,
        )

  -- However often the null device is loaded, serves requests and is unloaded, it never stops the
  -- machine; the devices are those from the beginning, and one more while it is loaded; the links
  -- are those from the beginning until a load has succeeded, and those and its own from the first
  -- success on, loaded or not, and no second load succeeds; and every IRP was completed or passed
  -- on as often as it was served. Conditions: `STATUS_SUCCESS` is the crate's success, printing
  -- changes no memory, `IoCreateSymbolicLink` does not succeed for a name that is a link already,
  -- if both calls of a load succeed the created device is not null and has flags, every request
  -- that is served is ready, and at first there is no link of the name that `driver_unload`
  -- deletes.
  pub Lives-Inv_null :
      SuccessAgrees sys
      → RefusesTaken sys kernel
      → (d₀ : DriverObject) (w₀ : World)
      → has_link (units (described unload_name_buf)) (links sys.status_success w₀.effects) ≡ false
      → (irps : List Ptr) (l : Life) → Lives sys callbacks d₀ w₀ irps l
      → Inv w₀ irps l
  Lives-Inv_null agrees taken d₀ w₀ absent =
      Lives-Preserved sys callbacks (driver-Disposes_null sys kernel prints)
        (record {
          on_entry = enters-Inv agrees taken w₀;
          on_disposal = λ irps n d irp w w' once (one, serves).
              (one, Serves-disposed sys dos_name w₀ irps d irp w w' once serves);
          on_unload = leaves-Inv w₀ absent;
        })
        d₀ w₀ (refl, refl, λ p. omega arith)
