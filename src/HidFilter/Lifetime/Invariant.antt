-- ===== src/HidFilter/Lifetime/Invariant.antt =====
-- What holds through the life of the filter.
use wdk_safe.Base.{ℕ, ◌<◌, ◌≡◌, inl, inr, refl, List, [], ◌∷◌, length, arith, ◌∙◌}
use wdk_safe.Memory.{Ptr}
use wdk_safe.Machine.{World, Kernel, ◌>>=◌, po_start_next_power_irp}
use wdk_safe.Machine.Resources.{devices, attachments, SameResources}
use wdk_safe.Wdm.Loading.{SameRequests}
use mathlib.Core.Path.{subst}
use wdk_safe.Driver.Defaults.{Major}
use wdk_safe.Wdm.{WdkSys}
use wdk_safe.Wdm.Completion.{PrintsOnly}
use wdk_safe.Wdm.Objects.{DriverObject}
use wdk_safe.Wdm.Life.{IsRequest, served, Accounts-same, Accounts-disposed, SuccessAgrees}
use wdk_safe.HidFilter.{driver, driver_entry, driver_unload}
use wdk_safe.HidFilter.Contract.{IsFilterReady, driver-Disposes_filter}
use wdk_safe.HidFilter.Entry.{driver_entry_inner-Registered}
use wdk_safe.HidFilter.Unload.{
  Pair, LeavesOthers, driver_unload_detaches, attachments-teardown, teardown-same, links-teardown,
}
use wdk_safe.HidFilter.Added.{Kept, Chain-Kept}
use wdk_safe.HidFilter.Lifetime.{
  Life, idle, serving, after_entry, after_request, after_unload, Undisturbed, serve, Lives, begins,
  enters, adds, serves, elsewhere, leaves, Balance, Inv,
}
use wdk_safe.HidFilter.Lifetime.Adds.{unsuccessful_lem, adds-Inv}

module _ (sys : WdkSys) (kernel : Kernel) (prints : PrintsOnly sys kernel) where
  Balance-same :
      (w₀ : World) (irps : List Ptr) (ps : List Pair) (w w' : World)
      → SameResources w w'
      → SameRequests w w'
      → Balance sys kernel prints w₀ irps ps w
      → Balance sys kernel prints w₀ irps ps w'
  Balance-same w₀ irps ps w w' same requests b =
      let (same_devices, same_links, same_attachments) = same sys.status_success in
      record {
        devs = same_devices ∙ b.devs;
        lks = same_links ∙ b.lks;
        below = same_attachments ∙ b.below;
        counts = Accounts-same w₀ irps w w' requests b.counts;
      }

  enters-Inv :
      SuccessAgrees sys
      → (w₀ : World) (irps : List Ptr) (d : DriverObject) (w : World)
      → Inv sys kernel prints w₀ irps (idle d w)
      → Inv sys kernel prints w₀ irps (after_entry sys kernel prints (driver_entry sys kernel d w))
  unfolding driver_entry
  enters-Inv agrees w₀ irps d w (none_there, b) =
      let (status, d', w', run, same_memory, same, requests, how) =
        driver_entry_inner-Registered sys kernel prints d w in
      let after = Balance-same w₀ irps [] w w' same requests b in
      elim how [
        | inl (missing, e, unchanged) ↦
            rw (run, ◌>>=◌, e, unsuccessful_lem sys kernel prints agrees)
              (rw unchanged none_there, after)
        | inr (present, e, registered) ↦
            rw (run, ◌>>=◌, e, agrees) (registered.same_device ∙ none_there, after)
      ]

  serves-Inv :
      ((p : Ptr) (w : World) → (kernel (po_start_next_power_irp p) w).mem ≡ w.mem)
      → (w₀ : World) (irps : List Ptr) (d : DriverObject) (ps : List Pair) (w : World)
        (major : Major) (device irp stack : Ptr)
      → IsRequest sys (IsFilterReady sys kernel) major device irp stack w
      → Undisturbed sys kernel prints ps w (serve sys kernel prints major device irp w)
      → Inv sys kernel prints w₀ irps (serving d ps w)
      → Inv sys kernel prints w₀
          (irp ∷ irps)
          (after_request sys kernel prints d ps (serve sys kernel prints major device irp w))
  serves-Inv starts w₀ irps d ps w major device irp stack request quiet (chain, b) =
      let (status, w', run, once) =
        served sys (IsFilterReady sys kernel) (driver sys kernel)
          (driver-Disposes_filter sys kernel prints starts) major device irp stack w request in
      let (same_devices, same_links, same_attachments) = once.same_resources sys.status_success in
      let kept : Kept sys ps w.mem w'.mem = subst (Undisturbed sys kernel prints ps w) run quiet in
      rw run (
        Chain-Kept sys ps d.device_object w.mem w'.mem kept chain,
        record {
          devs = same_devices ∙ b.devs;
          lks = same_links ∙ b.lks;
          below = same_attachments ∙ b.below;
          counts = Accounts-disposed w₀ irps irp w w' once b.counts;
        },
      )

  leaves-Inv :
      LeavesOthers sys kernel
      → (w₀ : World) (irps : List Ptr) (d : DriverObject) (ps : List Pair) (w : World) (fuel : ℕ)
      → length ps < fuel
      → Inv sys kernel prints w₀ irps (serving d ps w)
      → Inv sys kernel prints w₀ irps
          (after_unload sys kernel prints d (driver_unload sys kernel fuel d w))
  leaves-Inv spares w₀ irps d ps w fuel enough (chain, b) =
      let (w', run, es, devs) =
        driver_unload_detaches sys kernel spares prints d ps (devices sys.status_success w₀.effects)
          w fuel enough chain b.devs in
      rw run (
        refl,
        record {
          devs = devs;
          lks = rw es (links-teardown sys.status_success ps _ ∙ b.lks);
          below = rw es (attachments-teardown ps (attachments w₀.effects) _ b.below);
          counts = Accounts-same w₀ irps w w' (λ q. rw es (teardown-same q ps _)) b.counts;
        },
      )

  -- However often the filter is loaded, added to device stacks, serves requests and is unloaded, it
  -- never stops the machine and its unloading ends; whenever it is not loaded, the devices, the
  -- links and the devices that are attached to are those from the beginning; while it is loaded,
  -- its devices and the attachments below them, and no others, are there besides, and the driver's
  -- list in memory leads through them; and every IRP was completed or passed on as often as it was
  -- served. Conditions: `STATUS_SUCCESS` is the crate's success; printing and `PoStartNextPowerIrp`
  -- change no memory; deleting and detaching a device leave the others alone; no call of AddDevice
  -- touches the devices of the list, and a created device is none of these and not null; if a
  -- device is created and attached, it is in front of the list, its fields and those of the lower
  -- device are there and do not overlap with each other and with those of the list, the flags have
  -- 32 bits and the address of the lower device 64, and in a debug build the stack size of the
  -- lower device is not 127, for which AddDevice would panic; every request that is served is
  -- ready, and no request and no other driver touches the devices of the list.
  pub Lives-Inv_filter :
      SuccessAgrees sys
      → LeavesOthers sys kernel
      → ((p : Ptr) (w : World) → (kernel (po_start_next_power_irp p) w).mem ≡ w.mem)
      → (d₀ : DriverObject) (w₀ : World) (irps : List Ptr) (l : Life)
      → Lives sys kernel prints d₀ w₀ irps l
      → Inv sys kernel prints w₀ irps l
  Lives-Inv_filter agrees spares starts d₀ w₀ irps l (begins none_there) =
      (none_there, record { devs = refl; lks = refl; below = refl; counts = λ p. omega arith })
  Lives-Inv_filter agrees spares starts d₀ w₀ irps l (enters {d = d} {w = w} lives) =
      enters-Inv agrees w₀ irps d w
        (Lives-Inv_filter agrees spares starts d₀ w₀ irps (idle d w) lives)
  Lives-Inv_filter agrees spares starts d₀ w₀ irps l
        (adds {d = d} {ps = ps} {w = w} lives pdo can) =
      adds-Inv sys kernel prints agrees spares w₀ irps d ps w pdo can
        (Lives-Inv_filter agrees spares starts d₀ w₀ irps (serving d ps w) lives)
  Lives-Inv_filter agrees spares starts d₀ w₀ irps l
        (serves {irps = is} {d = d} {ps = ps} {w = w} lives major device irp stack request quiet) =
      serves-Inv starts w₀ is d ps w major device irp stack request quiet
        (Lives-Inv_filter agrees spares starts d₀ w₀ is (serving d ps w) lives)
  Lives-Inv_filter agrees spares starts d₀ w₀ irps l
        (elsewhere {d = d} {ps = ps} {w = w} lives m kept) =
      let (chain, b) = Lives-Inv_filter agrees spares starts d₀ w₀ irps (serving d ps w) lives in
      (
        Chain-Kept sys ps d.device_object w.mem m kept chain,
        record { devs = b.devs; lks = b.lks; below = b.below; counts = b.counts },
      )
  Lives-Inv_filter agrees spares starts d₀ w₀ irps l
        (leaves {d = d} {ps = ps} {w = w} lives fuel enough) =
      leaves-Inv spares w₀ irps d ps w fuel enough
        (Lives-Inv_filter agrees spares starts d₀ w₀ irps (serving d ps w) lives)
