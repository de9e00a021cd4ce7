-- ===== src/HidFilter/Lifetime.antt =====
-- The life of the filter: it is loaded, is added to any number of device stacks, serves requests and
-- is unloaded, any number of times.
pub mod Adds
pub mod Invariant
use wdk_safe.Base.{
  ℕ, ◌+◌, ◌<◌, ◌≡◌, ◌≢◌, ◌⊎◌, inl, inr, refl, sym, true, false, Option, none, some, List, [], ◌∷◌,
  ◌++◌, length, ℤ, eq_ℤ, eq_ℤ_eq, ◌==◌, if◌then◌else◌, arith, ap, ◌∙◌, Bool-cases, ==_iff, as_i32,
}
use wdk_safe.Status
use wdk_safe.Status.{NtStatus}
use wdk_safe.Status.Codes
use wdk_safe.Memory.{Ptr, Memory, null, read_le}
use wdk_safe.Machine.{
  World, Outcome, ok, panic, fault, Kernel, ◌>>=◌, po_start_next_power_irp, dbg_print,
}
use wdk_safe.Machine.Resources.{devices, links, attachments, SameResources}
use wdk_safe.Wdm.Loading.{SameRequests}
use mathlib.Core.Path.{subst}
use wdk_safe.Driver.Defaults.{Major, method}
use wdk_safe.Thunk.{dispatch_fn}
use wdk_safe.Wdm.{WdkSys, irp_current_stack}
use wdk_safe.Wdm.Completion.{PrintsOnly}
use wdk_safe.Wdm.Objects.{DriverObject}
use wdk_safe.Wdm.Life.{IsRequest, served, Accounts, Accounts-same, Accounts-disposed, SuccessAgrees}
use wdk_safe.HidFilter.{driver, driver_entry, add_device, add_device_inner, driver_unload}
use wdk_safe.HidFilter.Configure.{Fields, configured}
use wdk_safe.HidFilter.Attach.{
  created, after_create, attached, after_attach, create_fails, attach_fails, succeeds, Failed,
  Succeeded,
}
use wdk_safe.HidFilter.Contract.{IsFilterReady, driver-Disposes_filter}
use wdk_safe.HidFilter.Entry.{driver_entry_inner-Registered}
use wdk_safe.HidFilter.Unload.{
  Pair, Absent, Chain, filters, lowers, LeavesOthers, teardown, driver_unload_detaches,
  attachments-teardown, teardown-same, links-teardown,
}
use wdk_safe.HidFilter.Added.{
  Kept, Kept-trans, Chain-Kept, deletion-Kept, Outside, configured-Outside, Spared, configured-Kept,
}

-- The driver is not loaded; or it is loaded and has these devices, the latest first; or it has
-- stopped the machine or hangs.
pub data Life : Type 0 where
  idle : DriverObject → World → Life
  serving : DriverObject → List Pair → World → Life
  crashed : Life

module _ (sys : WdkSys) (kernel : Kernel) (prints : PrintsOnly sys kernel) where
  -- The I/O manager keeps a driver whose `DriverEntry` returns success.
  abbrev pub after_entry : Outcome (ℤ × DriverObject) → Life
  after_entry (ok (status, d) w) =
      if eq_ℤ status sys.status_success then serving d [] w else idle d w
  after_entry panic = crashed
  after_entry fault = crashed

  -- A device that was added is the driver's first one.
  abbrev pub after_add : DriverObject → List Pair → Pair → Outcome ℤ → Life
  after_add d ps p (ok status w) =
      if eq_ℤ status sys.status_success
      then serving (record d { device_object = p.filter }) (p ∷ ps) w
      else serving d ps w
  after_add d ps p panic = crashed
  after_add d ps p fault = crashed

  abbrev pub after_request : DriverObject → List Pair → Outcome ℤ → Life
  after_request d ps (ok status w) = serving d ps w
  after_request d ps panic = crashed
  after_request d ps fault = crashed

  abbrev pub after_unload : DriverObject → Outcome (Option (Unit {0})) → Life
  after_unload d (ok (some _) w) = idle (record d { device_object = null }) w
  after_unload d (ok none w) = crashed
  after_unload d panic = crashed
  after_unload d fault = crashed

  -- What the kernel documents of the calls of AddDevice, and where the fields of the devices lie. A
  -- device that is created is another one than those that are there, and is put in front of the
  -- driver's list; no call touches the devices that are there.
  pub record CanAdd (d : DriverObject) (ps : List Pair) (pdo : Ptr) (w : World) : Type 0 where
    pub create_keeps : Kept sys ps w.mem (created sys kernel prints d pdo w).mem
    pub creates :
        eq_ℤ (created sys kernel prints d pdo w).status sys.status_success ≡ true
        → ((created sys kernel prints d pdo w).pointer ≢ null)
          × Absent (created sys kernel prints d pdo w).pointer ps
          × Kept sys ps
              (created sys kernel prints d pdo w).mem
              (attached sys kernel prints d pdo w).mem
    pub attaches :
        eq_ℤ (created sys kernel prints d pdo w).status sys.status_success ≡ true
        → (attached sys kernel prints d pdo w).pointer ≢ null
        → (f : Fields sys w.debug_assertions
            (created sys kernel prints d pdo w).pointer
            (attached sys kernel prints d pdo w).pointer
            (attached sys kernel prints d pdo w).mem)
          × (read_le 8
                ((created sys kernel prints d pdo w).pointer + sys.next_device)
                (attached sys kernel prints d pdo w).mem
              ≡ some d.device_object)
          × Outside sys
              (created sys kernel prints d pdo w).pointer
              (attached sys kernel prints d pdo w).pointer
              (after_attach sys kernel prints d pdo w)
              f
              8
              ((created sys kernel prints d pdo w).pointer + sys.next_device)
          × Spared sys
              (created sys kernel prints d pdo w).pointer
              (attached sys kernel prints d pdo w).pointer
              (after_attach sys kernel prints d pdo w)
              f
              ps

  -- The devices added by the call, if any: the filter's and the one below.
  abbrev pub added : DriverObject → Ptr → World → Pair
  added d pdo w = record {
    filter = (created sys kernel prints d pdo w).pointer;
    lower = (attached sys kernel prints d pdo w).pointer;
  }

  -- A request and the drivers below do not touch the filter's devices.
  abbrev pub Undisturbed : List Pair → World → Outcome ℤ → Type 0
  Undisturbed ps w (ok status w') = Kept sys ps w.mem w'.mem
  Undisturbed ps w panic = Unit
  Undisturbed ps w fault = Unit

  abbrev pub serve : Major → Ptr → Ptr → World → Outcome ℤ
  serve major device irp =
      dispatch_fn (method (driver sys kernel) major) (irp_current_stack sys) device irp

  -- The lives that begin with a driver that is not loaded, with the IRPs served so far.
  pub data Lives (d₀ : DriverObject) (w₀ : World) : List Ptr → Life → Type 0 where
    begins : d₀.device_object ≡ null → Lives d₀ w₀ [] (idle d₀ w₀)
    enters :
        {irps : List Ptr} {d : DriverObject} {w : World}
        → Lives d₀ w₀ irps (idle d w)
        → Lives d₀ w₀ irps (after_entry (driver_entry sys kernel d w))
    adds :
        {irps : List Ptr} {d : DriverObject} {ps : List Pair} {w : World}
        → Lives d₀ w₀ irps (serving d ps w)
        → (pdo : Ptr) → CanAdd d ps pdo w
        → Lives d₀ w₀ irps (after_add d ps (added d pdo w) (add_device sys kernel d pdo w))
    serves :
        {irps : List Ptr} {d : DriverObject} {ps : List Pair} {w : World}
        → Lives d₀ w₀ irps (serving d ps w)
        → (major : Major) (device irp stack : Ptr)
        → IsRequest sys (IsFilterReady sys kernel) major device irp stack w
        → Undisturbed ps w (serve major device irp w)
        → Lives d₀ w₀ (irp ∷ irps) (after_request d ps (serve major device irp w))
    elsewhere :
        {irps : List Ptr} {d : DriverObject} {ps : List Pair} {w : World}
        → Lives d₀ w₀ irps (serving d ps w)
        → (m : Memory) → Kept sys ps w.mem m
        → Lives d₀ w₀ irps (serving d ps (record w { mem = m }))
    leaves :
        {irps : List Ptr} {d : DriverObject} {ps : List Pair} {w : World}
        → Lives d₀ w₀ irps (serving d ps w)
        → (fuel : ℕ) → length ps < fuel
        → Lives d₀ w₀ irps (after_unload d (driver_unload sys kernel fuel d w))

  -- The devices, links and attachments are those from the beginning, but for the filter's.
  pub record Balance (w₀ : World) (irps : List Ptr) (ps : List Pair) (w : World) : Type 0 where
    pub devs :
        devices sys.status_success w.effects ≡ filters ps ++ devices sys.status_success w₀.effects
    pub lks : links sys.status_success w.effects ≡ links sys.status_success w₀.effects
    pub below : attachments w.effects ≡ lowers ps ++ attachments w₀.effects
    pub counts : Accounts w₀ irps w

  -- What holds at any time. While the driver is loaded, its list in memory has its devices.
  abbrev pub Inv : World → List Ptr → Life → Type 0
  Inv w₀ irps (idle d w) = (d.device_object ≡ null) × Balance w₀ irps [] w
  Inv w₀ irps (serving d ps w) = Chain sys ps d.device_object w.mem × Balance w₀ irps ps w
  Inv w₀ irps crashed = ⊥
