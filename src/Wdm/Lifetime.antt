-- ===== src/Wdm/Lifetime.antt =====
-- The life of a driver with one device, as the I/O manager leads it: `DriverEntry`, requests, and
-- `DriverUnload`, any number of times.
use wdk_safe.Base.{ℕ, suc, if◌then◌else◌, ℤ, eq_ℤ, List, [], ◌∷◌}
use wdk_safe.Memory.{Ptr, null}
use wdk_safe.Machine.{World, Outcome, ok, panic, fault, Cmd}
use wdk_safe.Device.{Device}
use wdk_safe.Request.{IoRequest}
use wdk_safe.Driver.{WdmDriver}
use wdk_safe.Driver.Defaults.{Major, method}
use wdk_safe.Driver.Disposal.{Disposes, DisposedOnce}
use wdk_safe.Thunk.{dispatch_fn}
use wdk_safe.Wdm.{WdkSys, irp_current_stack}
use wdk_safe.Wdm.Life.{IsRequest, served}
use wdk_safe.Wdm.Objects.{DriverObject}

-- What the I/O manager calls, with the device that an entry creates, and the conditions under which
-- it calls.
pub record Callbacks : Type 1 where
  pub entry : DriverObject → Cmd (ℤ × DriverObject)
  pub unload : DriverObject → Cmd (Unit {0})
  pub methods : WdmDriver
  pub device : DriverObject → World → Ptr
  pub CanLoad : DriverObject → World → Type 0
  pub Ready : Major → Device → IoRequest → World → Type 0

-- The driver is not loaded or is loaded, with the number of loads that have succeeded so far, or it
-- has stopped the machine.
pub data Life : Type 0 where
  idle : ℕ → DriverObject → World → Life
  serving : ℕ → DriverObject → World → Life
  crashed : Life

module _ (sys : WdkSys) (c : Callbacks) where
  -- What the I/O manager does after `DriverEntry`: it keeps the driver if the status is success, and
  -- the device is then the driver's first one.
  abbrev pub after_entry : ℕ → Ptr → Outcome (ℤ × DriverObject) → Life
  after_entry n device (ok (status, d) w) =
      if eq_ℤ status sys.status_success
      then serving (suc n) (record d { device_object = device }) w
      else idle n d w
  after_entry n device panic = crashed
  after_entry n device fault = crashed

  abbrev pub after_request : ℕ → DriverObject → Outcome ℤ → Life
  after_request n d (ok status w) = serving n d w
  after_request n d panic = crashed
  after_request n d fault = crashed

  abbrev pub after_unload : ℕ → DriverObject → Outcome (Unit {0}) → Life
  after_unload n d (ok _ w) = idle n (record d { device_object = null }) w
  after_unload n d panic = crashed
  after_unload n d fault = crashed

  -- The lives that begin with an unloaded driver, with the IRPs served so far, the latest first.
  pub data Lives (d₀ : DriverObject) (w₀ : World) : List Ptr → Life → Type 0 where
    begins : Lives d₀ w₀ [] (idle 0 d₀ w₀)
    enters :
        {irps : List Ptr} {n : ℕ} {d : DriverObject} {w : World}
        → Lives d₀ w₀ irps (idle n d w)
        → c.CanLoad d w
        → Lives d₀ w₀ irps (after_entry n (c.device d w) (c.entry d w))
    serves :
        {irps : List Ptr} {n : ℕ} {d : DriverObject} {w : World}
        → Lives d₀ w₀ irps (serving n d w)
        → (major : Major) (device irp stack : Ptr) → IsRequest sys c.Ready major device irp stack w
        → Lives d₀ w₀ (irp ∷ irps) (
            after_request n d
              (dispatch_fn (method c.methods major) (irp_current_stack sys) device irp w))
    leaves :
        {irps : List Ptr} {n : ℕ} {d : DriverObject} {w : World}
        → Lives d₀ w₀ irps (serving n d w)
        → Lives d₀ w₀ irps (after_unload n d (c.unload d w))

  -- A predicate that each callback preserves. Requests need one step only: what was disposed of once
  -- keeps the predicate.
  pub record Preserves (Inv : List Ptr → Life → Type 0) : Type 0 where
    pub on_entry :
        (irps : List Ptr) (n : ℕ) (d : DriverObject) (w : World)
        → c.CanLoad d w
        → Inv irps (idle n d w)
        → Inv irps (after_entry n (c.device d w) (c.entry d w))
    pub on_disposal :
        (irps : List Ptr) (n : ℕ) (d : DriverObject) (irp : Ptr) (w w' : World)
        → DisposedOnce irp w w'
        → Inv irps (serving n d w)
        → Inv (irp ∷ irps) (serving n d w')
    pub on_unload :
        (irps : List Ptr) (n : ℕ) (d : DriverObject) (w : World)
        → Inv irps (serving n d w)
        → Inv irps (after_unload n d (c.unload d w))

  -- It holds through every life of a driver that keeps the contract.
  pub Lives-Preserved :
      {Inv : List Ptr → Life → Type 0}
      → Disposes c.methods c.Ready
      → Preserves Inv
      → (d₀ : DriverObject) (w₀ : World) → Inv [] (idle 0 d₀ w₀)
      → (irps : List Ptr) (l : Life) → Lives d₀ w₀ irps l
      → Inv irps l
  Lives-Preserved contract step d₀ w₀ first irps l begins = first
  Lives-Preserved contract step d₀ w₀ first irps l (enters {n = n} {d = d} {w = w} lives can) =
      step.on_entry irps n d w can
        (Lives-Preserved contract step d₀ w₀ first irps (idle n d w) lives)
  Lives-Preserved contract step d₀ w₀ first irps l
        (serves {irps = is} {n = n} {d = d} {w = w} lives major device irp stack request) =
      let (status, w', run, once) =
        served sys c.Ready c.methods contract major device irp stack w request in
      rw run (
        step.on_disposal is n d irp w w' once
          (Lives-Preserved contract step d₀ w₀ first is (serving n d w) lives))
  Lives-Preserved contract step d₀ w₀ first irps l (leaves {n = n} {d = d} {w = w} lives) =
      step.on_unload irps n d w
        (Lives-Preserved contract step d₀ w₀ first irps (serving n d w) lives)
