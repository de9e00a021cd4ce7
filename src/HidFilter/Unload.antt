-- ===== src/HidFilter/Unload.antt =====
-- The loop of the filter's `driver_unload`.
use mathlib.Core.Path.{subst}
use wdk_safe.Base.{
  ℕ, zero, suc, ◌+◌, ◌<◌, ◌≡◌, ◌≢◌, refl, some, List, [], ◌∷◌, ◌++◌, length, arith, ==_false,
  ==_refl, ℤ,
}
use wdk_safe.Memory.{Ptr, Memory, read_le}
use wdk_safe.Machine.{
  World, ok, Kernel, Effect, dbg_print, io_detach_device, io_delete_device, ◌>>=◌, completions,
  forwards,
}
use wdk_safe.Machine.Access.{load_lem}
use wdk_safe.Wdm.{WdkSys}
use wdk_safe.Wdm.Completion.{PrintsOnly, answered, logged, debug_print_lem}
use wdk_safe.Wdm.Objects.{DriverObject}
use wdk_safe.Machine.Resources.{devices, links, attachments}
use wdk_safe.HidFilter.{detach, detach_all, driver_unload}

-- A filter device and the device below it.
pub record Pair : Type 0 where
  pub filter : Ptr
  pub lower : Ptr

-- The fields that the loop reads of one device.
pub record Entry (sys : WdkSys) (p : Pair) (next : Ptr) (m : Memory) : Type 0 where
  pub extension : Ptr
  pub next_field : read_le 8 (p.filter + sys.next_device) m ≡ some next
  pub extension_field : read_le 8 (p.filter + sys.device_extension) m ≡ some extension
  pub lower_field : read_le 8 extension m ≡ some p.lower

-- No device of the list is this one.
abbrev pub Absent : Ptr → List Pair → Type 0
Absent q [] = Unit
Absent q (p ∷ ps) = (p.filter ≢ q) × Absent q ps

-- The driver's list of devices in memory, from the given device on.
abbrev pub Chain : WdkSys → List Pair → Ptr → Memory → Type 0
Chain sys [] device m = device ≡ 0
Chain sys (p ∷ ps) device m =
    (device ≡ p.filter)
    × (device ≢ 0)
    × Absent device ps
    × ((next : Ptr) × Entry sys p next m × Chain sys ps next m)

abbrev pub filters : List Pair → List Ptr
filters [] = []
filters (p ∷ ps) = p.filter ∷ filters ps

abbrev pub lowers : List Pair → List Ptr
lowers [] = []
lowers (p ∷ ps) = p.lower ∷ lowers ps

-- The calls of the loop, the latest first.
abbrev pub teardown : List Pair → List Effect → List Effect
teardown [] es = es
teardown (p ∷ ps) es = teardown ps (io_delete_device p.filter ∷ io_detach_device p.lower ∷ es)

-- Detaching a device and deleting one leave the other devices of the list as they are.
pub record LeavesOthers (sys : WdkSys) (kernel : Kernel) : Type 0 where
  pub on_detach :
      (q : Ptr) (w : World) (p : Pair) (next : Ptr)
      → Entry sys p next w.mem
      → Entry sys p next (kernel (io_detach_device q) w).mem
  pub on_delete :
      (q : Ptr) (w : World) (p : Pair) (next : Ptr)
      → p.filter ≢ q
      → Entry sys p next w.mem
      → Entry sys p next (kernel (io_delete_device q) w).mem

module _ (sys : WdkSys) (kernel : Kernel) (leaves : LeavesOthers sys kernel) where
  -- The rest of the list is still there after one turn.
  detach-Chain :
      (ps : List Pair) (device gone lower : Ptr) (w : World)
      → Absent gone ps
      → Chain sys ps device w.mem
      → Chain sys ps device
          (answered sys kernel
            (io_delete_device gone)
            (answered sys kernel (io_detach_device lower) w)).mem
  detach-Chain [] device gone lower w a c = c
  detach-Chain (p ∷ ps) device gone lower w (ne, a) (e, nz, away, (next, entry, rest)) = (
    e,
    nz,
    away,
    (
      next,
      leaves.on_delete gone (answered sys kernel (io_detach_device lower) w) p next ne
          (leaves.on_detach lower w p next entry),
      detach-Chain ps next gone lower w a rest,
    ),
  )

  abbrev pub after_detach : Pair → World → World
  after_detach p w =
      answered sys kernel (io_delete_device p.filter)
        (answered sys kernel (io_detach_device p.lower) w)

  detach_lem :
      (p : Pair) (next : Ptr) (w : World)
      → Entry sys p next w.mem
      → detach sys kernel p.filter w ≡ ok next (after_detach p w)
  unfolding detach
  detach_lem p next w e = rw (
    load_lem 8 (p.filter + sys.next_device) next w e.next_field,
    ◌>>=◌,
    load_lem 8 (p.filter + sys.device_extension) e.extension w e.extension_field,
    ◌>>=◌,
    load_lem 8 e.extension p.lower w e.lower_field,
  )

  detach_all_lem :
      (n : ℕ) (ps : List Pair) (device : Ptr) (w : World)
      → length ps < n
      → Chain sys ps device w.mem
      → (w' : World) × (detach_all sys kernel n device w ≡ ok (some tt) w')
        × (w'.effects ≡ teardown ps w.effects)
  unfolding detach_all
  detach_all_lem zero ps device w lt c = absurd (omega arith)
  detach_all_lem (suc n) [] device w lt c = (w, rw c refl, refl)
  detach_all_lem (suc n) (p ∷ ps) device w lt (e, nz, away, (next, entry, rest)) =
      let (w', run, es) =
        detach_all_lem n ps next (after_detach p w) (omega arith)
          (detach-Chain ps next p.filter p.lower w (subst (λ q. Absent q ps) e away) rest) in
      (w', rw (detach_all, ==_false device 0 nz, e, detach_lem p next w entry, ◌>>=◌) run, es)

-- The devices that the log still has after the calls of the loop.
devices-teardown :
    (success : ℤ) (ps : List Pair) (rest : List Ptr) (es : List Effect)
    → devices success es ≡ filters ps ++ rest
    → devices success (teardown ps es) ≡ rest
devices-teardown success [] rest es e = e
devices-teardown success (p ∷ ps) rest es e =
    devices-teardown success ps rest _ (rw (e, ==_refl p.filter) refl)

-- The devices that were attached to, but for those of the list.
pub attachments-teardown :
    (ps : List Pair) (rest : List Ptr) (es : List Effect)
    → attachments es ≡ lowers ps ++ rest
    → attachments (teardown ps es) ≡ rest
attachments-teardown [] rest es e = e
attachments-teardown (p ∷ ps) rest es e =
    attachments-teardown ps rest _ (rw (e, ==_refl p.lower) refl)

pub links-teardown :
    (success : ℤ) (ps : List Pair) (es : List Effect)
    → links success (teardown ps es) ≡ links success es
links-teardown success [] es = refl
links-teardown success (p ∷ ps) es = links-teardown success ps _

-- The loop completes no IRP and passes none on.
pub teardown-same :
    (q : Ptr) (ps : List Pair) (es : List Effect)
    → (completions q (teardown ps es) ≡ completions q es)
      × (forwards q (teardown ps es) ≡ forwards q es)
teardown-same q [] es = (refl, refl)
teardown-same q (p ∷ ps) es = teardown-same q ps _

-- If the driver's devices form a list in memory that ends, and the kernel's deletions leave the
-- other devices alone, then `driver_unload` ends, on fuel for one turn per device and one more: it
-- detaches from each lower device and then deletes the filter device, in the order of the list, and
-- when these were the latest devices none of them is left. Condition: printing changes no memory.
pub driver_unload_detaches :
    (sys : WdkSys) (kernel : Kernel)
    → LeavesOthers sys kernel
    → PrintsOnly sys kernel
    → (d : DriverObject) (ps : List Pair) (rest : List Ptr) (w : World) (fuel : ℕ)
    → length ps < fuel
    → Chain sys ps d.device_object w.mem
    → devices sys.status_success w.effects ≡ filters ps ++ rest
    → (w' : World) × (driver_unload sys kernel fuel d w ≡ ok (some tt) w')
      × (w'.effects
          ≡ teardown ps (dbg_print "[hid-filter] DriverUnload -- detaching\n" ∷ w.effects))
      × (devices sys.status_success w'.effects ≡ rest)
unfolding driver_unload
driver_unload_detaches sys kernel leaves prints d ps rest w fuel lt c e =
    let start = logged sys kernel (dbg_print "[hid-filter] DriverUnload -- detaching\n") w in
    let (w', run, es) = detach_all_lem sys kernel leaves fuel ps d.device_object start lt c in
    (
      w',
      rw (debug_print_lem sys kernel "[hid-filter] DriverUnload -- detaching\n" w prints, ◌>>=◌)
          run,
      es,
      rw es (devices-teardown sys.status_success ps rest start.effects e),
    )
