-- ===== src/Wdm/Loading.antt =====
-- The two ends of a `DriverEntry` that creates a device and a link.
use wdk_safe.Base.{ℤ, ◌≡◌, false, List, ◌∷◌, ℕ, eq_ℤ}
use wdk_safe.Status.{NtStatus}
use wdk_safe.Status.Codes
use wdk_safe.Memory.{Ptr, Memory}
use wdk_safe.Machine.{World, Outcome, ok, completions, forwards}
use wdk_safe.Wdm.Objects.{DriverObject}
use wdk_safe.Machine.Resources.{devices, links}

-- No IRP was completed or passed on.
abbrev pub SameRequests : World → World → Type 0
SameRequests w w' =
    (p : Ptr)
    → (completions p w'.effects ≡ completions p w.effects)
      × (forwards p w'.effects ≡ forwards p w.effects)

module _ (success : ℤ) (w : World) (run : Outcome (NtStatus × DriverObject)) where
  -- Loading left the driver object, the devices and the links as they were, and says why.
  pub record Refused (d : DriverObject) : Type 0 where
    pub status : NtStatus
    pub world : World
    pub ends : run ≡ ok (status, d) world
    pub not_success : eq_ℤ status.value success ≡ false
    pub same_devices : devices success world.effects ≡ devices success w.effects
    pub same_links : links success world.effects ≡ links success w.effects
    pub same_requests : SameRequests w world

  -- The device and its link are there, and the driver object and memory are the given ones.
  pub record Loaded (d : DriverObject) (device : Ptr) (link : List ℕ) (mem : Memory) : Type 0 where
    pub world : World
    pub ends : run ≡ ok (Codes.success, d) world
    pub new_device : devices success world.effects ≡ device ∷ devices success w.effects
    pub new_link : links success world.effects ≡ link ∷ links success w.effects
    pub new_memory : world.mem ≡ mem
    pub same_requests : SameRequests w world
