-- ===== src/Machine/Resources.antt =====
-- What the log of calls says of the devices, symbolic links and attachments that exist, by the documentation of
-- the kernel's functions: a creation that returned success adds one, a deletion takes it away.
use wdk_safe.Base.{same_name, ℕ, List, [], ◌∷◌, ℤ, eq_ℤ, ◌≡◌, ◌==◌, if◌then◌else◌}
use wdk_safe.Memory.{Ptr}
use wdk_safe.Machine.{
  World, Effect, returned, io_create_device, io_delete_device, io_create_symbolic_link,
  io_delete_symbolic_link, io_attach_device, io_detach_device,
}

abbrev pub without_device : Ptr → List Ptr → List Ptr
without_device p [] = []
without_device p (q ∷ qs) = if p == q then qs else q ∷ without_device p qs

-- A link is its own name; which device it leads to is not recorded.
abbrev pub without_link : List ℕ → List (List ℕ) → List (List ℕ)
without_link n [] = []
without_link n (l ∷ ls) = if same_name n l then ls else l ∷ without_link n ls

module _ (success : ℤ) where
  abbrev pub devices : List Effect → List Ptr
  devices [] = []
  devices (returned s p ∷ io_create_device a q ∷ es) =
      let rest = devices es in if eq_ℤ s success then p ∷ rest else rest
  devices (io_delete_device p ∷ es) = without_device p (devices es)
  devices (_ ∷ es) = devices es

  abbrev pub links : List Effect → List (List ℕ)
  links [] = []
  links (returned s p ∷ io_create_symbolic_link n d ∷ es) =
      let rest = links es in if eq_ℤ s success then n ∷ rest else rest
  links (io_delete_symbolic_link n ∷ es) = without_link n (links es)
  links (_ ∷ es) = links es

-- The devices that were attached to, the latest first, and not detached from since. A null answer
-- says that the attachment failed.
abbrev pub attachments : List Effect → List Ptr
attachments [] = []
attachments (returned s p ∷ io_attach_device a b ∷ es) =
    let rest = attachments es in if p == 0 then rest else p ∷ rest
attachments (io_detach_device p ∷ es) = without_device p (attachments es)
attachments (_ ∷ es) = attachments es

-- No device, no link and no attachment came or went.
abbrev pub SameResources : World → World → Type 0
SameResources w w' =
    (success : ℤ)
    → (devices success w'.effects ≡ devices success w.effects)
      × (links success w'.effects ≡ links success w.effects)
      × (attachments w'.effects ≡ attachments w.effects)
