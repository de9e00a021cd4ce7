-- ===== src/Wdm/Slots.antt =====
-- Dispatch tables slot by slot.
use wdk_safe.Base.{
  ℕ, ◌≡◌, refl, Bool, true, false, Option, none, some, List, ◌==◌, if◌then◌else◌, get_elem?, set,
  get_elem?-set, map_some,
}
use wdk_safe.Wdm.Objects.{DriverObject, Routine}

map_some-set :
    (f : Option Routine → Option Routine) (r : Routine) (c : Bool) (o : Option (Option Routine))
    → (if c then map_some (λ a. some r) (map_some f o) else map_some f o)
      ≡ map_some (λ a. if c then some r else f a) o
map_some-set f r true none = refl
map_some-set f r true (some a) = refl
map_some-set f r false none = refl
map_some-set f r false (some a) = refl

-- A table that f describes, after another store.
pub set_describes :
    (slots old : List (Option Routine)) (f : Option Routine → Option Routine) (i j : ℕ)
    (r : Routine)
    → get_elem? slots j ≡ map_some f (get_elem? old j)
    → get_elem? (set slots i (some r)) j
      ≡ map_some (λ a. if i == j then some r else f a) (get_elem? old j)
set_describes slots old f i j r e =
    rw (get_elem?-set slots i j (some r), e) (map_some-set f r (i == j) (get_elem? old j))

-- A table describes itself.
pub same_describes : (o : Option (Option Routine)) → o ≡ map_some (λ a. a) o
same_describes none = refl
same_describes (some a) = refl

-- The driver object that a load leaves: what each slot of the table has, where `old` was in it, and
-- that `DriverUnload` is set.
pub record Registered (slot_after : ℕ → Option Routine → Option Routine) (d d' : DriverObject)
    : Type 0 where
  pub slots :
      (j : ℕ)
      → get_elem? d'.major_function j ≡ map_some (slot_after j) (get_elem? d.major_function j)
  pub unload : d'.unload_set ≡ true
  pub same_device : d'.device_object ≡ d.device_object
