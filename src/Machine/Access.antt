-- ===== src/Machine/Access.antt =====
-- Accesses to memory that is there.
use wdk_safe.Base.{Bool, true, Bool-cases, inl, inr, ℕ, ◌%◌, ◌≡◌, refl, some, arith}
use wdk_safe.Memory.{Ptr, IsMapped, read_le, store, write_le}
use wdk_safe.Machine.{World, ok, debug_assert, load, store_at, store_aligned}

pub load_lem :
    (n : ℕ) (p : Ptr) (v : ℕ) (w : World) → read_le n p w.mem ≡ some v → load n p w ≡ ok v w
unfolding load
load_lem n p v w e = ground arith

pub store_at_lem :
    (n : ℕ) (p : Ptr) (v : ℕ) (w : World)
    → IsMapped n p w.mem
    → store_at n p v w ≡ ok tt (record w { mem = store n p v w.mem })
unfolding store_at write_le
store_at_lem n p v w (old, e) = ground arith

pub store_aligned_lem :
    (n : ℕ) (p : Ptr) (v : ℕ) (w : World)
    → p % n ≡ 0
    → IsMapped n p w.mem
    → store_aligned n p v w ≡ ok tt (record w { mem = store n p v w.mem })
unfolding store_aligned
store_aligned_lem n p v w aligned mapped = ground (arith, store_at_lem n p v w mapped)

pub debug_assert_lem : (c : Bool) (w : World) → c ≡ true → debug_assert c w ≡ ok tt w
debug_assert_lem c w e =
    rw e (elim (Bool-cases w.debug_assertions) [ inl h ↦ rw h refl | inr h ↦ rw h refl ])

-- A check that holds in a debug build does nothing in either build.
pub debug_assert-debug :
    (c : Bool) (w : World) → (w.debug_assertions ≡ true → c ≡ true) → debug_assert c w ≡ ok tt w
debug_assert-debug c w h = elim (Bool-cases w.debug_assertions) [
  | inl debug ↦ debug_assert_lem c w (h debug)
  | inr release ↦ rw release refl
]
