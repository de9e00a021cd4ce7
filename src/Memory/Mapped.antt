-- ===== src/Memory/Mapped.antt =====
-- A store takes no byte away.
use wdk_safe.Base.{
  ℕ, zero, suc, ◌+◌, ◌*◌, ◌/◌, ◌%◌, ◌≡◌, refl, some, arith, ◌==◌, Option-cases, inl, inr,
  Bool-cases,
}
use wdk_safe.Memory.{Ptr, Memory, update, read_le, store, IsMapped}

-- Where the first memory holds a byte, so does the second.
abbrev Extends : Memory → Memory → Type 0
Extends m m' = (q : Ptr) (b : ℕ) → m q ≡ some b → (b' : ℕ) × (m' q ≡ some b')

update-Extends : (p : Ptr) (v : ℕ) (m : Memory) → Extends m (update m p v)
update-Extends p v m q b e = elim (Bool-cases (p == q)) [
  | inl hit ↦ (v, ground arith)
  | inr miss ↦ (b, ground arith)
]

store-Extends : (n : ℕ) (p : Ptr) (v : ℕ) (m : Memory) → Extends m (store n p v m)
unfolding store
store-Extends zero p v m q b e = (b, e)
store-Extends (suc n) p v m q b e =
    let (c, f) = update-Extends p (v % 256) m q b e in
    store-Extends n (p + 1) (v / 256) (update m p (v % 256)) q c f

IsMapped-suc_head : (n : ℕ) (p : Ptr) (m : Memory) → IsMapped (suc n) p m → (b : ℕ) × (m p ≡ some b)
unfolding read_le
IsMapped-suc_head n p m (v, e) = elim (Option-cases (m p)) [
  | inl missing ↦ absurd (ground arith)
  | inr held ↦ held
]

IsMapped-suc_tail : (n : ℕ) (p : Ptr) (m : Memory) → IsMapped (suc n) p m → IsMapped n (p + 1) m
unfolding read_le
IsMapped-suc_tail n p m (v, e) = elim (Option-cases (read_le n (p + 1) m)) [
  | inl missing ↦ absurd (ground (arith, Option-cases (m p)))
  | inr held ↦ held
]

IsMapped-Extends :
    (n : ℕ) (p : Ptr) (m m' : Memory) → Extends m m' → IsMapped n p m → IsMapped n p m'
unfolding read_le
IsMapped-Extends zero p m m' ext mapped = (0, refl)
IsMapped-Extends (suc n) p m m' ext mapped =
    let (b, e) = IsMapped-suc_head n p m mapped in
    let (b', e') = ext p b e in
    let (r, f) = IsMapped-Extends n (p + 1) m m' ext (IsMapped-suc_tail n p m mapped) in
    (b' + 256 * r, ground arith)

pub IsMapped-store :
    (n k : ℕ) (p q : Ptr) (v : ℕ) (m : Memory) → IsMapped k q m → IsMapped k q (store n p v m)
IsMapped-store n k p q v m = IsMapped-Extends k q m (store n p v m) (store-Extends n p v m)
