-- ===== src/Memory.antt =====
-- Byte-addressed memory, and the unaligned little-endian loads and stores that the crate makes
-- through raw pointers (`read_unaligned`, `write_unaligned`, `write`, and field accesses). An
-- address that holds no byte is one that the program must not touch.
pub mod Laws
pub mod Mapped
use wdk_safe.Base.{
  ℕ, zero, suc, ◌+◌, ◌*◌, ◌/◌, ◌%◌, ◌≤◌, ◌<◌, ◌≡◌, ◌⊎◌, Option, none, some, ◌==◌, if◌then◌else◌,
}

abbrev pub Ptr : Type 0
Ptr = ℕ

abbrev pub null : Ptr
null = 0

abbrev pub Memory : Type 0
Memory = Ptr → Option ℕ

abbrev pub update : Memory → Ptr → ℕ → Memory
update m p b q = if p == q then some b else m q

-- The number in the n bytes from `p` on, lowest byte first; `none` if one of them is missing.
unfoldable pub read_le : ℕ → Ptr → Memory → Option ℕ
read_le zero p m = some 0
read_le (suc n) p m = elim (m p) [
  | none ↦ none
  | some b ↦ elim (read_le n (p + 1) m) [ none ↦ none | some r ↦ some (b + 256 * r) ]
]

-- The n lowest bytes of `v` put from `p` on.
unfoldable pub store : ℕ → Ptr → ℕ → Memory → Memory
store zero p v m = m
store (suc n) p v m = store n (p + 1) (v / 256) (update m p (v % 256))

-- A store to addresses that all hold bytes; `none` if one of them does not.
unfoldable pub write_le : ℕ → Ptr → ℕ → Memory → Option Memory
write_le n p v m = elim (read_le n p m) [ none ↦ none | some _ ↦ some (store n p v m) ]

-- What the memory holds are bytes.
abbrev pub IsBytes : Memory → Type 0
IsBytes m = (p : Ptr) (b : ℕ) → m p ≡ some b → b < 256

-- The n addresses from `p` on hold bytes.
abbrev pub IsMapped : ℕ → Ptr → Memory → Type 0
IsMapped n p m = (v : ℕ) × (read_le n p m ≡ some v)

-- The addresses from `p` on, n of them, and from `q` on, k of them, do not meet.
abbrev pub AreDisjoint : ℕ → Ptr → ℕ → Ptr → Type 0
AreDisjoint n p k q = (p + n ≤ q) ⊎ (q + k ≤ p)
