-- ===== src/Memory/Laws.antt =====
-- What a store changes, and that a load reads it back.
use native.Mathlib.Nat.{pow-suc}
use mathlib.Core.Path.{fun_ext}
use wdk_safe.Base.{
  ℕ, zero, suc, ◌+◌, ◌*◌, ◌/◌, ◌%◌, ◌^◌, ◌≤◌, ◌<◌, ◌≡◌, refl, ◌∙◌, ◌⊎◌, inl, inr, some, arith,
  Option-cases, Bool-cases, ◌==◌,
}
use wdk_safe.Memory.{Ptr, Memory, update, read_le, store, IsBytes, AreDisjoint}

-- A store changes no byte outside its own addresses.
pub store-outside :
    (n : ℕ) (p : Ptr) (v : ℕ) (m : Memory) (q : Ptr) → (q < p) ⊎ (p + n ≤ q) → store n p v m q ≡ m q
unfolding store
store-outside zero p v m q out = refl
store-outside (suc n) p v m q out =
    store-outside n (p + 1) (v / 256) (update m p (v % 256)) q (ground arith) ∙ ground arith

-- A load sees only its own addresses.
pub read_le-same :
    (n : ℕ) (p : Ptr) (m m' : Memory)
    → ((q : Ptr) → p ≤ q → q < p + n → m' q ≡ m q)
    → read_le n p m' ≡ read_le n p m
unfolding read_le
read_le-same zero p m m' same = refl
read_le-same (suc n) p m m' same =
    let tail = read_le-same n (p + 1) m m' (λ q a b. same q (omega arith) (omega arith)) in
    let head = same p (omega arith) (omega arith) in ground (arith, tail, head)

pub read_le-store_disjoint :
    (n k : ℕ) (p q : Ptr) (v : ℕ) (m : Memory)
    → AreDisjoint n p k q
    → read_le k q (store n p v m) ≡ read_le k q m
read_le-store_disjoint n k p q v m apart =
    read_le-same k q m (store n p v m) (λ r a b. store-outside n p v m r (ground arith))

-- What was stored is loaded.
pub read_le-store :
    (n : ℕ) (p : Ptr) (v : ℕ) (m : Memory) → v < 256 ^ n → read_le n p (store n p v m) ≡ some v
unfolding read_le store
read_le-store zero p v m h = ground arith
read_le-store (suc n) p v m h =
    let m1 = update m p (v % 256) in
    ground (
      arith,
      store-outside n (p + 1) (v / 256) m1 p (inl (omega arith)),
      read_le-store n (p + 1) (v / 256) m1 (omega (arith, pow-suc 256 n)),
    )

-- A load of n bytes is below 256 ^ n.
pub read_le-lt :
    (n : ℕ) (p : Ptr) (m : Memory) (v : ℕ) → IsBytes m → read_le n p m ≡ some v → v < 256 ^ n
unfolding read_le
read_le-lt zero p m v bytes e = ground arith
read_le-lt (suc n) p m v bytes e = elim (Option-cases (m p)) [
  | inl missing ↦ ground arith
  | inr (b, eb) ↦ elim (Option-cases (read_le n (p + 1) m)) [
    | inl missing ↦ ground arith
    | inr (r, er) ↦
        let low = bytes p b eb in
        let high = read_le-lt n (p + 1) m r bytes er in ground (arith, low, high, pow-suc 256 n)
  ]
]

pub store-IsBytes : (n : ℕ) (p : Ptr) (v : ℕ) (m : Memory) → IsBytes m → IsBytes (store n p v m)
unfolding store
store-IsBytes zero p v m bytes = bytes
store-IsBytes (suc n) p v m bytes =
    store-IsBytes n (p + 1) (v / 256) (update m p (v % 256)) (λ q b e. ground (arith, bytes q b))

-- Inside its addresses a store does not depend on what was there.
pub store-inside :
    (n : ℕ) (p : Ptr) (v : ℕ) (m m' : Memory) (q : Ptr)
    → p ≤ q
    → q < p + n
    → store n p v m q ≡ store n p v m' q
unfolding store
store-inside zero p v m m' q low high = absurd (omega arith)
store-inside (suc n) p v m m' q low high = elim (Bool-cases (p == q)) [
  | inl here ↦
      store-outside n (p + 1) (v / 256) (update m p (v % 256)) q (ground arith)
      ∙ ground (arith, store-outside n (p + 1) (v / 256) (update m' p (v % 256)) q (ground arith))
  | inr later ↦
      store-inside n (p + 1) (v / 256) (update m p (v % 256)) (update m' p (v % 256)) q
        (ground arith) (omega arith)
]

-- Storing what is there changes nothing.
pub store-same :
    (n : ℕ) (p : Ptr) (v : ℕ) (m : Memory) (q : Ptr)
    → IsBytes m
    → read_le n p m ≡ some v
    → store n p v m q ≡ m q
unfolding store read_le
store-same zero p v m q bytes e = refl
store-same (suc n) p v m q bytes e = elim (Option-cases (m p)) [
  | inl missing ↦ absurd (ground arith)
  | inr (b, eb) ↦ elim (Option-cases (read_le n (p + 1) m)) [
    | inl missing ↦ absurd (ground arith)
    | inr (r, er) ↦
        let small = bytes p b eb in
        let whole : v ≡ b + 256 * r = ground arith in
        let low : v % 256 ≡ b = omega arith in
        let high : v / 256 ≡ r = omega arith in
        let kept : update m p b ≡ m = fun_ext (λ x. ground arith) in
        rw (low, high, kept) (store-same n (p + 1) r m q bytes er)
  ]
]
