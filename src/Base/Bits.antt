-- ===== src/Base/Bits.antt =====
-- Laws of the bit operations at variables: masks of low bits, and the union of a shifted field
-- with a field that lies below it.
use Prim.Native.Nat.{
  ℕ, zero, suc, ◌+◌, ◌-◌, ◌*◌, ◌/◌, ◌%◌, ◌^◌, ◌≤◌, ◌<◌, min, max, bit_and, bit_or, digits,
  bit_and-bitwise, bit_or-bitwise,
}
use mathlib.Core.Path.{◌≡◌, refl, sym, ap, ◌∙◌}
use native.Mathlib.Nat.{
  pow-suc, one-le-pow, mod-lt, div-add-mod', mul-add-mod_self_right, mod-eq_of_lt,
  div-div-eq-div-mul,
}
use mathlib.Core.Logic.{◌⊎◌, inl, inr}
use wdk_safe.Base.Tests.{◌==◌, ==_iff, Bool-cases}
use native.Mathlib.Omega.{arith}

last_or_below : (n a : ℕ) → a ≤ suc n → (a ≡ suc n) ⊎ (a ≤ n)
last_or_below n a h = elim (Bool-cases (a == suc n)) [
  | inl e ↦ inl ((==_iff a (suc n)).0 e)
  | inr ne ↦ inr (ground arith)
]

-- Both operations go down the binary digits, `a` being the fuel for the digits of `a`. With the
-- digits' operation and the value for an exhausted `a` as parameters, the laws are shared.
module _ (rest : ℕ → ℕ) (op : ℕ → ℕ → ℕ) where
  one_more : (n a b : ℕ) → a ≤ n → digits rest op (suc n) a b ≡ digits rest op n a b
  one_more zero zero b h = refl
  one_more (suc n) zero b h = refl
  one_more zero (suc a) b h = absurd (omega arith)
  one_more (suc n) (suc a) b h = omega (arith, one_more n (suc a / 2) (b / 2) (omega arith))

  -- Fuel beyond the number itself changes nothing.
  settled : (n a b : ℕ) → a ≤ n → digits rest op n a b ≡ digits rest op a a b
  settled zero a b h = let e : a ≡ 0 = omega arith in rw e refl
  settled (suc n) a b h = elim (last_or_below n a h) [
    | inl e ↦ rw e refl
    | inr below ↦ one_more n a b below ∙ settled n a b below
  ]

  -- One digit is split off.
  unrolled :
      (a b : ℕ)
      → digits rest op (suc a) (suc a) b
        ≡ digits rest op (suc a / 2) (suc a / 2) (b / 2) * 2 + op (suc a % 2) (b % 2)
  unrolled a b = omega (arith, settled a (suc a / 2) (b / 2) (omega arith))

bit_and_nothing : (b : ℕ) → bit_and 0 b ≡ 0
bit_and_nothing b = bit_and-bitwise 0 b

bit_and_digit : (a b : ℕ) → bit_and a b ≡ bit_and (a / 2) (b / 2) * 2 + min (a % 2) (b % 2)
bit_and_digit zero b = omega (arith, bit_and_nothing b, bit_and_nothing (b / 2))
bit_and_digit (suc a) b =
    bit_and-bitwise (suc a) b
    ∙ rw (bit_and-bitwise (suc a / 2) (b / 2)) (unrolled (λ b. zero) min a b)

double-add-mod : (q r p : ℕ) → r < 2 * p → (q * (2 * p) + r) % (2 * p) ≡ r
double-add-mod q r p h = mul-add-mod_self_right q (2 * p) r ∙ mod-eq_of_lt h

mod-double : (x p : ℕ) → 1 ≤ p → x % (2 * p) ≡ x / 2 % p * 2 + x % 2
mod-double x p pos =
    let e : x ≡ x / 2 / p * (2 * p) + (x / 2 % p * 2 + x % 2) =
      omega (arith, div-add-mod' (x / 2) p) in
    ap (λ (t : ℕ). t % (2 * p)) e
    ∙ double-add-mod (x / 2 / p) (x / 2 % p * 2 + x % 2) p (omega (arith, mod-lt (x / 2) pos))

two-pow-suc : (k : ℕ) → 2 ^ suc k ≡ 2 * 2 ^ k
two-pow-suc k = omega (arith, pow-suc 2 k)

-- The low k + 1 bits are the lowest bit and the low k bits of the half.
pub mod-two-pow-suc : (k x : ℕ) → x % 2 ^ suc k ≡ x / 2 % 2 ^ k * 2 + x % 2
mod-two-pow-suc k x = rw (two-pow-suc k) (mod-double x (2 ^ k) (one-le-pow k 2 (omega arith)))

-- The result has no more digits than the mask; the recursion is on a bound of the other number.
bit_and_under : (bound a mask : ℕ) → a ≤ bound → bit_and a mask ≤ mask
bit_and_under bound zero mask small = omega (arith, bit_and_nothing mask)
bit_and_under zero (suc a) mask small = absurd (omega arith)
bit_and_under (suc bound) (suc a) mask small =
    let half = bit_and_under bound (suc a / 2) (mask / 2) (omega arith) in
    omega (arith, half, bit_and_digit (suc a) mask)

mask_half : (k : ℕ) → (2 ^ suc k - 1) / 2 ≡ 2 ^ k - 1
mask_half k = omega (arith, two-pow-suc k, one-le-pow k 2 (omega arith))

-- A mask of the k lowest bits is a remainder.
pub bit_and_mask : (k a : ℕ) → bit_and a (2 ^ k - 1) ≡ a % 2 ^ k
bit_and_mask zero a = omega (arith, bit_and_under a a 0 (omega arith))
bit_and_mask (suc k) a =
    let ih : bit_and (a / 2) ((2 ^ suc k - 1) / 2) ≡ a / 2 % 2 ^ k =
      rw (mask_half k) (bit_and_mask k (a / 2)) in
    omega (
      arith,
      ih,
      bit_and_digit a (2 ^ suc k - 1),
      mod-two-pow-suc k a,
      two-pow-suc k,
      one-le-pow k 2 (omega arith),
    )

pub zero-bit_or : (b : ℕ) → bit_or 0 b ≡ b
zero-bit_or b = bit_or-bitwise 0 b

pub bit_or_digit : (a b : ℕ) → bit_or a b ≡ bit_or (a / 2) (b / 2) * 2 + max (a % 2) (b % 2)
bit_or_digit zero b = omega (arith, zero-bit_or b, zero-bit_or (b / 2))
bit_or_digit (suc a) b =
    bit_or-bitwise (suc a) b ∙ rw (bit_or-bitwise (suc a / 2) (b / 2)) (unrolled (λ b. b) max a b)

bit_or-zero_fuel : (n a : ℕ) → a ≤ n → bit_or a 0 ≡ a
bit_or-zero_fuel n zero h = refl
bit_or-zero_fuel zero (suc a) h = absurd (omega arith)
bit_or-zero_fuel (suc n) (suc a) h =
    omega (arith, bit_or_digit (suc a) 0, bit_or-zero_fuel n (suc a / 2) (omega arith))

pub bit_or-zero : (a : ℕ) → bit_or a 0 ≡ a
bit_or-zero a = bit_or-zero_fuel a a (omega arith)

shifted_half : (k a : ℕ) → a * 2 ^ suc k / 2 ≡ a * 2 ^ k
shifted_half k a = omega (arith, ap (λ (t : ℕ). a * t) (two-pow-suc k))

-- A field shifted left by k bits, or-ed with a number below 2 ^ k, is their sum.
pub bit_or_shifted : (k a b : ℕ) → b < 2 ^ k → bit_or (a * 2 ^ k) b ≡ a * 2 ^ k + b
bit_or_shifted zero a zero h = rw (bit_or-zero (a * 1)) (omega arith)
bit_or_shifted zero a (suc b) h = absurd (omega arith)
bit_or_shifted (suc k) a b h =
    let ih : bit_or (a * 2 ^ suc k / 2) (b / 2) ≡ a * 2 ^ k + b / 2 =
      rw (shifted_half k a) (bit_or_shifted k a (b / 2) (omega (arith, two-pow-suc k))) in
    omega (arith, ih, bit_or_digit (a * 2 ^ suc k) b, ap (λ (t : ℕ). a * t) (two-pow-suc k))

bit_or-half : (a b : ℕ) → bit_or a b / 2 ≡ bit_or (a / 2) (b / 2)
bit_or-half a b = omega (arith, bit_or_digit a b)

half-mod : (k x : ℕ) → x % 2 ^ suc k / 2 ≡ x / 2 % 2 ^ k
half-mod k x = omega (arith, mod-two-pow-suc k x)

-- The low k bits of a union are the union of the low k bits.
pub bit_or-mod : (k a b : ℕ) → bit_or a b % 2 ^ k ≡ bit_or (a % 2 ^ k) (b % 2 ^ k)
bit_or-mod zero a b = rw (mod_one a, mod_one b) (omega arith)
  where
    mod_one : (n : ℕ) → n % 2 ^ 0 ≡ 0
    mod_one n = omega arith
bit_or-mod (suc k) a b =
    let ih : bit_or a b / 2 % 2 ^ k ≡ bit_or (a % 2 ^ suc k / 2) (b % 2 ^ suc k / 2) =
      rw (bit_or-half a b, half-mod k a, half-mod k b) (bit_or-mod k (a / 2) (b / 2)) in
    omega (
      arith,
      ih,
      bit_or_digit a b,
      bit_or_digit (a % 2 ^ suc k) (b % 2 ^ suc k),
      mod-two-pow-suc k (bit_or a b),
      mod-two-pow-suc k a,
      mod-two-pow-suc k b,
    )

div-two-pow-suc : (k x : ℕ) → x / 2 ^ suc k ≡ x / 2 / 2 ^ k
div-two-pow-suc k x = rw (two-pow-suc k) (sym (div-div-eq-div-mul x 2 (2 ^ k)))

-- The bits above the k lowest of a union are the union of the bits above.
pub bit_or-div : (k a b : ℕ) → bit_or a b / 2 ^ k ≡ bit_or (a / 2 ^ k) (b / 2 ^ k)
bit_or-div zero a b = rw (div_one a, div_one b) (div_one (bit_or a b))
  where
    div_one : (n : ℕ) → n / 2 ^ 0 ≡ n
    div_one n = omega arith
bit_or-div (suc k) a b =
    rw (div-two-pow-suc k (bit_or a b), div-two-pow-suc k a, div-two-pow-suc k b, bit_or-half a b)
      (bit_or-div k (a / 2) (b / 2))

bit_and_le_fuel : (n a b : ℕ) → a ≤ n → bit_and a b ≤ a
bit_and_le_fuel n zero b h = omega (arith, bit_and_nothing b)
bit_and_le_fuel zero (suc a) b h = absurd (omega arith)
bit_and_le_fuel (suc n) (suc a) b h =
    omega (arith, bit_and_digit (suc a) b, bit_and_le_fuel n (suc a / 2) (b / 2) (omega arith))

pub bit_and_le : (a b : ℕ) → bit_and a b ≤ a
bit_and_le a b = bit_and_le_fuel a a b (omega arith)

pub bit_or-lt : (k a b : ℕ) → a < 2 ^ k → b < 2 ^ k → bit_or a b < 2 ^ k
bit_or-lt zero a b ha hb =
    let ea : a ≡ 0 = omega arith in let eb : b ≡ 0 = omega arith in rw (ea, eb) (omega arith)
bit_or-lt (suc k) a b ha hb =
    omega (arith, bit_or_digit a b, bit_or-lt k (a / 2) (b / 2) (omega arith) (omega arith))
