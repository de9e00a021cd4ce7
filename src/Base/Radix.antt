-- ===== src/Base/Radix.antt =====
-- The standard library's `u32::from_str_radix`, and `{}` of a `u32`. A text is the list of its
-- character codes.
use Prim.Native.Nat.{ℕ, zero, suc, ◌+◌, ◌-◌, ◌*◌, ◌/◌, ◌%◌, ◌^◌, ◌≤◌, ◌<◌}
use mathlib.Core.Path.{◌≡◌, refl, sym, ◌∙◌}
use mathlib.Core.Logic.{inl, inr}
use mathlib.Core.Bool.{true, false, ◌&&◌, ◌||◌}
use mathlib.Core.Option.{Option, none, some}
use mathlib.Core.List.{List, [], ◌∷◌}
use native.Mathlib.Nat.{le-mul_of_pos_right}
use native.Mathlib.Omega.{arith}
use wdk_safe.Base.Tests.{ltb, leb, ◌==◌, if◌then◌else◌, Option-cases, Bool-cases}
use wdk_safe.Base.Lists.{length}
use wdk_safe.Base.Hex.{digit_value, digits_value}

-- `char::to_digit`
unfoldable pub to_digit : ℕ → ℕ → Option ℕ
to_digit radix c =
    let d =
      if leb 48 c && leb c 57
      then c - 48
      else if leb 65 c && leb c 90
      then c - 55
      else if leb 97 c && leb c 122
      then c - 87
      else radix in
    if ltb d radix then some d else none

-- `checked_mul` and `checked_add` of `u32`, by their exact result.
checked_u32 : ℕ → Option ℕ
checked_u32 n = if ltb n (2 ^ 32) then some n else none

-- The loop over the digits.
accumulate : ℕ → ℕ → List ℕ → Option ℕ
accumulate radix result [] = some result
accumulate radix result (c ∷ cs) = elim (checked_u32 (result * radix)) [
  | none ↦ none
  | some shifted ↦ elim (to_digit radix c) [
    | none ↦ none
    | some d ↦ elim (checked_u32 (shifted + d)) [ none ↦ none | some sum ↦ accumulate radix sum cs ]
  ]
]

-- A sign alone is not a number, and a leading `+` is skipped; its error is left out, since the code
-- goes on with `ok()`.
unfoldable pub from_str_radix : List ℕ → ℕ → Option ℕ
unfolding accumulate checked_u32
from_str_radix [] radix = none
from_str_radix (c ∷ []) radix = if c == 43 || c == 45 then none else accumulate radix 0 (c ∷ [])
from_str_radix (c ∷ d ∷ cs) radix =
    if c == 43 then accumulate radix 0 (d ∷ cs) else accumulate radix 0 (c ∷ d ∷ cs)

-- The number that the digits stand for, after those of `n`, however large.
unfoldable pub value : ℕ → ℕ → List ℕ → Option ℕ
value radix n [] = some n
value radix n (c ∷ cs) = elim (to_digit radix c) [
  | none ↦ none
  | some d ↦ value radix (n * radix + d) cs
]

-- A number that fits 32 bits.
unfoldable pub fitting : Option ℕ → Option ℕ
unfolding checked_u32
fitting none = none
fitting (some n) = checked_u32 n

-- The text behind a leading `+`.
abbrev pub unsigned : List ℕ → List ℕ
unsigned [] = []
unsigned (c ∷ cs) = if c == 43 then cs else c ∷ cs

-- What a text stands for: digits, at least one, behind at most one `+`, of a number that fits.
abbrev pub meant : List ℕ → ℕ → Option ℕ
meant s radix = elim (unsigned s) [ [] ↦ none | c ∷ cs ↦ fitting (value radix 0 (c ∷ cs)) ]

value_le : (radix n m : ℕ) (cs : List ℕ) → 0 < radix → value radix n cs ≡ some m → n ≤ m
unfolding value
value_le radix n m [] pos e = ground arith
value_le radix n m (c ∷ cs) pos e = elim (Option-cases (to_digit radix c)) [
  | inl bad ↦ absurd (ground arith)
  | inr (d, good) ↦
      ground (arith, value_le radix (n * radix + d) m cs pos, le-mul_of_pos_right {m = radix} n pos)
]

-- What is too large stays too large.
fitting-value_large :
    (radix n : ℕ) (cs : List ℕ) → 0 < radix → 2 ^ 32 ≤ n → fitting (value radix n cs) ≡ none
unfolding fitting checked_u32
fitting-value_large radix n cs pos large = elim (Option-cases (value radix n cs)) [
  | inl bad ↦ rw bad refl
  | inr (m, good) ↦ rw good (ground (arith, value_le radix n m cs pos good))
]

accumulate-value :
    (radix n : ℕ) (cs : List ℕ)
    → 0 < radix
    → n < 2 ^ 32
    → accumulate radix n cs ≡ fitting (value radix n cs)
unfolding accumulate value checked_u32 fitting
accumulate-value radix n [] pos small = ground arith
accumulate-value radix n (c ∷ cs) pos small = elim (Option-cases (to_digit radix c)) [
  | inl bad ↦ ground arith
  | inr (d, good) ↦ elim (Bool-cases (ltb (n * radix + d) (2 ^ 32))) [
    | inl fits ↦ ground (arith, accumulate-value radix (n * radix + d) cs pos)
    | inr large ↦
        let over = fitting-value_large radix (n * radix + d) cs pos (ground arith) in ground arith
  ]
]

-- A minus sign is not a digit.
sign_alone : (radix n c : ℕ) → c ≡ 45 → fitting (value radix n (c ∷ [])) ≡ none
unfolding fitting value to_digit
sign_alone radix n c e = ground arith

-- The checked loop, its tests of the length and of the signs accept exactly the texts that stand
-- for a number that fits 32 bits, and give that number. Condition: the radix is not zero.
pub from_str_radix-meant :
    (s : List ℕ) (radix : ℕ) → 0 < radix → from_str_radix s radix ≡ meant s radix
unfolding from_str_radix
from_str_radix-meant [] radix pos = refl
from_str_radix-meant (c ∷ []) radix pos =
    ground (arith, accumulate-value radix 0 (c ∷ []) pos, sign_alone radix 0 c)
from_str_radix-meant (c ∷ d ∷ cs) radix pos =
    ground (arith, accumulate-value radix 0 (d ∷ cs) pos, accumulate-value radix 0 (c ∷ d ∷ cs) pos)

value-plus : (radix n : ℕ) (cs : List ℕ) → value radix n (43 ∷ cs) ≡ none
unfolding value to_digit
value-plus radix n cs = ground arith

-- Digits of a number that fits are read as that number.
pub from_str_radix-value :
    (radix n c : ℕ) (cs : List ℕ)
    → 0 < radix
    → value radix 0 (c ∷ cs) ≡ some n
    → n < 2 ^ 32
    → from_str_radix (c ∷ cs) radix ≡ some n
unfolding fitting checked_u32
from_str_radix-value radix n c cs pos e small = elim (Bool-cases (c == 43)) [
  | inl plus ↦ absurd (ground (arith, value-plus radix 0 cs))
  | inr digits ↦ ground (arith, from_str_radix-meant (c ∷ cs) radix pos)
]

-- A number in the digits that `{:#0wX}` writes.
pub value-digits_value :
    (n m : ℕ) (cs : List ℕ) → digits_value n cs ≡ some m → value 16 n cs ≡ some m
unfolding value digits_value digit_value to_digit
value-digits_value n m [] e = e
value-digits_value n m (c ∷ cs) e = elim (Option-cases (digit_value c)) [
  | inl bad ↦ absurd (ground arith)
  | inr (d, good) ↦ ground (arith, value-digits_value (n * 16 + d) m cs)
]

-- The digits of a number in the base ten, highest first and at least one, in front of `acc`.
decimal_digits : ℕ → ℕ → List ℕ → List ℕ
decimal_digits zero n acc = acc
decimal_digits (suc fuel) n acc =
    let shown = (48 + n % 10) ∷ acc in
    elim (n / 10 == 0) [ true ↦ shown | false ↦ decimal_digits fuel (n / 10) shown ]

-- `{}`
unfoldable pub decimal : ℕ → List ℕ
unfolding decimal_digits
decimal n = decimal_digits (suc n) n []

value-decimal_digits :
    (fuel n : ℕ) (acc : List ℕ) → n < fuel → value 10 0 (decimal_digits fuel n acc) ≡ value 10 n acc
unfolding value to_digit decimal_digits
value-decimal_digits zero n acc h = absurd (omega arith)
value-decimal_digits (suc fuel) n acc h =
    ground (arith, value-decimal_digits fuel (n / 10) ((48 + n % 10) ∷ acc))

length-decimal_digits : (fuel n : ℕ) (acc : List ℕ) → 0 < length (decimal_digits (suc fuel) n acc)
unfolding decimal_digits
length-decimal_digits zero n acc = ground arith
length-decimal_digits (suc fuel) n acc =
    ground (arith, length-decimal_digits fuel (n / 10) ((48 + n % 10) ∷ acc))

-- The text of a number stands for it.
pub value-decimal : (n : ℕ) → value 10 0 (decimal n) ≡ some n
unfolding decimal value
value-decimal n = value-decimal_digits (suc n) n [] (omega arith)

fitting-lt : (o : Option ℕ) (n : ℕ) → fitting o ≡ some n → n < 2 ^ 32
unfolding fitting checked_u32
fitting-lt none n e = ground arith
fitting-lt (some m) n e = ground arith

meant-lt : (s : List ℕ) (radix n : ℕ) → meant s radix ≡ some n → n < 2 ^ 32
meant-lt s radix n e =
    elim (unsigned s)
        as (λ u.
          (elim u [ [] ↦ none | c ∷ cs ↦ fitting (value radix 0 (c ∷ cs)) ]) ≡ some n
          → n < 2 ^ 32) [
            | [] ↦ λ f. ground arith
            | c ∷ cs ↦ λ f. fitting-lt (value radix 0 (c ∷ cs)) n f
          ]
      e

-- What is read fits 32 bits.
pub from_str_radix-lt :
    (s : List ℕ) (radix n : ℕ) → 0 < radix → from_str_radix s radix ≡ some n → n < 2 ^ 32
from_str_radix-lt s radix n pos e = meant-lt s radix n (sym (from_str_radix-meant s radix pos) ∙ e)

pub decimal-long : (n : ℕ) → 0 < length (decimal n)
unfolding decimal
decimal-long n = length-decimal_digits n n []
