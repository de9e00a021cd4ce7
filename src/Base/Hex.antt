-- ===== src/Base/Hex.antt =====
-- The standard library's `{:#0wX}`: `0x`, then upper-case hexadecimal digits, padded with zeros to
-- a total width. A text is the list of its character codes.
use Prim.Native.Nat.{ℕ, zero, suc, ◌+◌, ◌-◌, ◌*◌, ◌/◌, ◌%◌, ◌^◌, ◌≤◌, ◌<◌}
use Prim.Native.Char.{code}
use Prim.Native.String.{String}
use mathlib.Core.Path.{◌≡◌, refl, ap, ◌∙◌}
use mathlib.Core.Bool.{true, false, ◌&&◌}
use mathlib.Core.Option.{Option, none, some}
use mathlib.Core.List.{List, [], ◌∷◌, ◌++◌}
use native.Mathlib.Nat.{pow-suc}
use native.Mathlib.Omega.{arith}
use wdk_safe.Base.Tests.{ltb, leb, ◌==◌, if◌then◌else◌}
use wdk_safe.Base.Lists.{length, replicate, length-append}

abbrev pub codes : String → List ℕ
codes String.[] = []
codes (String.◌∷◌ c s) = code c ∷ codes s

digit : ℕ → ℕ
digit d = if ltb d 10 then 48 + d else 55 + d

-- The digits of a number, highest first and at least one, in front of `acc`.
hex_digits : ℕ → ℕ → List ℕ → List ℕ
hex_digits zero n acc = acc
hex_digits (suc fuel) n acc =
    let shown = digit (n % 16) ∷ acc in
    elim (n / 16 == 0) [ true ↦ shown | false ↦ hex_digits fuel (n / 16) shown ]

-- `{n:#0wX}` at the width w, which counts the prefix.
unfoldable pub format_hex : ℕ → ℕ → List ℕ
unfolding digit hex_digits
format_hex width n =
    let digits = hex_digits (suc n) n [] in
    codes "0x" ++ replicate (width - 2 - length digits) 48 ++ digits

-- Reading such a text back.
unfoldable pub digit_value : ℕ → Option ℕ
digit_value c =
    if leb 48 c && leb c 57
    then some (c - 48)
    else if leb 65 c && leb c 70
    then some (c - 55)
    else none

unfoldable pub digits_value : ℕ → List ℕ → Option ℕ
digits_value acc [] = some acc
digits_value acc (c ∷ cs) = elim (digit_value c) [
  | none ↦ none
  | some d ↦ digits_value (acc * 16 + d) cs
]

unfoldable pub parse_hex : List ℕ → Option ℕ
unfolding digit_value digits_value
parse_hex (a ∷ b ∷ cs) = if (a == 48) && (b == 120) then digits_value 0 cs else none
parse_hex _ = none

digit_value-digit : (d : ℕ) → d < 16 → digit_value (digit d) ≡ some d
unfolding digit digit_value
digit_value-digit d h = ground arith

digits_value-hex_digits :
    (fuel n : ℕ) (acc : List ℕ)
    → n < fuel
    → digits_value 0 (hex_digits fuel n acc) ≡ digits_value n acc
unfolding digits_value hex_digits
digits_value-hex_digits zero n acc h = absurd (omega arith)
digits_value-hex_digits (suc fuel) n acc h = ground (
  arith,
  digit_value-digit (n % 16),
  digits_value-hex_digits fuel (n / 16) (digit (n % 16) ∷ acc),
)

digits_value-zeros :
    (k : ℕ) (cs : List ℕ) → digits_value 0 (replicate k 48 ++ cs) ≡ digits_value 0 cs
unfolding digits_value digit_value
digits_value-zeros zero cs = refl
digits_value-zeros (suc k) cs = digits_value-zeros k cs

-- Formatting loses nothing, at any width.
pub parse_hex-format_hex : (width n : ℕ) → parse_hex (format_hex width n) ≡ some n
unfolding parse_hex format_hex
parse_hex-format_hex width n =
    digits_value-zeros (width - 2 - length (hex_digits (suc n) n [])) (hex_digits (suc n) n [])
    ∙ digits_value-hex_digits (suc n) n [] (omega arith)

-- A number below 16 ^ (k + 1) has at most k + 1 digits.
length-hex_digits :
    (k fuel n : ℕ) (acc : List ℕ)
    → n < 16 ^ suc k
    → length (hex_digits fuel n acc) ≤ suc k + length acc
unfolding hex_digits
length-hex_digits k zero n acc h = omega arith
length-hex_digits zero (suc fuel) n acc h = ground arith
length-hex_digits (suc k) (suc fuel) n acc h = ground (
  arith,
  length-hex_digits k fuel (n / 16) (digit (n % 16) ∷ acc) (omega (arith, pow-suc 16 (suc k))),
)

-- A number of at most k + 1 digits fills the width k + 3 exactly.
pub length-format_hex : (k n : ℕ) → n < 16 ^ suc k → length (format_hex (k + 3) n) ≡ k + 3
unfolding format_hex
length-format_hex k n h =
    let digits = hex_digits (suc n) n [] in
    let pad = k + 3 - 2 - length digits in
    omega (
      arith,
      length-append (replicate pad 48) digits,
      length-replicate pad,
      length-hex_digits k (suc n) n [] h,
    )
  where
    length-replicate : (m : ℕ) → length (replicate {A = ℕ} m 48) ≡ m
    length-replicate zero = refl
    length-replicate (suc m) = ap suc (length-replicate m)
