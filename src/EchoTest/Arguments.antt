-- ===== src/EchoTest/Arguments.antt =====
-- The argument of the test program: which texts are numbers, and which number is sent.
use wdk_safe.Base.{
  ℕ, ◌^◌, ◌<◌, ◌≡◌, ◌⊎◌, refl, none, some, List, [], ◌∷◌, ◌++◌, length, arith, Option-cases, inl,
  inr, get_elem?,
}
use wdk_safe.Base.Hex.{codes, format_hex, parse_hex, parse_hex-format_hex, length-format_hex}
use wdk_safe.Base.Radix.{
  from_str_radix, meant, decimal, value, from_str_radix-meant, from_str_radix-lt,
  from_str_radix-value, value-digits_value, value-decimal, decimal-long, to_digit,
}
use wdk_safe.EchoTest.{Win32, Session, stdout, strip_hex, parse_value, send_value, introduce, final}
use wdk_safe.EchoTest.Runs.{latest}

-- The text begins with `0x` or `0X`.
abbrev pub IsPrefixed : List ℕ → Type 0
IsPrefixed (c ∷ d ∷ cs) = (c ≡ 48) × ((d ≡ 120) ⊎ (d ≡ 88))
IsPrefixed s = ⊥

parse_value-plain : (s : List ℕ) → ¬ IsPrefixed s → parse_value s ≡ from_str_radix s 10
unfolding parse_value strip_hex
parse_value-plain [] h = refl
parse_value-plain (c ∷ []) h = ground arith
parse_value-plain (c ∷ d ∷ cs) h = ground arith

-- A text with `0x` or `0X` in front stands for the hexadecimal number behind it, any other text for
-- a decimal number, with at least one digit, at most one `+` in front of them and nothing else; a
-- number that does not fit 32 bits is refused, as is any other text.
pub parse_value-meant :
    (s : List ℕ)
    → (parse_value (48 ∷ 120 ∷ s) ≡ meant s 16)
      × (parse_value (48 ∷ 88 ∷ s) ≡ meant s 16)
      × (¬ IsPrefixed s → parse_value s ≡ meant s 10)
unfolding parse_value strip_hex
parse_value-meant s = (
  from_str_radix-meant s 16 (omega arith),
  from_str_radix-meant s 16 (omega arith),
  λ plain. rw (parse_value-plain s plain) (from_str_radix-meant s 10 (omega arith)),
)

parse_value-lt : (s : List ℕ) (n : ℕ) → parse_value s ≡ some n → n < 2 ^ 32
unfolding parse_value
parse_value-lt s n e = elim (Option-cases (strip_hex s)) [
  | inl absent ↦ from_str_radix-lt s 10 n (omega arith) (ground arith)
  | inr (hex, present) ↦ from_str_radix-lt hex 16 n (omega arith) (ground arith)
]

-- The value that is sent fits 32 bits, whatever the arguments are.
pub send_value-lt : (args : List (List ℕ)) → send_value args < 2 ^ 32
unfolding send_value
send_value-lt args = elim (Option-cases (get_elem? args 1)) [
  | inl absent ↦ ground arith
  | inr (s, present) ↦ elim (Option-cases (parse_value s)) [
    | inl bad ↦ ground arith
    | inr (n, good) ↦ ground (arith, parse_value-lt s n good)
  ]
]

parse_value-hex :
    (s : List ℕ) (n : ℕ) → parse_hex s ≡ some n → 2 < length s → n < 2 ^ 32 → parse_value s ≡ some n
unfolding parse_value strip_hex parse_hex
parse_value-hex [] n e long small = absurd (ground arith)
parse_value-hex (a ∷ []) n e long small = absurd (ground arith)
parse_value-hex (a ∷ b ∷ []) n e long small = absurd (ground arith)
parse_value-hex (a ∷ b ∷ c ∷ cs) n e long small =
    ground (arith, from_str_radix-value 16 n c cs, value-digits_value 0 n (c ∷ cs))

value-prefixed : (s : List ℕ) → IsPrefixed s → value 10 0 s ≡ none
unfolding value to_digit
value-prefixed (c ∷ d ∷ cs) p = ground arith
value-prefixed (c ∷ []) p = absurd p
value-prefixed [] p = absurd p

parse_value-decimal :
    (s : List ℕ) (n : ℕ)
    → value 10 0 s ≡ some n
    → 0 < length s
    → n < 2 ^ 32
    → parse_value s ≡ some n
parse_value-decimal [] n e long small = absurd (omega arith)
parse_value-decimal (c ∷ cs) n e long small =
    rw (parse_value-plain (c ∷ cs) (λ p. ground (arith, value-prefixed (c ∷ cs) p)))
      (from_str_radix-value 10 n c cs (omega arith) e small)

-- `introduce` of a 32-bit value prints, as the last line on the standard output, "Send   : "
-- followed by a text and a second text in parentheses, and for each of the two texts as its
-- argument the program sends that value.
pub send_value-printed :
    (win : Win32) (s : Session win) (program : List ℕ) (rest : List (List ℕ)) (v : ℕ)
    → v < 2 ^ 32
    → (hex : List ℕ) × (dec : List ℕ) × (latest (final win (introduce win v s)).lines
        ≡ some (stdout (codes "Send   : " ++ hex ++ codes " (" ++ dec ++ codes ")")))
      × (send_value (program ∷ hex ∷ rest) ≡ v)
      × (send_value (program ∷ dec ∷ rest) ≡ v)
unfolding send_value introduce
send_value-printed win s program rest v small =
    let long : 2 < length (format_hex 10 v) = omega (arith, length-format_hex 7 v small) in
    (
      format_hex 10 v,
      decimal v,
      refl,
      rw (send_value, parse_value-hex (format_hex 10 v) v (parse_hex-format_hex 10 v) long small)
          refl,
      rw (send_value, parse_value-decimal (decimal v) v (value-decimal v) (decimal-long v) small)
          refl,
    )
