-- ===== src/Tests/Macros.antt =====
-- Tests of crates/wdk-safe-macros/src/lib.rs, with numbers for expressions and types.
use wdk_safe.Base.{ℕ, ◌≡◌, ◌⊎◌, inl, inr, refl, true, false, none, some, List, [], ◌∷◌, arith}
use wdk_safe.Base.Hex.{codes}
use wdk_safe.Ioctl.{TransferMethod, buffered, RequiredAccess, any, read_write}
use wdk_safe.Ioctl.Format.{method_name, access_name}
use wdk_safe.Macros.{
  Token, piece, Result, ok, err, Error, expected, method_twice, unknown_method, unknown_access,
  no_settings, method_key, access_key, assign, parse_settings, resolve_method, resolve_access,
  derive_alias_names, Syn, define_ioctl,
}
use wdk_safe.Macros.Options.{Setting, render, acceptable, first, parse_settings-render}
use wdk_safe.Macros.Resolve.{resolve-name}
use mathlib.Core.Quot
use wdk_safe.Macros.Order.{accepted, bag_settings, parse_settings-Bag}
use wdk_safe.Macros.Expansions.{Printed, written, settings_of, expansion, define_ioctl-written}
use wdk_safe.Macros.Aliases.{join, derive_alias_names-distinct}

abbrev parse_piece : List Token → Result (ℕ × List Token)
parse_piece (piece n ∷ ts) = ok (n, ts)
parse_piece other = err expected

abbrev numbers : Syn
numbers = record { Expr = ℕ; Ty = ℕ; parse_expr = parse_piece; parse_type = parse_piece }

abbrev numbers-Printed : Printed numbers
numbers-Printed = record {
  expr_tokens = λ e. piece e ∷ [];
  type_tokens = λ t. piece t ∷ [];
  expr_back = λ e ts. refl;
  type_back_arrow = λ t ts. refl;
  type_back_comma = λ t ts. refl;
  type_back_end = λ t. refl;
}

-- The names in the documentation of the macro.
derive_my_request :
    derive_alias_names (codes "IOCTL_MY_REQUEST")
    ≡ (codes "IoctlMyRequestInput", codes "IoctlMyRequestOutput")
unfolding derive_alias_names
derive_my_request = refl

-- Words that begin with a digit are not told apart: these two constants share their aliases.
derive_shared : derive_alias_names (codes "IOCTL_A_1") ≡ derive_alias_names (codes "IOCTL_A1")
unfolding derive_alias_names
derive_shared = refl

define_ioctl-written_example :
    define_ioctl numbers (
      written numbers numbers-Printed
        (codes "IOCTL_ECHO")
        0x8000
        0x800
        1
        2
        true
        (settings_of true none (some read_write)))
    ≡ ok (
        expansion numbers numbers-Printed (codes "IOCTL_ECHO") 0x8000 0x800 1 2 buffered read_write)
define_ioctl-written_example =
    define_ioctl-written numbers numbers-Printed (codes "IOCTL_ECHO") 0x8000 0x800 1 2 true true
      none (some read_write)

-- The method is set twice.
abbrev twice : List Setting
twice =
    record { key = codes "method"; val = codes "Neither" }
    ∷ record { key = codes "method"; val = codes "Buffered" }
    ∷ []

parse_settings-render_example :
    ((acceptable twice no_settings ≡ true)
      × (parse_settings (render true twice) no_settings
          ≡ ok (record { method = first method_key twice; access = first access_key twice }, [])))
    ⊎ ((acceptable twice no_settings ≡ false)
        × ((e : Error) × (parse_settings (render true twice) no_settings ≡ err e)))
parse_settings-render_example = parse_settings-render true twice

parse_twice : parse_settings (render true twice) no_settings ≡ err method_twice
unfolding parse_settings assign
parse_twice = refl

resolve-name_example :
    ((resolve_method (some (codes "Direct")) ≡ err (unknown_method (codes "Direct")))
      ⊎ ((t : TransferMethod) × (codes "Direct" ≡ method_name t)))
    × ((resolve_access (some (codes "Direct")) ≡ err (unknown_access (codes "Direct")))
        ⊎ ((t : RequiredAccess) × (codes "Direct" ≡ access_name t)))
    × ((t : TransferMethod) → resolve_method (some (method_name t)) ≡ ok t)
    × ((t : RequiredAccess) → resolve_access (some (access_name t)) ≡ ok t)
    × (resolve_method none ≡ ok buffered)
    × (resolve_access none ≡ ok any)
resolve-name_example = resolve-name (codes "Direct")

derive_alias_names-distinct_example : join (codes "AB" ∷ []) ≡ join (codes "AB" ∷ [])
derive_alias_names-distinct_example =
    derive_alias_names-distinct (codes "AB") (codes "AB") [] []
      ((omega arith, omega arith), (inl (omega arith, omega arith), tt)) tt
      ((omega arith, omega arith), (inl (omega arith, omega arith), tt)) tt (inr refl)

parse_settings-Bag_example :
    accepted (parse_settings (render true twice) no_settings) ≡ bag_settings (Quot.mk twice)
parse_settings-Bag_example = parse_settings-Bag true twice
