-- ===== src/UnitTests/DefineIoctl.antt =====
-- The integration tests of define_ioctl!, tests/integration/src/ioctl_tests.rs. An expression or a
-- type is one token, a number.
mod Run
use Prim.Native.String.{String}
use wdk_safe.Base.{ℕ, List, [], ◌∷◌}
use wdk_safe.Base.Hex.{codes}
use wdk_safe.Machine.{Cmd, ok, panic}
use wdk_safe.Ioctl.{IoControlCode, new}
use wdk_safe.Macros
use wdk_safe.Macros.{
  Token, ident, comma, equals, fat_arrow, piece, Result, expected, Syn, Expansion, define_ioctl,
}

abbrev parse_piece : List Token → Result (ℕ × List Token)
parse_piece (piece n ∷ ts) = Macros.ok (n, ts)
parse_piece other = Macros.err expected

abbrev pub numbers : Syn
numbers = record { Expr = ℕ; Ty = ℕ; parse_expr = parse_piece; parse_type = parse_piece }

-- The types of the buffers.
abbrev pub req : ℕ
req = 1

abbrev pub rsp : ℕ
rsp = 2

abbrev pub empty_req : ℕ
empty_req = 3

abbrev pub empty_rsp : ℕ
empty_rsp = 4

-- `NAME, device, function, In => Out`, and `, key = value`.
abbrev required : String → ℕ → ℕ → ℕ → ℕ → List Token → List Token
required name device_type function input output rest =
    ident (codes name)
    ∷ comma
    ∷ piece device_type
    ∷ comma
    ∷ piece function
    ∷ comma
    ∷ piece input
    ∷ fat_arrow
    ∷ piece output
    ∷ rest

abbrev set : String → String → List Token → List Token
set key val rest = comma ∷ ident (codes key) ∷ equals ∷ ident (codes val) ∷ rest

-- What a use of the macro declares; input that the macro refuses stops the build.
abbrev declared : Result (Expansion numbers) → Cmd (Expansion numbers)
declared (Macros.ok e) w = ok e w
declared (Macros.err e) w = panic

-- The value of the declared constant.
abbrev pub value : Expansion numbers → IoControlCode
value e = new e.device_type e.function e.method e.access

abbrev pub ioctl_echo : Cmd (Expansion numbers)
ioctl_echo = declared (define_ioctl numbers (required "IOCTL_ECHO" 0x8000 0x800 req rsp []))

abbrev pub ioctl_read_data : Cmd (Expansion numbers)
ioctl_read_data = declared (
    define_ioctl numbers (
      required "IOCTL_READ_DATA" 0x8000 0x801 req rsp
        (set "method" "InDirect" (set "access" "Read" []))))

abbrev pub ioctl_write_data : Cmd (Expansion numbers)
ioctl_write_data = declared (
    define_ioctl numbers (
      required "IOCTL_WRITE_DATA" 0x8000 0x802 req rsp
        (set "method" "OutDirect" (set "access" "Write" []))))

abbrev pub ioctl_neither_rw : Cmd (Expansion numbers)
ioctl_neither_rw = declared (
    define_ioctl numbers (
      required "IOCTL_NEITHER_RW" 0x8000 0x803 req rsp
        (set "method" "Neither" (set "access" "ReadWrite" []))))

abbrev pub ioctl_explicit_defaults : Cmd (Expansion numbers)
ioctl_explicit_defaults = declared (
    define_ioctl numbers (
      required "IOCTL_EXPLICIT_DEFAULTS" 0x8000 0x804 req rsp
        (set "method" "Buffered" (set "access" "Any" []))))

abbrev pub ioctl_trailing_comma : Cmd (Expansion numbers)
ioctl_trailing_comma = declared (
    define_ioctl numbers (
      required "IOCTL_TRAILING_COMMA" 0x8000 0x805 req rsp
        (set "method" "Buffered" (set "access" "Any" (comma ∷ [])))))

abbrev pub ioctl_my_multi_word : Cmd (Expansion numbers)
ioctl_my_multi_word =
    declared (define_ioctl numbers (required "IOCTL_MY_MULTI_WORD" 0x8000 0x810 req rsp []))

abbrev pub ioctl_a : Cmd (Expansion numbers)
ioctl_a = declared (define_ioctl numbers (required "IOCTL_A" 0x8000 0x820 req rsp []))

abbrev pub ioctl_empty : Cmd (Expansion numbers)
ioctl_empty =
    declared (define_ioctl numbers (required "IOCTL_EMPTY" 0x8000 0x830 empty_req empty_rsp []))

abbrev pub ioctl_other_device : Cmd (Expansion numbers)
ioctl_other_device =
    declared (define_ioctl numbers (required "IOCTL_OTHER_DEVICE" 0x0022 0x800 req rsp []))
