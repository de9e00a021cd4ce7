-- ===== src/Tests/Status.antt =====
-- Tests of crates/wdk-safe/src/error.rs.
use mathlib.Core.Option
use wdk_safe.Base.{◌≡◌, refl, true, some, arith, as_u32, as_i32, negsuc, pos, length}
use wdk_safe.Base.Hex.{codes, format_hex, parse_hex}
use wdk_safe.Status.{from_raw, is_success, is_informational, is_warning, is_error, severity}
use wdk_safe.Status.Codes
use wdk_safe.Status.Predicates.{answers, predicates-severity}
use wdk_safe.Status.Format.{display, display-parse}

-- STATUS_BUFFER_OVERFLOW, 0x8000_0005 as an `i32`.
predicates-severity_example :
    let s = from_raw (negsuc 0x7FFF_FFFA) in
    (is_success s, is_informational s, is_warning s, is_error s) ≡ answers (severity s)
predicates-severity_example = predicates-severity (from_raw (negsuc 0x7FFF_FFFA)) (omega arith)

buffer_overflow-is_warning : is_warning Codes.buffer_overflow ≡ true
unfolding is_warning as_i32
buffer_overflow-is_warning = refl

informational_is_success : is_success (from_raw (pos 0x4000_0000)) ≡ true
unfolding is_success
informational_is_success = refl

-- STATUS_UNSUCCESSFUL, 0xC000_0001 as an `i32`.
display-parse_example :
    let s = from_raw (negsuc 0x3FFF_FFFE) in
    (length (display s) ≡ 10)
    × (Option.map (λ n. from_raw (as_i32 n)) (parse_hex (display s)) ≡ some s)
display-parse_example = display-parse (from_raw (negsuc 0x3FFF_FFFE)) (omega arith)

display_error : display (from_raw (negsuc 0x3FFF_FFFE)) ≡ codes "0xC0000001"
unfolding display as_u32 format_hex
display_error = refl
