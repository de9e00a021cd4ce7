-- ===== src/Status/Format.antt =====
-- crates/wdk-safe/src/error.rs: the `Debug` and `Display` texts of a status.
use mathlib.Core.Option
use wdk_safe.Base.{
  ℕ, ◌≡◌, refl, ap, ◌∙◌, some, List, ◌++◌, arith, as_u32, as_i32, as_u32-lt, as_i32-as_u32, length,
}
use wdk_safe.Base.Hex.{codes, format_hex, parse_hex, parse_hex-format_hex, length-format_hex}
use wdk_safe.Status.{
  NtStatus, IsStatus, from_raw, Severity, success, informational, warning, error, severity,
}

-- The derived `Debug` of `Severity`.
severity_name : Severity → List ℕ
severity_name success = codes "Success"
severity_name informational = codes "Informational"
severity_name warning = codes "Warning"
severity_name error = codes "Error"

-- `NtStatus({raw:#010X} / {sev:?})`
unfoldable pub debug : NtStatus → List ℕ
unfolding severity_name
debug s =
    codes "NtStatus("
    ++ (format_hex 10 (as_u32 s.value)
        ++ (codes " / " ++ (severity_name (severity s) ++ codes ")")))

-- `{raw:#010X}`
unfoldable pub display : NtStatus → List ℕ
display s = format_hex 10 (as_u32 s.value)

-- The displayed text of an `i32` status has ten characters, and read as a hexadecimal number and
-- cast back to `i32` it is the status.
pub display-parse :
    (s : NtStatus)
    → IsStatus s
    → (length (display s) ≡ 10)
      × (Option.map (λ n. from_raw (as_i32 n)) (parse_hex (display s)) ≡ some s)
unfolding display
display-parse s h = (
  length-format_hex 7 (as_u32 s.value) (omega (arith, as_u32-lt s.value h)),
  ap (Option.map (λ n. from_raw (as_i32 n))) (parse_hex-format_hex 10 (as_u32 s.value))
      ∙ ap (λ z. some (from_raw z)) (as_i32-as_u32 s.value h),
)

debug_error : debug (from_raw (as_i32 0xC000_0001)) ≡ codes "NtStatus(0xC0000001 / Error)"
unfolding debug as_i32 as_u32 severity format_hex
debug_error = refl
