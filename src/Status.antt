-- ===== src/Status.antt =====
-- crates/wdk-safe/src/error.rs: `NtStatus`, a newtype over an `i32`, and its severity.
pub mod Codes
pub mod Predicates
pub mod Format
use wdk_safe.Base.{ℕ, ◌/◌, ◌^◌, Bool, ℤ, IsI32, as_u32, nonneg, leb, ◌==◌, if◌then◌else◌}

-- The `i32` of the newtype; `IsStatus` says that it is one.
pub record NtStatus : Type 0 where
  pub value : ℤ

abbrev pub IsStatus : NtStatus → Type 0
IsStatus s = IsI32 s.value

abbrev pub from_raw : ℤ → NtStatus
from_raw status = record { value = status }

abbrev pub into_raw : NtStatus → ℤ
into_raw s = s.value

pub data Severity : Type 0 where
  success informational warning error : Severity

unfoldable pub is_success : NtStatus → Bool
is_success s = nonneg s.value

unfoldable pub is_informational : NtStatus → Bool
unfolding as_u32
is_informational s = as_u32 s.value / 2 ^ 30 == 1

unfoldable pub is_warning : NtStatus → Bool
unfolding as_u32
is_warning s = as_u32 s.value / 2 ^ 30 == 2

unfoldable pub is_error : NtStatus → Bool
unfolding as_u32
is_error s = leb 0xC000_0000 (as_u32 s.value)

-- The `match` on the two highest bits.
severity_of_bits : ℕ → Severity
severity_of_bits b =
    if b == 0 then success else if b == 1 then informational else if b == 2 then warning else error

unfoldable pub severity : NtStatus → Severity
unfolding as_u32 severity_of_bits
severity s = severity_of_bits (as_u32 s.value / 2 ^ 30)
