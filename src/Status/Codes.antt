-- ===== src/Status/Codes.antt =====
-- crates/wdk-safe/src/error.rs: the named status codes.
use wdk_safe.Base.{ℕ, as_i32}
use wdk_safe.Status.{NtStatus, from_raw}

-- `Self(code as i32)`
abbrev pub cast : ℕ → NtStatus
unfolding as_i32
cast c = from_raw (as_i32 c)

abbrev pub success : NtStatus
success = cast 0x0000_0000

abbrev pub pending : NtStatus
pending = cast 0x0000_0103

abbrev pub buffer_overflow : NtStatus
buffer_overflow = cast 0x8000_0005

abbrev pub unsuccessful : NtStatus
unsuccessful = cast 0xC000_0001

abbrev pub not_implemented : NtStatus
not_implemented = cast 0xC000_0002

abbrev pub invalid_parameter : NtStatus
invalid_parameter = cast 0xC000_000D

abbrev pub access_denied : NtStatus
access_denied = cast 0xC000_0022

abbrev pub buffer_too_small : NtStatus
buffer_too_small = cast 0xC000_0023

abbrev pub object_name_not_found : NtStatus
object_name_not_found = cast 0xC000_0034

abbrev pub insufficient_resources : NtStatus
insufficient_resources = cast 0xC000_009A

abbrev pub device_not_ready : NtStatus
device_not_ready = cast 0xC000_00A3

abbrev pub not_supported : NtStatus
not_supported = cast 0xC000_00BB

abbrev pub invalid_device_request : NtStatus
invalid_device_request = cast 0xC000_0010

abbrev pub delete_pending : NtStatus
delete_pending = cast 0xC000_0056

abbrev pub no_memory : NtStatus
no_memory = cast 0xC000_0017
