-- ===== src/UnitTests/Request.antt =====
-- The unit tests of crates/wdk-safe/src/request.rs. A vector or a local variable is memory of the
-- test's own, at an address of its own.
use wdk_safe.Base.{
  refl, ℕ, ◌+◌, ◌-◌, ◌^◌, eq_ℤ, as_i32, as_u32, Bool, true, false, ◌&&◌, leb, ltb, if◌then◌else◌,
  Option, none, some, List, [], ◌∷◌, ◌==◌,
}
use wdk_safe.Memory.{Ptr, Memory, read_le, store, write_le}
use wdk_safe.Machine.{Cmd, ok, panic, pure, ◌>>=◌, ◌>>◌, load, store_at, store_aligned}
use wdk_safe.Status
use wdk_safe.Status.{NtStatus, is_success, is_error}
use wdk_safe.Status.Codes
use wdk_safe.Ioctl
use wdk_safe.Ioctl.{buffered, any, IoControlCode, IoStackOffsets, wdk_sys_0_5_x64}
use wdk_safe.Irp
use wdk_safe.Irp.Completers.{noop_completer}
use wdk_safe.Request.{
  IoRequest, from_raw, complete, complete_with_info, into_raw_irp, ioctl_code, input_buffer_length,
  output_buffer_length,
}
use wdk_safe.UnitTests.Harness.{assert, same_status, same_method, same_access, AllPass}

abbrev offsets : IoStackOffsets
offsets = wdk_sys_0_5_x64

abbrev dummy_request : Cmd IoRequest
dummy_request = from_raw 1 1

-- `vec![0u8; n]`
abbrev zeroed : ℕ → Ptr → Memory → Memory
zeroed n p m q = if leb p q && ltb q (p + n) then some 0 else m q

abbrev vec : ℕ → Cmd Ptr
vec n w = ok 0x1000 (record w { mem = zeroed n 0x1000 w.mem })

-- A local variable.
abbrev info : Ptr
info = 0x2000

abbrev store_at_new : ℕ → Ptr → ℕ → Cmd (Unit {0})
store_at_new n p v w = ok tt (record w { mem = store n p v w.mem })

abbrev stack_with_ioctl : ℕ → Cmd Ptr
stack_with_ioctl code = do
  buf ← vec (offsets.ioctl_code + 4)
  store_at_new 4 (buf + offsets.ioctl_code) code
  pure buf

abbrev stack_with_lengths : ℕ → ℕ → Cmd Ptr
stack_with_lengths in_len out_len = do
  buf ← vec (
      (if leb offsets.output_buffer_length offsets.input_buffer_length
        then offsets.input_buffer_length
        else offsets.output_buffer_length)
      + 4)
  store_at_new 4 (buf + offsets.input_buffer_length) in_len
  store_at_new 4 (buf + offsets.output_buffer_length) out_len
  pure buf

abbrev is_none : Option IoControlCode → Bool
is_none none = true
is_none (some c) = false

-- `Option::unwrap`
abbrev unwrap : Option IoControlCode → Cmd IoControlCode
unwrap none w = panic
unwrap (some c) w = pure c w

abbrev complete_success : Cmd (Unit {0})
complete_success = do
  request ← dummy_request
  status ← complete noop_completer request Codes.success
  assert (is_success status)

abbrev complete_error : Cmd (Unit {0})
complete_error = do
  request ← dummy_request
  status ← complete noop_completer request Codes.not_supported
  assert (is_error status)

abbrev complete_returns_same_status : Cmd (Unit {0})
complete_returns_same_status = do
  let status = Codes.invalid_parameter
  request ← dummy_request
  result ← complete noop_completer request status
  assert (eq_ℤ (Status.into_raw result) (Status.into_raw status))

abbrev into_raw_irp_returns_pointer : Cmd (Unit {0})
into_raw_irp_returns_pointer = do
  let ptr : ℕ = 42
  req ← from_raw ptr 1
  assert (into_raw_irp req == ptr)

abbrev ioctl_code_returns_none_for_zero : Cmd (Unit {0})
ioctl_code_returns_none_for_zero = do
  buf ← vec (offsets.ioctl_code + 4)
  req ← from_raw 1 buf
  result ← ioctl_code req offsets
  complete noop_completer req Codes.success
  assert (is_none result)

abbrev ioctl_code_returns_code : Cmd (Unit {0})
ioctl_code_returns_code = do
  let expected : ℕ = 0x8000_2000
  buf ← stack_with_ioctl expected
  req ← from_raw 1 buf
  result ← ioctl_code req offsets
  complete noop_completer req Codes.success
  code ← unwrap result
  assert (Ioctl.into_raw code == expected)

abbrev ioctl_code_decodes_correctly : Cmd (Unit {0})
ioctl_code_decodes_correctly = do
  let code = Ioctl.new 0x8000 0x800 buffered any
  buf ← stack_with_ioctl (Ioctl.into_raw code)
  req ← from_raw 1 buf
  result ← ioctl_code req offsets
  complete noop_completer req Codes.success
  decoded ← unwrap result
  assert (Ioctl.device_type decoded == 0x8000)
  assert (Ioctl.function decoded == 0x800)
  assert (same_method (Ioctl.method decoded) buffered)
  assert (same_access (Ioctl.access decoded) any)

abbrev input_buffer_length_read : Cmd (Unit {0})
input_buffer_length_read = do
  buf ← stack_with_lengths 42 0
  req ← from_raw 1 buf
  len ← input_buffer_length req offsets
  complete noop_completer req Codes.success
  assert (len == 42)

abbrev output_buffer_length_read : Cmd (Unit {0})
output_buffer_length_read = do
  buf ← stack_with_lengths 0 99
  req ← from_raw 1 buf
  len ← output_buffer_length req offsets
  complete noop_completer req Codes.success
  assert (len == 99)

abbrev both_lengths_read_independently : Cmd (Unit {0})
both_lengths_read_independently = do
  buf ← stack_with_lengths 512 1024
  req ← from_raw 1 buf
  in_l ← input_buffer_length req offsets
  out_l ← output_buffer_length req offsets
  complete noop_completer req Codes.success
  assert (in_l == 512)
  assert (out_l == 1024)

abbrev lengths_are_zero_when_not_set : Cmd (Unit {0})
lengths_are_zero_when_not_set = do
  buf ← vec 256
  req ← from_raw 1 buf
  in_l ← input_buffer_length req offsets
  assert (in_l == 0)
  out_l ← output_buffer_length req offsets
  assert (out_l == 0)
  complete noop_completer req Codes.success
  pure tt

abbrev complete_with_info_writes_bytes : Cmd (Unit {0})
complete_with_info_writes_bytes = do
  store_at_new 8 info 0
  request ← dummy_request
  status ← complete_with_info noop_completer request Codes.success 42 info
  after ← load 8 info
  assert (after == 42)

abbrev complete_with_info_zero_bytes : Cmd (Unit {0})
complete_with_info_zero_bytes = do
  store_at_new 8 info 99
  request ← dummy_request
  status ← complete_with_info noop_completer request Codes.success 0 info
  after ← load 8 info
  assert (after == 0)

abbrev complete_with_info_large_transfer : Cmd (Unit {0})
complete_with_info_large_transfer = do
  store_at_new 8 info 0
  request ← dummy_request
  status ← complete_with_info noop_completer request Codes.success (2 ^ 64 - 1) info
  after ← load 8 info
  assert (after == 2 ^ 64 - 1)

abbrev complete_returns_same_status_as_input : Cmd (Unit {0})
complete_returns_same_status_as_input = do
  store_at_new 8 info 0
  request ← dummy_request
  status ← complete_with_info noop_completer request Codes.invalid_parameter 0 info
  assert (same_status status Codes.invalid_parameter)

abbrev tests : List (Cmd (Unit {0}))
tests =
    complete_success ∷ complete_error ∷ complete_returns_same_status ∷ into_raw_irp_returns_pointer
    ∷ ioctl_code_returns_none_for_zero ∷ ioctl_code_returns_code ∷ ioctl_code_decodes_correctly
    ∷ input_buffer_length_read ∷ output_buffer_length_read ∷ both_lengths_read_independently
    ∷ lengths_are_zero_when_not_set ∷ complete_with_info_writes_bytes
    ∷ complete_with_info_zero_bytes ∷ complete_with_info_large_transfer
    ∷ complete_returns_same_status_as_input ∷ []

tests-AllPass_request : AllPass tests
unfolding as_i32 as_u32 is_success is_error Ioctl.new Ioctl.device_type Ioctl.function Ioctl.method
    Ioctl.access Ioctl.method_of_bits Ioctl.access_of_bits Irp.from_raw Irp.complete
    Irp.set_information_ptr from_raw complete complete_with_info ioctl_code input_buffer_length
    output_buffer_length noop_completer load store_at store_aligned read_le write_le store
tests-AllPass_request = λ w. (refl, refl)
