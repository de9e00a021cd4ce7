-- ===== src/Echo/Requests.antt =====
-- The requests of the echo driver: what the I/O manager leaves in memory, and the status that a
-- request deserves.
use wdk_safe.Base.{ℕ, ◌+◌, ◌%◌, ◌≤◌, ◌≡◌, ◌≢◌, not, ◌||◌, some, ◌==◌, ltb, if◌then◌else◌}
use wdk_safe.Status.{NtStatus}
use wdk_safe.Status.Codes
use wdk_safe.Memory.{Memory, read_le, IsMapped, AreDisjoint}
use wdk_safe.Irp
use wdk_safe.Request.{IoRequest}

-- The fields of the request, as the I/O manager has left them in memory.
pub record Inputs (r : IoRequest) (code input output buffer : ℕ) (m : Memory) : Type 0 where
  pub code_field : read_le 4 (r.stack + 0x18) m ≡ some code
  pub input_field : read_le 4 (r.stack + 0x10) m ≡ some input
  pub output_field : read_le 4 (r.stack + 0x08) m ≡ some output
  pub buffer_field : read_le 8 (Irp.as_raw_ptr r.irp + 0x70) m ≡ some buffer

-- The status that the request deserves.
unfoldable pub echo_status : (code input output buffer : ℕ) → NtStatus
echo_status code input output buffer =
    if not (code == 0x8000_2000)
    then Codes.invalid_device_request
    else if ltb input 4 || ltb output 4
    then Codes.buffer_too_small
    else if buffer == 0
    then Codes.invalid_parameter
    else Codes.success

-- Is the request one that is answered?
abbrev pub IsEcho : (code input output buffer : ℕ) → Type 0
IsEcho code input output buffer = (code ≡ 0x8000_2000) × (4 ≤ input) × (4 ≤ output) × (buffer ≢ 0)

-- What an answered request needs: the buffer, and an aligned information field.
pub record Answerable (r : IoRequest) (buffer : ℕ) (m : Memory) : Type 0 where
  pub buffer_mapped : IsMapped 4 buffer m
  pub info_mapped : IsMapped 8 (Irp.as_raw_ptr r.irp + 0x38) m
  pub info_aligned : (Irp.as_raw_ptr r.irp + 0x38) % 8 ≡ 0
  -- the buffer does not overlap the pointer to it
  pub apart : AreDisjoint 4 buffer 8 (Irp.as_raw_ptr r.irp + 0x70)
