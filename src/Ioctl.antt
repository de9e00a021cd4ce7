-- ===== src/Ioctl.antt =====
-- crates/wdk-safe/src/ioctl.rs: I/O control codes as packed 32-bit words, and the offsets of the
-- fields that a request reads. A `u16` or `u32` is a number; `IsCode` says that a code fits.
pub mod Fields
pub mod Equivalence
pub mod Overflow
pub mod Classes
pub mod Format
use Prim.Native.Nat.{bit_and, bit_or}
use wdk_safe.Base.{ℕ, ◌*◌, ◌/◌, ◌%◌, ◌^◌, ◌<◌, Bool, ◌&&◌, leb, ◌==◌, if◌then◌else◌}

pub data TransferMethod : Type 0 where
  buffered in_direct out_direct neither : TransferMethod

pub data RequiredAccess : Type 0 where
  any read write read_write : RequiredAccess

-- The discriminants, `method as u32` and `access as u32`.
abbrev pub method_bits : TransferMethod → ℕ
method_bits buffered = 0
method_bits in_direct = 1
method_bits out_direct = 2
method_bits neither = 3

abbrev pub access_bits : RequiredAccess → ℕ
access_bits any = 0
access_bits read = 1
access_bits write = 2
access_bits read_write = 3

pub record IoControlCode : Type 0 where
  pub value : ℕ

abbrev pub IsCode : IoControlCode → Type 0
IsCode c = c.value < 2 ^ 32

-- `x << k` on a `u32`
abbrev pub shl : ℕ → ℕ → ℕ
shl x k = x * 2 ^ k % 2 ^ 32

-- `x >> k`
abbrev pub shr : ℕ → ℕ → ℕ
shr x k = x / 2 ^ k

-- `x as u16`
abbrev pub as_u16 : ℕ → ℕ
as_u16 x = x % 2 ^ 16

unfoldable pub new : ℕ → ℕ → TransferMethod → RequiredAccess → IoControlCode
new device_type function method access =
    let code =
      bit_or (bit_or (bit_or (shl device_type 16) (shl (access_bits access) 14)) (shl function 2))
        (method_bits method) in
    record { value = code }

abbrev pub from_raw : ℕ → IoControlCode
from_raw code = record { value = code }

abbrev pub into_raw : IoControlCode → ℕ
into_raw c = c.value

unfoldable pub device_type : IoControlCode → ℕ
device_type c = as_u16 (shr c.value 16)

unfoldable pub function : IoControlCode → ℕ
function c = as_u16 (bit_and (shr c.value 2) 0x0FFF)

unfoldable pub method_of_bits : ℕ → TransferMethod
method_of_bits b =
    if b == 0
    then buffered
    else if b == 1
    then in_direct
    else if b == 2
    then out_direct
    else neither

unfoldable pub method : IoControlCode → TransferMethod
unfolding method_of_bits
method c = method_of_bits (bit_and c.value 3)

unfoldable pub access_of_bits : ℕ → RequiredAccess
access_of_bits b =
    if b == 0 then any else if b == 1 then read else if b == 2 then write else read_write

unfoldable pub access : IoControlCode → RequiredAccess
unfolding access_of_bits
access c = access_of_bits (bit_and (shr c.value 14) 3)

unfoldable pub is_microsoft_device_type : IoControlCode → Bool
is_microsoft_device_type c = let dt = device_type c in leb 0x0001 dt && leb dt 0x7FFF

unfoldable pub is_vendor_device_type : IoControlCode → Bool
is_vendor_device_type c = leb 0x8000 (device_type c)

unfoldable pub is_vendor_function : IoControlCode → Bool
is_vendor_function c = leb 0x800 (function c)

-- Byte offsets: the first three within `IO_STACK_LOCATION`, the last two within `IRP`.
pub record IoStackOffsets : Type 0 where
  pub ioctl_code : ℕ
  pub input_buffer_length : ℕ
  pub output_buffer_length : ℕ
  pub irp_system_buffer : ℕ
  pub irp_information : ℕ

abbrev pub wdk_sys_0_5_x64 : IoStackOffsets
wdk_sys_0_5_x64 = record {
  ioctl_code = 0x18;
  input_buffer_length = 0x10;
  output_buffer_length = 0x08;
  irp_system_buffer = 0x70;
  irp_information = 0x38;
}
