-- ===== src/Tests/Ioctl.antt =====
-- Tests of crates/wdk-safe/src/ioctl.rs.
use Prim.Native.Nat.{bit_or}
use wdk_safe.Base.{◌/◌, ◌%◌, ◌^◌, ◌≡◌, not, ◌&&◌, some, arith, ltb, ◌==◌, length}
use wdk_safe.Base.Hex.{parse_hex}
use wdk_safe.Ioctl.{
  buffered, any, read, from_raw, new, device_type, function, access, access_bits, access_of_bits,
  is_microsoft_device_type, is_vendor_device_type, is_vendor_function,
}
use wdk_safe.Ioctl.Overflow.{new-overflow}
use wdk_safe.Ioctl.Classes.{classes-new}
use wdk_safe.Ioctl.Format.{display, parse_hex-display}

-- 0xF801 does not fit twelve bits.
new-overflow_example :
    let c = new 0x8000 0xF801 buffered read in
    (device_type c ≡ bit_or 0x8000 (0xF801 / 2 ^ 14))
    × (access c ≡ access_of_bits (bit_or (access_bits read) (0xF801 / 2 ^ 12 % 2 ^ 2)))
    × (function c ≡ 0xF801 % 2 ^ 12)
new-overflow_example = new-overflow 0x8000 0xF801 buffered read (omega arith) (omega arith)

classes-new_example :
    let c = new 0x0022 0x100 buffered any in
    (is_vendor_device_type c ≡ ltb 0x7FFF 0x0022)
    × (is_microsoft_device_type c ≡ (not (is_vendor_device_type c) && not (0x0022 == 0)))
    × (is_vendor_function c ≡ ltb 0x7FF 0x100)
classes-new_example = classes-new 0x0022 0x100 buffered any (omega arith) (omega arith)

parse_hex-display_example :
    let c = from_raw 0x8000_2000 in
    (length (display c) ≡ 10) × (parse_hex (display c) ≡ some c.value)
parse_hex-display_example = parse_hex-display (from_raw 0x8000_2000) (omega arith)
