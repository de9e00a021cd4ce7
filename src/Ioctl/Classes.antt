-- ===== src/Ioctl/Classes.antt =====
-- The vendor and Microsoft ranges of device types and function codes.
use wdk_safe.Base.{ℕ, ◌^◌, ◌<◌, ◌≡◌, not, ◌&&◌, ltb, ◌==◌, arith}
use wdk_safe.Ioctl.{
  TransferMethod, RequiredAccess, new, is_microsoft_device_type, is_vendor_device_type,
  is_vendor_function,
}
use wdk_safe.Ioctl.Fields.{fields-new}

-- A code built from a 16-bit device type and a 12-bit function code is a vendor's exactly when its
-- device type is 0x8000 or more, Microsoft's exactly when it lies between 1 and 0x7FFF, and neither
-- for the device type 0; its function code is a vendor's exactly when it is 0x800 or more.
pub classes-new :
    (d f : ℕ) (m : TransferMethod) (a : RequiredAccess)
    → d < 2 ^ 16
    → f < 2 ^ 12
    → let c = new d f m a in
      (is_vendor_device_type c ≡ ltb 0x7FFF d)
      × (is_microsoft_device_type c ≡ (not (is_vendor_device_type c) && not (d == 0)))
      × (is_vendor_function c ≡ ltb 0x7FF f)
unfolding is_vendor_device_type is_microsoft_device_type is_vendor_function
classes-new d f m a hd hf =
    let (ed, ef, _, _) = fields-new d f m a hd hf in
    rw (ed, ef) (ground arith, ground arith, ground arith)
