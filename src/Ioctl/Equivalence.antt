-- ===== src/Ioctl/Equivalence.antt =====
-- Control codes and their fields hold the same information.
use mathlib.Core.Equiv.{IsEquiv, Iso, iso_to_equiv, inv_iso}
use mathlib.Core.HLevel.{Σ_prop_path}
use native.Mathlib.Bridge.{le_prop}
use wdk_safe.Base.{ℕ, ◌^◌, ◌<◌, ◌≡◌, arith}
use wdk_safe.Ioctl.{
  TransferMethod, RequiredAccess, IoControlCode, IsCode, new, device_type, function, method, access,
}
use wdk_safe.Ioctl.Fields.{
  fields-new, new-fields, new-sum, method_bits-lt, access_bits-lt, device_type-sum, function-sum,
}

-- A number of that many bits.
abbrev pub Word : ℕ → Type 0
Word bits = (n : ℕ) × (n < 2 ^ bits)

-- The codes that a `u32` can hold.
abbrev pub Code : Type 0
Code = (c : IoControlCode) × IsCode c

-- The fields of a `CTL_CODE`.
pub record Fields : Type 0 where
  pub device_type : Word 16
  pub function : Word 12
  pub method : TransferMethod
  pub access : RequiredAccess

unfoldable pub unpack : Code → Fields
unpack (c, fits) = record {
  device_type = (device_type c, omega (arith, device_type-sum c));
  function = (function c, omega (arith, function-sum c));
  method = method c;
  access = access c;
}

unfoldable pub pack : Fields → Code
pack f =
    let (d, hd) = f.device_type in
    let (n, hn) = f.function in
    (
      new d n f.method f.access,
      omega (
        arith,
        new-sum d n f.method f.access hd hn,
        method_bits-lt f.method,
        access_bits-lt f.access,
      ),
    )

Word-ext : (bits : ℕ) (a b : Word bits) → a.0 ≡ b.0 → a ≡ b
Word-ext bits a b e = Σ_prop_path (λ n. le_prop) e

unpack-pack : (f : Fields) → unpack (pack f) ≡ f
unfolding unpack pack
unpack-pack f =
    let (d, n, m, a) =
      fields-new f.device_type.0 f.function.0 f.method f.access f.device_type.1 f.function.1 in
    λ i. record {
      device_type = Word-ext 16 (unpack (pack f)).device_type f.device_type d i;
      function = Word-ext 12 (unpack (pack f)).function f.function n i;
      method = m i;
      access = a i;
    }

pack-unpack : (c : Code) → pack (unpack c) ≡ c
unfolding unpack pack
pack-unpack (c, fits) = Σ_prop_path (λ x. le_prop) (new-fields c fits)

-- Packing and reading the four fields are equivalences between the quadruples of a 16-bit device
-- type, a 12-bit function code, a method and an access, and the codes of 32 bits: every code is the
-- packing of exactly one quadruple, and every quadruple is that of exactly one code.
pub pack-IsEquiv : IsEquiv pack × IsEquiv unpack
pack-IsEquiv =
    let iso : Iso Code Fields = record {
      fun = unpack;
      inv = pack;
      rinv = unpack-pack;
      linv = pack-unpack;
    } in
    ((iso_to_equiv (inv_iso iso)).1, (iso_to_equiv iso).1)
