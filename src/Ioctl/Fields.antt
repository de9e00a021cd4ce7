-- ===== src/Ioctl/Fields.antt =====
-- Packing and unpacking an I/O control code.
use Prim.Native.Nat.{bit_or}
use wdk_safe.Base.{ℕ, ◌+◌, ◌*◌, ◌/◌, ◌%◌, ◌^◌, ◌<◌, ◌≡◌, refl, ap, ◌∙◌, arith}
use wdk_safe.Base.Bits.{bit_and_mask, bit_or_shifted}
use wdk_safe.Ioctl.{
  TransferMethod, buffered, in_direct, out_direct, neither, RequiredAccess, any, read, write,
  read_write, method_bits, access_bits, IoControlCode, IsCode, new, from_raw, device_type, function,
  method, access, method_of_bits, access_of_bits, shl,
}

pub method_bits-lt : (m : TransferMethod) → method_bits m < 4
method_bits-lt buffered = omega arith
method_bits-lt in_direct = omega arith
method_bits-lt out_direct = omega arith
method_bits-lt neither = omega arith

pub access_bits-lt : (a : RequiredAccess) → access_bits a < 4
access_bits-lt any = omega arith
access_bits-lt read = omega arith
access_bits-lt write = omega arith
access_bits-lt read_write = omega arith

-- The `match`es of the accessors undo the discriminants, and the other way round.
method_of_bits-method_bits : (m : TransferMethod) → method_of_bits (method_bits m) ≡ m
unfolding method_of_bits
method_of_bits-method_bits buffered = refl
method_of_bits-method_bits in_direct = refl
method_of_bits-method_bits out_direct = refl
method_of_bits-method_bits neither = refl

access_of_bits-access_bits : (a : RequiredAccess) → access_of_bits (access_bits a) ≡ a
unfolding access_of_bits
access_of_bits-access_bits any = refl
access_of_bits-access_bits read = refl
access_of_bits-access_bits write = refl
access_of_bits-access_bits read_write = refl

method_bits-method_of_bits : (b : ℕ) → b < 4 → method_bits (method_of_bits b) ≡ b
unfolding method_of_bits
method_bits-method_of_bits b h = ground arith

access_bits-access_of_bits : (b : ℕ) → b < 4 → access_bits (access_of_bits b) ≡ b
unfolding access_of_bits
access_bits-access_of_bits b h = ground arith

bit_or_sum : (k q x b : ℕ) → x ≡ q * 2 ^ k → b < 2 ^ k → bit_or x b ≡ x + b
bit_or_sum k q x b e h = rw e (bit_or_shifted k q b h)

-- The packed word as a sum, if every field fits its place.
pub new-sum :
    (d f : ℕ) (m : TransferMethod) (a : RequiredAccess)
    → d < 2 ^ 16
    → f < 2 ^ 12
    → (new d f m a).value ≡ d * 2 ^ 16 + access_bits a * 2 ^ 14 + f * 2 ^ 2 + method_bits m
unfolding new
new-sum d f m a hd hf =
    let u = shl d 16 in
    let v = shl (access_bits a) 14 in
    let w = shl f 2 in
    let ha = access_bits-lt a in
    rw
      (
        bit_or_sum 16 d u v (omega arith) (omega arith),
        bit_or_sum 14 (d * 4 + access_bits a) (u + v) w (omega arith) (omega arith),
        bit_or_sum 2 ((d * 4 + access_bits a) * 2 ^ 12 + f) (u + v + w) (method_bits m)
            (omega arith) (omega (arith, method_bits-lt m)),
      )
      (omega arith)

-- Each field as arithmetic on the word.
pub function-sum : (c : IoControlCode) → function c ≡ c.value / 2 ^ 2 % 2 ^ 12
unfolding function
function-sum c = omega (arith, bit_and_mask 12 (c.value / 2 ^ 2))

pub method-sum : (c : IoControlCode) → method c ≡ method_of_bits (c.value % 2 ^ 2)
unfolding method
method-sum c = ap method_of_bits (bit_and_mask 2 c.value)

pub access-sum : (c : IoControlCode) → access c ≡ access_of_bits (c.value / 2 ^ 14 % 2 ^ 2)
unfolding access
access-sum c = ap access_of_bits (bit_and_mask 2 (c.value / 2 ^ 14))

pub device_type-sum : (c : IoControlCode) → device_type c ≡ c.value / 2 ^ 16 % 2 ^ 16
unfolding device_type
device_type-sum c = refl

-- Packing a 16-bit device type, a 12-bit function code, a method and an access, and reading the
-- fields back, gives each of them unchanged.
pub fields-new :
    (d f : ℕ) (m : TransferMethod) (a : RequiredAccess)
    → d < 2 ^ 16
    → f < 2 ^ 12
    → let c = new d f m a in
      (device_type c ≡ d) × (function c ≡ f) × (method c ≡ m) × (access c ≡ a)
fields-new d f m a hd hf =
    let c = new d f m a in
    let e = new-sum d f m a hd hf in
    let hm = method_bits-lt m in
    let ha = access_bits-lt a in
    (
      omega (arith, e, device_type-sum c),
      omega (arith, e, function-sum c),
      method-sum c ∙ ap method_of_bits (omega (arith, e)) ∙ method_of_bits-method_bits m,
      access-sum c ∙ ap access_of_bits (omega (arith, e)) ∙ access_of_bits-access_bits a,
    )

-- Every 32-bit code is the packing of its own four fields.
pub new-fields :
    (c : IoControlCode) → IsCode c → new (device_type c) (function c) (method c) (access c) ≡ c
new-fields c h =
    let d = device_type c in
    let f = function c in
    let e =
      new-sum d f (method c) (access c) (omega (arith, device_type-sum c))
        (omega (arith, function-sum c)) in
    ap from_raw (
      omega (
        arith,
        e,
        device_type-sum c,
        function-sum c,
        ap method_bits (method-sum c),
        ap access_bits (access-sum c),
        method_bits-method_of_bits (c.value % 2 ^ 2) (omega arith),
        access_bits-access_of_bits (c.value / 2 ^ 14 % 2 ^ 2) (omega arith),
      ))
