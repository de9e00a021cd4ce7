-- ===== src/Ioctl/Overflow.antt =====
-- `IoControlCode::new` on function codes that do not fit their twelve bits.
use Prim.Native.Nat.{bit_or}
use wdk_safe.Base.{ℕ, ◌*◌, ◌/◌, ◌%◌, ◌^◌, ◌<◌, ◌≡◌, refl, ap, ◌∙◌, arith}
use wdk_safe.Base.Bits.{bit_or-mod, bit_or-div, bit_or-zero, zero-bit_or}
use wdk_safe.Ioctl.{
  TransferMethod, RequiredAccess, method_bits, access_bits, new, device_type, function, access,
  access_of_bits, shl,
}
use wdk_safe.Ioctl.Fields.{
  access_bits-lt, method_bits-lt, device_type-sum, function-sum, access-sum,
}

module _ (d f : ℕ) (m : TransferMethod) (a : RequiredAccess) (hd : d < 2 ^ 16)
    (hf : f < 2 ^ 16) where
  word-div :
      (k : ℕ)
      → (new d f m a).value / 2 ^ k
        ≡ bit_or
            (bit_or (bit_or (shl d 16 / 2 ^ k) (shl (access_bits a) 14 / 2 ^ k)) (shl f 2 / 2 ^ k))
            (method_bits m / 2 ^ k)
  unfolding new
  word-div k =
      let x = bit_or (shl d 16) (shl (access_bits a) 14) in
      rw (
        bit_or-div k (bit_or x (shl f 2)) (method_bits m),
        bit_or-div k x (shl f 2),
        bit_or-div k (shl d 16) (shl (access_bits a) 14),
      )

  -- The three shifts that the accessors make, with what has been shifted out gone.
  word-div_16 : (new d f m a).value / 2 ^ 16 ≡ bit_or d (f / 2 ^ 14)
  word-div_16 =
      word-div 16
      ∙ fields (omega arith) (omega (arith, access_bits-lt a)) (omega arith)
          (omega (arith, method_bits-lt m))
    where
      fields :
          {u v w x : ℕ}
          → u ≡ d
          → v ≡ 0
          → w ≡ f / 2 ^ 14
          → x ≡ 0
          → bit_or (bit_or (bit_or u v) w) x ≡ bit_or d (f / 2 ^ 14)
      fields p q r s = rw (p, q, r, s, bit_or-zero d, bit_or-zero (bit_or d (f / 2 ^ 14)))

  word-div_14 : (new d f m a).value / 2 ^ 14 ≡ bit_or (bit_or (d * 4) (access_bits a)) (f / 2 ^ 12)
  word-div_14 =
      word-div 14
      ∙ fields (omega arith) (omega (arith, access_bits-lt a)) (omega arith)
          (omega (arith, method_bits-lt m))
    where
      fields :
          {u v w x : ℕ}
          → u ≡ d * 4
          → v ≡ access_bits a
          → w ≡ f / 2 ^ 12
          → x ≡ 0
          → bit_or (bit_or (bit_or u v) w) x ≡ bit_or (bit_or (d * 4) (access_bits a)) (f / 2 ^ 12)
      fields p q r s =
          rw (p, q, r, s, bit_or-zero (bit_or (bit_or (d * 4) (access_bits a)) (f / 2 ^ 12)))

  word-div_2 : (new d f m a).value / 2 ^ 2 ≡ bit_or (bit_or (d * 2 ^ 14) (access_bits a * 2 ^ 12)) f
  word-div_2 =
      word-div 2
      ∙ fields (omega arith) (omega (arith, access_bits-lt a)) (omega arith)
          (omega (arith, method_bits-lt m))
    where
      fields :
          {u v w x : ℕ}
          → u ≡ d * 2 ^ 14
          → v ≡ access_bits a * 2 ^ 12
          → w ≡ f
          → x ≡ 0
          → bit_or (bit_or (bit_or u v) w) x
            ≡ bit_or (bit_or (d * 2 ^ 14) (access_bits a * 2 ^ 12)) f
      fields p q r s =
          rw (p, q, r, s, bit_or-zero (bit_or (bit_or (d * 2 ^ 14) (access_bits a * 2 ^ 12)) f))

  mod_union :
      (k x y : ℕ) {x' y' : ℕ} → x % 2 ^ k ≡ x' → y % 2 ^ k ≡ y' → bit_or x y % 2 ^ k ≡ bit_or x' y'
  mod_union k x y p q = rw (bit_or-mod k x y, p, q)

  -- A 16-bit function code that does not fit 12 bits runs into its neighbours: bits 12 and 13 are
  -- or-ed into the access field, bits 14 and 15 into the device type, and only the low 12 bits are
  -- read back as the function code.
  pub new-overflow :
      let c = new d f m a in
      (device_type c ≡ bit_or d (f / 2 ^ 14))
      × (access c ≡ access_of_bits (bit_or (access_bits a) (f / 2 ^ 12 % 2 ^ 2)))
      × (function c ≡ f % 2 ^ 12)
  new-overflow =
      let c = new d f m a in
      (
        device_type-sum c
            ∙ ap (λ w. w % 2 ^ 16) word-div_16
            ∙ mod_union 16 d (f / 2 ^ 14) (omega arith) (omega arith),
        access-sum c
            ∙ ap (λ w. access_of_bits (w % 2 ^ 2)) word-div_14
            ∙ ap access_of_bits (
                mod_union 2 (bit_or (d * 4) (access_bits a)) (f / 2 ^ 12)
                  (mod_union 2 (d * 4) (access_bits a) {x' = 0} (omega arith)
                      (omega (arith, access_bits-lt a))
                    ∙ zero-bit_or (access_bits a))
                  refl),
        function-sum c
            ∙ ap (λ w. w % 2 ^ 12) word-div_2
            ∙ mod_union 12 (bit_or (d * 2 ^ 14) (access_bits a * 2 ^ 12)) f
                (mod_union 12 (d * 2 ^ 14) (access_bits a * 2 ^ 12) {x' = 0} {y' = 0} (omega arith)
                  (omega arith))
                refl
            ∙ zero-bit_or (f % 2 ^ 12),
      )
