-- ===== src/HidFilter/Configure.antt =====
-- `configure`, the part of `add_device_inner` that sets up the filter's device.
use Prim.Native.Nat.{bit_and, bit_or}
use wdk_safe.Base.{
  Bool, true, ℕ, ◌+◌, ◌-◌, ◌%◌, ◌^◌, ◌<◌, ◌≡◌, ◌≢◌, refl, inl, inr, not, some, ◌==◌, arith,
  ==_false,
}
use wdk_safe.Base.Bits.{bit_and_le, bit_or-lt}
use wdk_safe.Memory.{Ptr, Memory, AreDisjoint, IsMapped, read_le, store}
use wdk_safe.Memory.Laws.{read_le-store, read_le-store_disjoint}
use wdk_safe.Memory.Mapped.{IsMapped-store}
use wdk_safe.Machine.{World, ok, Kernel, ◌>>=◌}
use wdk_safe.Machine.Access.{load_lem, store_at_lem, debug_assert-debug}
use wdk_safe.Wdm.{WdkSys}
use wdk_safe.HidFilter.{configure}
use wdk_safe.HidFilter.Forward.{HasLower}

-- The fields of the two devices that `add_device_inner` reads and writes, and where they lie. In a
-- debug build the stack size of the lower device must not be the greatest `i8`.
pub record Fields (sys : WdkSys) (debug : Bool) (filter lower : Ptr) (m : Memory) : Type 0 where
  pub extension : Ptr
  pub size : ℕ
  pub lower_flags : ℕ
  pub flags : ℕ
  pub extension_field : read_le 8 (filter + sys.device_extension) m ≡ some extension
  pub extension_mapped : IsMapped 8 extension m
  pub size_field : read_le 1 (lower + sys.stack_size) m ≡ some size
  pub size_mapped : IsMapped 1 (filter + sys.stack_size) m
  pub lower_flags_field : read_le 4 (lower + sys.flags) m ≡ some lower_flags
  pub flags_field : read_le 4 (filter + sys.flags) m ≡ some flags
  pub room : debug ≡ true → size ≢ 0x7F
  pub flags_bound : flags < 2 ^ 32
  pub lower_flags_bound : lower_flags < 2 ^ 32
  pub lower_bound : lower < 2 ^ 64
  -- the extension lies outside of the two devices' fields
  pub apart_size : AreDisjoint 8 extension 1 (lower + sys.stack_size)
  pub apart_lower_flags : AreDisjoint 8 extension 4 (lower + sys.flags)
  pub apart_flags : AreDisjoint 8 extension 4 (filter + sys.flags)
  pub apart_extension : AreDisjoint 8 extension 8 (filter + sys.device_extension)
  pub apart_filter_size : AreDisjoint 1 (filter + sys.stack_size) 8 extension
  -- and these do not overlap
  pub size_lower_flags : AreDisjoint 1 (filter + sys.stack_size) 4 (lower + sys.flags)
  pub size_flags : AreDisjoint 1 (filter + sys.stack_size) 4 (filter + sys.flags)
  pub size_extension : AreDisjoint 1 (filter + sys.stack_size) 8 (filter + sys.device_extension)
  pub flags_extension : AreDisjoint 4 (filter + sys.flags) 8 (filter + sys.device_extension)
  pub flags_size : AreDisjoint 4 (filter + sys.flags) 1 (filter + sys.stack_size)

module _ (sys : WdkSys) (filter lower : Ptr) (w : World)
    (f : Fields sys w.debug_assertions filter lower w.mem) where
  -- Memory after each of the stores.
  abbrev pub with_lower : Memory
  with_lower = store 8 f.extension lower w.mem

  abbrev pub with_size : Memory
  with_size = store 1 (filter + sys.stack_size) ((f.size + 1) % 2 ^ 8) with_lower

  abbrev pub merged : ℕ
  merged = bit_or f.flags (bit_and f.lower_flags (bit_or sys.do_buffered_io sys.do_direct_io))

  abbrev pub with_merged : Memory
  with_merged = store 4 (filter + sys.flags) merged with_size

  abbrev pub final_flags : ℕ
  final_flags = bit_and merged (2 ^ 32 - 1 - sys.do_device_initializing)

  abbrev pub configured : Memory
  configured = store 4 (filter + sys.flags) final_flags with_merged

  merged_bound : merged < 2 ^ 32
  merged_bound =
      bit_or-lt 32 f.flags (bit_and f.lower_flags (bit_or sys.do_buffered_io sys.do_direct_io))
        f.flags_bound
        (omega (
          arith,
          bit_and_le f.lower_flags (bit_or sys.do_buffered_io sys.do_direct_io),
          f.lower_flags_bound,
        ))

  size_lem : read_le 1 (lower + sys.stack_size) with_lower ≡ some f.size
  size_lem = rw (read_le-store_disjoint 8 1 f.extension _ lower w.mem f.apart_size) f.size_field

  -- A field of four bytes that the first two stores leave alone.
  four_lem :
      (p v : ℕ)
      → AreDisjoint 8 f.extension 4 p
      → AreDisjoint 1 (filter + sys.stack_size) 4 p
      → read_le 4 p w.mem ≡ some v
      → read_le 4 p with_size ≡ some v
  four_lem p v a b e =
      rw
        (
          read_le-store_disjoint 1 4 (filter + sys.stack_size) p ((f.size + 1) % 2 ^ 8) with_lower
              b,
          read_le-store_disjoint 8 4 f.extension p lower w.mem a,
        )
        e

  pub configure_lem :
      (kernel : Kernel)
      → configure sys kernel filter lower w ≡ ok tt (record w { mem = configured })
  unfolding configure
  configure_lem kernel =
      let w1 = record w { mem = with_lower } in
      let w2 = record w { mem = with_size } in
      let w3 = record w { mem = with_merged } in
      let field = four_lem (filter + sys.flags) f.flags f.apart_flags f.size_flags f.flags_field in
      let again = read_le-store 4 (filter + sys.flags) merged with_size merged_bound in
      rw (
        load_lem 8 (filter + sys.device_extension) f.extension w f.extension_field,
        ◌>>=◌,
        store_at_lem 8 f.extension lower w f.extension_mapped,
        ◌>>=◌,
        load_lem 1 (lower + sys.stack_size) f.size w1 size_lem,
        ◌>>=◌,
        debug_assert-debug (not (f.size == 0x7F)) w1
            (λ debug. rw (==_false f.size 0x7F (f.room debug)) refl),
        ◌>>=◌,
        store_at_lem 1 (filter + sys.stack_size) _ w1
            (IsMapped-store 8 1 f.extension (filter + sys.stack_size) lower w.mem f.size_mapped),
        ◌>>=◌,
        load_lem 4 (lower + sys.flags) f.lower_flags w2 (
            four_lem (lower + sys.flags) f.lower_flags f.apart_lower_flags f.size_lower_flags
              f.lower_flags_field),
        ◌>>=◌,
        load_lem 4 (filter + sys.flags) f.flags w2 field,
        ◌>>=◌,
        store_at_lem 4 (filter + sys.flags) _ w2 (f.flags, field),
        ◌>>=◌,
        load_lem 4 (filter + sys.flags) merged w3 again,
        ◌>>=◌,
        store_at_lem 4 (filter + sys.flags) _ w3 (merged, again),
      )

  -- In the new memory the lower device can be found, and the sizes and flags are right.
  pub record Attached (m : Memory) : Type 0 where
    pub lower_found : HasLower sys (record { raw = filter }) lower m
    pub size_after : read_le 1 (filter + sys.stack_size) m ≡ some ((f.size + 1) % 2 ^ 8)
    pub flags_after : read_le 4 (filter + sys.flags) m ≡ some final_flags

  final_bound : final_flags < 2 ^ 32
  final_bound =
      omega (arith, bit_and_le merged (2 ^ 32 - 1 - sys.do_device_initializing), merged_bound)

  -- What neither store of the flags touches.
  pub flags_apart :
      (n p : ℕ)
      → AreDisjoint 4 (filter + sys.flags) n p
      → read_le n p configured ≡ read_le n p with_size
  flags_apart n p a = rw (
    read_le-store_disjoint 4 n (filter + sys.flags) p final_flags with_merged a,
    read_le-store_disjoint 4 n (filter + sys.flags) p merged with_size a,
  )

  pub configured-Attached : Attached configured
  configured-Attached = record {
    lower_found = record {
      extension = f.extension;
      extension_field =
          rw
            (
              flags_apart 8 (filter + sys.device_extension) f.flags_extension,
              read_le-store_disjoint 1 8 (filter + sys.stack_size) (filter + sys.device_extension)
                  ((f.size + 1) % 2 ^ 8) with_lower f.size_extension,
              read_le-store_disjoint 8 8 f.extension (filter + sys.device_extension) lower w.mem
                  f.apart_extension,
            )
            f.extension_field;
      lower_field =
          rw
            (
              flags_apart 8 f.extension (elim f.apart_flags [ inl a ↦ inr a | inr b ↦ inl b ]),
              read_le-store_disjoint 1 8 (filter + sys.stack_size) f.extension
                  ((f.size + 1) % 2 ^ 8) with_lower f.apart_filter_size,
            )
            (read_le-store 8 f.extension lower w.mem f.lower_bound);
    };
    size_after =
        rw (flags_apart 1 (filter + sys.stack_size) f.flags_size) (
          read_le-store 1 (filter + sys.stack_size) ((f.size + 1) % 2 ^ 8) with_lower
            (omega arith));
    flags_after = read_le-store 4 (filter + sys.flags) final_flags with_merged final_bound;
  }
