-- ===== src/HidFilter/Skip.antt =====
-- What `irp_skip_current_stack` does to an IRP.
use wdk_safe.Base.{
  ℕ, ◌+◌, ◌%◌, ◌^◌, ◌<◌, ◌≡◌, ◌≢◌, refl, not, some, ◌==◌, arith, inl, inr, ==_false,
}
use wdk_safe.Memory.{Ptr, Memory, AreDisjoint, read_le, store}
use wdk_safe.Memory.Laws.{read_le-store, read_le-store_disjoint}
use wdk_safe.Machine.{World, ok, ◌>>=◌}
use wdk_safe.Machine.Access.{load_lem, store_at_lem}
use wdk_safe.Wdm.{WdkSys, irp_current_stack}
use wdk_safe.Machine.Access.{debug_assert_lem}
use wdk_safe.HidFilter.{irp_skip_current_stack}

-- An IRP with a stack location left.
pub record HasNext (sys : WdkSys) (irp : Ptr) (location stack : ℕ) (m : Memory) : Type 0 where
  pub location_field : read_le 1 (irp + sys.current_location) m ≡ some location
  pub stack_field : read_le 8 (irp + sys.current_stack_location) m ≡ some stack
  pub room : location ≢ 0x7F
  pub apart : AreDisjoint 1 (irp + sys.current_location) 8 (irp + sys.current_stack_location)

module _ (sys : WdkSys) (irp : Ptr) (location stack : ℕ) where
  -- Memory when the current stack location is the next one.
  abbrev pub skipped : Memory → Memory
  skipped m =
      store 8 (irp + sys.current_stack_location) (stack + sys.stack_location_size)
        (store 1 (irp + sys.current_location) ((location + 1) % 2 ^ 8) m)

  pub irp_skip_current_stack_lem :
      (w : World)
      → HasNext sys irp location stack w.mem
      → irp_skip_current_stack sys irp w ≡ ok tt (record w { mem = skipped w.mem })
  unfolding irp_skip_current_stack
  irp_skip_current_stack_lem w h =
      let cl = irp + sys.current_location in
      let csl = irp + sys.current_stack_location in
      let w1 = record w { mem = store 1 cl ((location + 1) % 2 ^ 8) w.mem } in
      let field : read_le 8 csl w1.mem ≡ some stack =
        rw (read_le-store_disjoint 1 8 cl csl ((location + 1) % 2 ^ 8) w.mem h.apart)
          h.stack_field in
      rw (
        load_lem 1 cl location w h.location_field,
        ◌>>=◌,
        debug_assert_lem (not (location == 0x7F)) w (rw (==_false location 0x7F h.room) refl),
        ◌>>=◌,
        store_at_lem 1 cl _ w (location, h.location_field),
        ◌>>=◌,
        load_lem 8 csl stack w1 field,
        ◌>>=◌,
        store_at_lem 8 csl (stack + sys.stack_location_size) w1 (stack, field),
      )

  -- Skipping leaves the next stack location as the current one, and counts it. Conditions: the two
  -- fields are there and apart, the location is not 0x7F, and the new address fits 64 bits.
  pub irp_current_stack-skip :
      (w : World)
      → HasNext sys irp location stack w.mem
      → stack + sys.stack_location_size < 2 ^ 64
      → (w' : World) × (irp_skip_current_stack sys irp w ≡ ok tt w')
        × (irp_current_stack sys irp w' ≡ ok (stack + sys.stack_location_size) w')
        × (read_le 1 (irp + sys.current_location) w'.mem ≡ some ((location + 1) % 2 ^ 8))
  unfolding irp_current_stack
  irp_current_stack-skip w h lt =
      let cl = irp + sys.current_location in
      let csl = irp + sys.current_stack_location in
      let next = stack + sys.stack_location_size in
      let m1 = store 1 cl ((location + 1) % 2 ^ 8) w.mem in
      let w' = record w { mem = skipped w.mem } in
      (
        w',
        irp_skip_current_stack_lem w h,
        load_lem 8 csl next w' (read_le-store 8 csl next m1 lt),
        rw
            (read_le-store_disjoint 8 1 csl cl next m1
              (elim h.apart [ inl a ↦ inr a | inr b ↦ inl b ]))
            (read_le-store 1 cl ((location + 1) % 2 ^ 8) w.mem (omega arith)),
      )
