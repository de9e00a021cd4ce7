-- ===== src/HidFilter/Slots.antt =====
-- The dispatch table that `driver_entry_inner` of the filter leaves.
use wdk_safe.Base.{
  ℕ, zero, suc, ◌+◌, ◌≡◌, refl, sym, ==_refl, Bool, true, false, ◌&&◌, ◌||◌, Option, none, some,
  List, ◌==◌, ltb, leb, if◌then◌else◌, get_elem?, arith, Bool-cases, Option-cases, ==_iff, inl, inr,
  get_elem?-set, map_some,
}
use wdk_safe.Wdm.{WdkSys}
use wdk_safe.Wdm.Objects.{
  Routine, dispatch_create, dispatch_close, dispatch_read, dispatch_power, dispatch_pnp,
  dispatch_passthrough,
}
use wdk_safe.Machine.{Kernel}
use wdk_safe.Wdm.Slots.{set_describes}
use wdk_safe.HidFilter.{fill_slot, fill_slots, registered}

-- A slot that had `old` in it, when empty slots get the passthrough routine.
abbrev pub filled : Option Routine → Option Routine
filled none = some dispatch_passthrough
filled (some r) = some r

fill_slot_lem :
    (slots : List (Option Routine)) (i j : ℕ)
    → get_elem? (fill_slot slots i (get_elem? slots i)) j
      ≡ (if i == j then map_some filled (get_elem? slots j) else get_elem? slots j)
fill_slot_lem slots i j = elim (Bool-cases (i == j)) [
  | inr ne ↦ rw ne (elim (Option-cases (get_elem? slots i)) [
    | inl e ↦ rw e refl
    | inr (none, e) ↦ rw (e, get_elem?-set slots i j (some dispatch_passthrough), ne) refl
    | inr (some r, e) ↦ rw e refl
  ])
  | inl eq ↦
      let same = (==_iff i j).0 eq in
      rw (eq, sym same)
        (elim (Option-cases (get_elem? slots i)) [
          | inl e ↦ rw (e, e) refl
          | inr (none, e) ↦
              rw (e, get_elem?-set slots i i (some dispatch_passthrough), ==_refl i, e) refl
          | inr (some r, e) ↦ rw (e, e) refl
        ])
]

-- Is the slot one of n from `i` on?
abbrev within : ℕ → ℕ → ℕ → Bool
within n i j = leb i j && ltb j (i + n)

within-suc : (n i j : ℕ) → within (suc n) i j ≡ ((i == j) || within n (suc i) j)
within-suc n i j = ground arith

within-apart : (n i j : ℕ) → (i == j) ≡ true → within n (suc i) j ≡ false
within-apart n i j e = ground arith

fill_slots_lem :
    (n i j : ℕ) (slots : List (Option Routine))
    → get_elem? (fill_slots n i slots) j
      ≡ (if within n i j then map_some filled (get_elem? slots j) else get_elem? slots j)
fill_slots_lem zero i j slots = let outside : within 0 i j ≡ false = ground arith in rw outside refl
fill_slots_lem (suc n) i j slots =
    let next = fill_slot slots i (get_elem? slots i) in
    elim (Bool-cases (i == j)) [
      | inl e ↦
          rw
            (
              fill_slots_lem n (suc i) j next,
              within-suc n i j,
              e,
              within-apart n i j e,
              fill_slot_lem slots i j,
              e,
            )
            refl
      | inr e ↦
          rw (fill_slots_lem n (suc i) j next, within-suc n i j, e, fill_slot_lem slots i j, e) refl
    ]

-- What `driver_entry_inner` puts into slot j, where there was `old`.
abbrev pub slot_after : WdkSys → ℕ → Option Routine → Option Routine
slot_after sys j old =
    if sys.irp_mj_pnp == j
    then some dispatch_pnp
    else if sys.irp_mj_power == j
    then some dispatch_power
    else if sys.irp_mj_internal_device_control == j
    then some dispatch_passthrough
    else if sys.irp_mj_read == j
    then some dispatch_read
    else if sys.irp_mj_close == j
    then some dispatch_close
    else if sys.irp_mj_create == j
    then some dispatch_create
    else if leb j sys.irp_mj_maximum_function
    then filled old
    else old

filled_describes :
    (c : Bool) (o : Option (Option Routine))
    → (if c then map_some filled o else o) ≡ map_some (λ a. if c then filled a else a) o
filled_describes true none = refl
filled_describes true (some a) = refl
filled_describes false none = refl
filled_describes false (some a) = refl

within-all : (n j : ℕ) → within (n + 1) 0 j ≡ leb j n
within-all n j = ground arith

-- The table after `driver_entry_inner`: the six registered slots have their routines, every other
-- slot up to `IRP_MJ_MAXIMUM_FUNCTION` has the passthrough routine if it was empty, and keeps what
-- it had if not.
pub registered-slot_after :
    (sys : WdkSys) (kernel : Kernel) (slots : List (Option Routine)) (j : ℕ)
    → get_elem? (registered sys kernel slots) j ≡ map_some (slot_after sys j) (get_elem? slots j)
registered-slot_after sys kernel slots j =
    let base : get_elem? (fill_slots (sys.irp_mj_maximum_function + 1) 0 slots) j
        ≡ map_some (λ a. if leb j sys.irp_mj_maximum_function then filled a else a)
            (get_elem? slots j) =
      rw
        (
          fill_slots_lem (sys.irp_mj_maximum_function + 1) 0 j slots,
          within-all sys.irp_mj_maximum_function j,
        )
        (filled_describes (leb j sys.irp_mj_maximum_function) (get_elem? slots j)) in
    set_describes _ slots _ sys.irp_mj_pnp j dispatch_pnp (
      set_describes _ slots _ sys.irp_mj_power j dispatch_power (
        set_describes _ slots _ sys.irp_mj_internal_device_control j dispatch_passthrough (
          set_describes _ slots _ sys.irp_mj_read j dispatch_read (
            set_describes _ slots _ sys.irp_mj_close j dispatch_close
              (set_describes _ slots _ sys.irp_mj_create j dispatch_create base)))))
