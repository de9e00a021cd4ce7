-- ===== src/UnitTests/Irp.antt =====
-- The unit tests of crates/wdk-safe/src/irp.rs.
use wdk_safe.Base.{refl, ℕ, pos, eq_ℤ, as_i32, as_u32, Bool, false, not, List, [], ◌∷◌, ◌==◌}
use wdk_safe.Memory.{Ptr}
use wdk_safe.Machine.{Cmd, ok, pure, ◌>>=◌, ◌>>◌}
use wdk_safe.Status
use wdk_safe.Status.{NtStatus, is_success, is_error}
use wdk_safe.Status.Codes
use wdk_safe.Irp.{from_raw, into_raw, as_raw_ptr, complete}
use wdk_safe.Irp.Completers.{noop_completer, tracking_completer}
use wdk_safe.UnitTests.Harness.{assert, each, same_status, AllPass}

abbrev dummy : Ptr
dummy = 1

-- `TRACKING_COMPLETE_CALLED.store` and `load`
abbrev set_called : Bool → Cmd (Unit {0})
set_called b w = ok tt (record w { tracking_complete_called = b })

abbrev get_called : Cmd Bool
get_called w = ok w.tracking_complete_called w

abbrev complete_returns_success : Cmd (Unit {0})
complete_returns_success = do
  irp ← from_raw dummy
  status ← complete noop_completer irp Codes.success
  assert (is_success status)

abbrev complete_returns_error : Cmd (Unit {0})
complete_returns_error = do
  irp ← from_raw dummy
  status ← complete noop_completer irp Codes.unsuccessful
  assert (is_error status)

abbrev complete_propagates_exact_status : Cmd (Unit {0})
complete_propagates_exact_status = do
  irp ← from_raw dummy
  let custom = Status.from_raw (as_i32 0xC000_00BB)
  status ← complete noop_completer irp custom
  assert (eq_ℤ (Status.into_raw status) (Status.into_raw custom))

abbrev complete_invokes_completer : Cmd (Unit {0})
complete_invokes_completer = do
  set_called false
  irp ← from_raw dummy
  complete tracking_completer irp Codes.success
  called ← get_called
  assert called

abbrev complete_all_status_values : Cmd (Unit {0})
complete_all_status_values =
    each
      (Codes.success ∷ Codes.pending ∷ Codes.not_supported ∷ Codes.invalid_parameter
        ∷ Codes.unsuccessful ∷ [])
      (λ status. do
        irp ← from_raw dummy
        result ← complete noop_completer irp status
        assert (same_status result status))

abbrev into_raw_recovers_pointer : Cmd (Unit {0})
into_raw_recovers_pointer = do let ptr = dummy; irp ← from_raw ptr; assert (into_raw irp == ptr)

abbrev into_raw_does_not_call_completer : Cmd (Unit {0})
into_raw_does_not_call_completer = do
  set_called false
  irp ← from_raw dummy
  let raw = into_raw irp
  called ← get_called
  assert (not called)

abbrev as_raw_ptr_matches_input : Cmd (Unit {0})
as_raw_ptr_matches_input = do
  let ptr : ℕ = 0xDEAD_C0DE
  irp ← from_raw ptr
  let recovered = as_raw_ptr irp
  complete noop_completer irp Codes.success
  assert (recovered == ptr)

abbrev two_irps_stay_distinct : Cmd (Unit {0})
two_irps_stay_distinct = do
  let ptr_a : ℕ = 1
  let ptr_b : ℕ = 2
  irp_a ← from_raw ptr_a
  irp_b ← from_raw ptr_b
  assert (not (as_raw_ptr irp_a == as_raw_ptr irp_b))
  complete noop_completer irp_a Codes.success
  complete noop_completer irp_b Codes.success
  pure tt

abbrev noop_completer_is_safe_to_call : Cmd (Unit {0})
noop_completer_is_safe_to_call = noop_completer.complete dummy (pos 0)

abbrev tracking_completer_starts_false : Cmd (Unit {0})
tracking_completer_starts_false = do set_called false; called ← get_called; assert (not called)

abbrev tracking_completer_records_call : Cmd (Unit {0})
tracking_completer_records_call = do
  set_called false
  tracking_completer.complete dummy (pos 0)
  called ← get_called
  assert called

abbrev tests : List (Cmd (Unit {0}))
tests =
    complete_returns_success ∷ complete_returns_error ∷ complete_propagates_exact_status
    ∷ complete_invokes_completer ∷ complete_all_status_values ∷ into_raw_recovers_pointer
    ∷ into_raw_does_not_call_completer ∷ as_raw_ptr_matches_input ∷ two_irps_stay_distinct
    ∷ noop_completer_is_safe_to_call ∷ tracking_completer_starts_false
    ∷ tracking_completer_records_call ∷ []

tests-AllPass_irp : AllPass tests
unfolding as_i32 as_u32 is_success is_error from_raw complete noop_completer tracking_completer
tests-AllPass_irp = λ w. (refl, refl)
