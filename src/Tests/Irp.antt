-- ===== src/Tests/Irp.antt =====
-- Tests of crates/wdk-safe/src/irp.rs, driver.rs and thunk.rs.
use wdk_safe.Base.{◌≡◌, refl, ◌&&◌, ◌||◌, true, false, [], ◌∷◌, arith, ◌==◌}
use wdk_safe.Status
use wdk_safe.Status.Codes
use wdk_safe.Memory.{null}
use wdk_safe.Machine.{World, ok, panic, pure, completed, ◌>>=◌}
use wdk_safe.Irp.{owned, complete, from_raw}
use wdk_safe.Irp.Completers.{noop_completer, noop-IsCompleter}
use wdk_safe.Irp.Ownership.{CompletedOnce}
use wdk_safe.Irp.Protocol.{State, Reach, here, next, wrap, finish, IsLinear, Reach-IsLinear}
use wdk_safe.Driver.{defaults}
use wdk_safe.Driver.Defaults.{Major, method}
use wdk_safe.Thunk.{dispatch_fn}
use wdk_safe.Thunk.Dispatch.{device_of, request_of, dispatch_fn_lem, dispatch_fn-defaults}
use wdk_safe.Tests.Fixtures.{fresh}

-- An IRP is wrapped, and completed.
abbrev start : State
start = record { world = fresh; live = []; given = [] }

abbrev held_one : State
held_one = record { world = fresh; live = owned 42 ∷ []; given = [] }

abbrev done : State
done = record {
  world = record fresh { effects = completed 42 (Status.into_raw Codes.success) ∷ [] };
  live = [];
  given = [];
}

run : Reach noop_completer (λ p m. Unit {0}) start done
unfolding from_raw complete noop_completer
run =
    next
      (next here (
        wrap 42
          (record {
            not_null = omega arith;
            not_held = refl;
            not_given = refl;
            not_completed = refl;
          })
          refl refl refl))
      (finish [] (owned 42) [] Codes.success refl tt refl refl refl)

start-IsLinear : IsLinear start
start-IsLinear p = omega arith

Reach-IsLinear_example : IsLinear done
Reach-IsLinear_example = Reach-IsLinear noop-IsCompleter start-IsLinear run

dispatch_fn_lem_example :
    dispatch_fn (method (defaults noop_completer) Major.read) (λ irp. pure 0x2000) 0x500 0 fresh
    ≡ elim (fresh.debug_assertions && (0 == null || (0x2000 == null || 0x500 == null))) [
      | true ↦ panic
      | false ↦
          (method (defaults noop_completer) Major.read (device_of 0x500) (request_of 0 0x2000)
              >>= λ s. pure (Status.into_raw s))
            fresh
    ]
dispatch_fn_lem_example =
    dispatch_fn_lem (method (defaults noop_completer) Major.read) (λ irp. pure 0x2000) 0x500 0
      0x2000 fresh refl

dispatch_fn-defaults_example :
    (w' : World) × (dispatch_fn
        (method (defaults noop_completer) Major.read)
        (λ irp. pure 0x2000)
        0x500
        0x1000
        fresh
      ≡ ok (Status.into_raw Codes.not_supported) w')
    × CompletedOnce 0x1000 fresh w'
dispatch_fn-defaults_example =
    dispatch_fn-defaults noop-IsCompleter Major.read (λ irp. pure 0x2000) 0x500 0x1000 0x2000 fresh
      refl (omega arith) (omega arith) (omega arith) tt
