-- ===== src/Irp/Completers.antt =====
-- crates/wdk-safe/src/irp.rs: the completers for tests, and what a completer must promise.
use wdk_safe.Base.{true, ◌≡◌, refl, ℤ}
use wdk_safe.Memory.{Ptr, Memory}
use wdk_safe.Machine.{World, ok, pure, completions, forwards}
use wdk_safe.Machine.Resources.{SameResources}
use wdk_safe.Irp.{IrpCompleter}

unfoldable pub noop_completer : IrpCompleter
noop_completer = record { complete = λ irp status. pure tt }

unfoldable pub tracking_completer : IrpCompleter
tracking_completer = record {
  complete = λ irp status w. ok tt (record w { tracking_complete_called = true });
}

-- The run of a completer ended well, and it neither completed nor forwarded an IRP through the
-- crate by itself, nor made or deleted a device or a link.
pub record Completed (w : World) (w' : World) : Type 0 where
  pub same_completions : (p : Ptr) → completions p w'.effects ≡ completions p w.effects
  pub same_forwards : (p : Ptr) → forwards p w'.effects ≡ forwards p w.effects
  pub same_resources : SameResources w w'

-- The contract of `IrpCompleter::complete`: where memory is ready for the IRP, it returns.
pub record IsCompleter (c : IrpCompleter) (Ready : Ptr → Memory → Type 0) : Type 0 where
  pub runs :
      (irp : Ptr) (status : ℤ) (w : World)
      → Ready irp w.mem
      → (w' : World) × (c.complete irp status w ≡ ok tt w') × Completed w w'

pub noop-IsCompleter : IsCompleter noop_completer (λ p m. Unit {0})
unfolding noop_completer
noop-IsCompleter = record {
  runs = λ irp status w r. (
    w,
    refl,
    record {
      same_completions = λ p. refl;
      same_forwards = λ p. refl;
      same_resources = λ s. (refl, refl, refl);
    },
  );
}

pub tracking-IsCompleter : IsCompleter tracking_completer (λ p m. Unit {0})
unfolding tracking_completer
tracking-IsCompleter = record {
  runs = λ irp status w r. (
    record w { tracking_complete_called = true },
    refl,
    record {
      same_completions = λ p. refl;
      same_forwards = λ p. refl;
      same_resources = λ s. (refl, refl, refl);
    },
  );
}
