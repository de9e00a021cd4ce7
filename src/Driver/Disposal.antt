-- ===== src/Driver/Disposal.antt =====
-- The contract of a driver: each of its methods disposes of the IRP that it is given, by completing
-- it or by passing it on, exactly once, and touches no other.
use wdk_safe.Base.{◌+◌, ◌≡◌, ◌==◌, if◌then◌else◌, arith}
use wdk_safe.Status.{NtStatus}
use wdk_safe.Memory.{Ptr, Memory}
use wdk_safe.Machine.{World, ok, completions, forwards}
use wdk_safe.Machine.Resources.{SameResources}
use wdk_safe.Device.{Device}
use wdk_safe.Irp
use wdk_safe.Irp.{IrpCompleter}
use wdk_safe.Irp.Completers.{IsCompleter}
use wdk_safe.Irp.Ownership.{CompletedOnce}
use wdk_safe.Request.{IoRequest}
use wdk_safe.Driver.{Handler, WdmDriver, defaults}
use wdk_safe.Driver.Defaults.{Major, method, documented, defaults-CompletesWith}

-- Between the two worlds the IRP was completed or passed on, once in all, no other IRP was, and no
-- device, link or attachment came or went.
pub record DisposedOnce (irp : Ptr) (w w' : World) : Type 0 where
  pub disposed :
      (p : Ptr)
      → completions p w'.effects + forwards p w'.effects
        ≡ (if irp == p then 1 else 0) + (completions p w.effects + forwards p w.effects)
  pub same_resources : SameResources w w'

pub CompletedOnce-DisposedOnce :
    (irp : Ptr) (w w' : World) → CompletedOnce irp w w' → DisposedOnce irp w w'
CompletedOnce-DisposedOnce irp w w' once = record {
  disposed = λ p. omega (arith, once.completed_once p, once.no_forward p);
  same_resources = once.same_resources;
}

-- The run of a handler returned, after one disposal.
abbrev pub Ends : Handler → Device → IoRequest → World → Type 0
Ends handler device request w =
    (status : NtStatus) × (w' : World) × (handler device request w ≡ ok status w')
    × DisposedOnce (Irp.as_raw_ptr request.irp) w w'

-- The contract, for requests that are ready.
pub record Disposes (d : WdmDriver) (Ready : Major → Device → IoRequest → World → Type 0)
    : Type 0 where
  pub ends :
      (major : Major) (device : Device) (request : IoRequest) (w : World)
      → Ready major device request w
      → Ends (method d major) device request w

-- A driver that overrides nothing keeps the contract.
pub defaults-Disposes :
    {c : IrpCompleter} {Ready : Ptr → Memory → Type 0}
    → IsCompleter c Ready
    → Disposes (defaults c) (λ major device request w. Ready (Irp.as_raw_ptr request.irp) w.mem)
defaults-Disposes contract = record {
  ends = λ major device request w ready.
      let (w', run, once) = defaults-CompletesWith contract major device request w ready in
      (
        documented major,
        w',
        run,
        CompletedOnce-DisposedOnce (Irp.as_raw_ptr request.irp) w w' once,
      );
}
