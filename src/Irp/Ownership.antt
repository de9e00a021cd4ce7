-- ===== src/Irp/Ownership.antt =====
-- What the operations of an owned IRP do to the log of calls.
use wdk_safe.Base.{◌+◌, ◌≡◌, ◌∷◌, ◌&&◌, ◌==◌, if◌then◌else◌, arith}
use wdk_safe.Status
use wdk_safe.Status.{NtStatus}
use wdk_safe.Memory.{Ptr, Memory, null}
use wdk_safe.Machine.{World, ok, panic, ◌>>=◌, completed, completions, forwards}
use wdk_safe.Machine.Resources.{SameResources}
use wdk_safe.Irp
use wdk_safe.Irp.{IrpCompleter, Irp, owned, from_raw, complete, drop}
use wdk_safe.Irp.Completers.{IsCompleter}

-- Between the two worlds the IRP was completed once, no other IRP was, none was forwarded, and no
-- device, link or attachment came or went.
pub record CompletedOnce (irp : Ptr) (w w' : World) : Type 0 where
  pub completed_once :
      (p : Ptr) → completions p w'.effects ≡ (if irp == p then 1 else 0) + completions p w.effects
  pub no_forward : (p : Ptr) → forwards p w'.effects ≡ forwards p w.effects
  pub same_resources : SameResources w w'

module _ {c : IrpCompleter} {Ready : Ptr → Memory → Type 0} (contract : IsCompleter c Ready) where
  -- If the completer keeps its contract and the memory is ready for it, then `complete` returns the
  -- status that it was given, after the completer was called exactly once, for this IRP.
  pub complete-CompletedOnce :
      (irp : Irp) (status : NtStatus) (w : World)
      → Ready (Irp.as_raw_ptr irp) w.mem
      → (w' : World) × (complete c irp status w ≡ ok status w')
        × CompletedOnce (Irp.as_raw_ptr irp) w w'
  unfolding complete
  complete-CompletedOnce irp status w ready =
      let raw = Irp.as_raw_ptr irp in
      let logged = record w { effects = completed raw (Status.into_raw status) ∷ w.effects } in
      let (w', e, after) = contract.runs raw (Status.into_raw status) logged ready in
      (
        w',
        rw (e, ◌>>=◌),
        record {
          completed_once = after.same_completions;
          no_forward = after.same_forwards;
          same_resources = after.same_resources;
        },
      )

-- Wrapping a raw pointer calls nothing; a null pointer is caught in a debug build.
pub from_raw_lem :
    (p : Ptr) (w : World)
    → from_raw p w ≡ (if w.debug_assertions && (p == null) then panic else ok (owned p) w)
unfolding from_raw
from_raw_lem p w = ground arith
