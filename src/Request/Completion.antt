-- ===== src/Request/Completion.antt =====
-- Completing a request: the completer runs once, and what becomes of `IoStatus.Information`.
use wdk_safe.Base.{ℕ, ◌%◌, ◌^◌, ◌<◌, ◌≡◌, ◌∙◌, Option, some, ◌∷◌, ℤ}
use wdk_safe.Status
use wdk_safe.Status.{NtStatus}
use wdk_safe.Ioctl.{IoStackOffsets}
use wdk_safe.Memory.{Ptr, Memory, IsMapped, read_le, store}
use wdk_safe.Memory.Laws.{read_le-store}
use wdk_safe.Machine.Access.{store_aligned_lem}
use wdk_safe.Machine.{World, ok, ◌>>=◌, completed}
use wdk_safe.Irp
use wdk_safe.Irp.{IrpCompleter}
use wdk_safe.Irp.Completers.{IsCompleter}
use wdk_safe.Irp.Ownership.{CompletedOnce}
use wdk_safe.Request
use wdk_safe.Request.{IoRequest}

-- Between the worlds the IRP was completed once, and its information field then holds `information`.
pub record Finished (info irp : Ptr) (information : Option ℕ) (w w' : World) : Type 0 where
  pub once : CompletedOnce irp w w'
  pub holds : read_le 8 info w'.mem ≡ information

-- The completer leaves the eight bytes at `info` alone.
abbrev pub Keeps : IrpCompleter → Ptr → Type 0
Keeps c info =
    (irp : Ptr) (status : ℤ) (w w' : World)
    → c.complete irp status w ≡ ok tt w'
    → read_le 8 info w'.mem ≡ read_le 8 info w.mem

-- Setting the information field of an IRP whose field is there.
pub set_information_ptr_lem :
    (info bytes : ℕ) (w : World)
    → info % 8 ≡ 0
    → IsMapped 8 info w.mem
    → Irp.set_information_ptr info bytes w ≡ ok tt (record w { mem = store 8 info bytes w.mem })
unfolding Irp.set_information_ptr
set_information_ptr_lem = store_aligned_lem 8

module _ {c : IrpCompleter} {Ready : Ptr → Memory → Type 0} (contract : IsCompleter c Ready) where
  -- Completing an IRP with a completer that leaves the field alone leaves the field alone.
  irp_complete-Finished :
      (irp : Irp.Irp) (info : Ptr) (status : NtStatus) (w : World)
      → Keeps c info
      → Ready (Irp.as_raw_ptr irp) w.mem
      → (w' : World) × (Irp.complete c irp status w ≡ ok status w')
        × Finished info (Irp.as_raw_ptr irp) (read_le 8 info w.mem) w w'
  unfolding Irp.complete
  irp_complete-Finished irp info status w keeps ready =
      let raw = Irp.as_raw_ptr irp in
      let logged = record w { effects = completed raw (Status.into_raw status) ∷ w.effects } in
      let (w', e, after) = contract.runs raw (Status.into_raw status) logged ready in
      (
        w',
        rw (e, ◌>>=◌),
        record {
          once = record {
            completed_once = after.same_completions;
            no_forward = after.same_forwards;
            same_resources = after.same_resources;
          };
          holds = keeps raw (Status.into_raw status) logged w' e;
        },
      )

  -- `complete` and `complete_with_info` return the status and complete the IRP once. The first
  -- leaves `IoStatus.Information` as it was, whatever it held; the second sets it to the number of
  -- bytes. Conditions: the completer keeps its contract and leaves the field alone, memory is ready
  -- for it also with the field set, and the field is there and aligned.
  pub complete-information :
      (r : IoRequest) (offsets : IoStackOffsets) (status : NtStatus) (bytes : ℕ) (w : World)
      → let info = Request.io_status_information_ptr r offsets in
        let irp = Irp.as_raw_ptr r.irp in
        Keeps c info
        → Ready irp w.mem
        → Ready irp (store 8 info bytes w.mem)
        → info % 8 ≡ 0
        → IsMapped 8 info w.mem
        → bytes < 256 ^ 8
        → ((w' : World) × (Request.complete c r status w ≡ ok status w')
            × Finished info irp (read_le 8 info w.mem) w w')
          × ((w' : World) × (Request.complete_with_info c r status bytes info w ≡ ok status w')
              × Finished info irp (some bytes) w w')
  unfolding Request.complete Request.complete_with_info
  complete-information r offsets status bytes w keeps ready ready' aligned mapped small =
      let info = Request.io_status_information_ptr r offsets in
      let set = record w { mem = store 8 info bytes w.mem } in
      let (w', e, f) = irp_complete-Finished r.irp info status set keeps ready' in
      (
        irp_complete-Finished r.irp info status w keeps ready,
        (
          w',
          rw (set_information_ptr_lem info bytes w aligned mapped, ◌>>=◌) e,
          record {
            once = record {
              completed_once = f.once.completed_once;
              no_forward = f.once.no_forward;
              same_resources = f.once.same_resources;
            };
            holds = f.holds ∙ read_le-store 8 info bytes w.mem small;
          },
        ),
      )
