-- ===== src/HidFilter/Lifetime/Adds.antt =====
-- What holds after a call of AddDevice.
use wdk_safe.Base.{
  ◌+◌, ◌≡◌, ◌≢◌, inl, inr, refl, sym, true, false, List, ◌∷◌, eq_ℤ, eq_ℤ_eq, ◌==◌, arith, ap, ◌∙◌,
  Bool-cases, ==_iff, as_i32,
}
use wdk_safe.Status
use wdk_safe.Status.{NtStatus}
use wdk_safe.Status.Codes
use wdk_safe.Memory.{Ptr, Memory, null}
use wdk_safe.Machine.{World, Outcome, Kernel, ◌>>=◌}
use wdk_safe.Wdm.{WdkSys}
use wdk_safe.Wdm.Completion.{PrintsOnly}
use wdk_safe.Wdm.Objects.{DriverObject}
use wdk_safe.Wdm.Life.{Accounts-same, SuccessAgrees}
use wdk_safe.HidFilter.{add_device, add_device_inner}
use wdk_safe.HidFilter.Attach.{
  created, attached, after_attach, create_fails, attach_fails, succeeds, Failed, Succeeded,
}
use wdk_safe.HidFilter.Unload.{Pair, LeavesOthers}
use wdk_safe.HidFilter.Added.{
  Kept, Kept-trans, Chain-Kept, deletion-Kept, configured-Outside, configured-Kept,
}
use wdk_safe.HidFilter.Lifetime.{serving, after_add, CanAdd, added, Inv}

module _ (sys : WdkSys) (kernel : Kernel) (prints : PrintsOnly sys kernel) where
  pub unsuccessful_lem :
      SuccessAgrees sys → eq_ℤ (Status.into_raw Codes.unsuccessful) sys.status_success ≡ false
  unfolding as_i32
  unsuccessful_lem agrees = rw (sym (eq_ℤ_eq Codes.success.value sys.status_success agrees)) refl

  fails-Inv :
      (w₀ : World) (irps : List Ptr) (d : DriverObject) (ps : List Pair) (w : World) (pdo : Ptr)
      (run : Outcome NtStatus) (status : NtStatus) (m : Memory)
      → (failed : Failed sys kernel prints d pdo w run status m) → Kept sys ps w.mem m
      → Inv sys kernel prints w₀ irps (serving d ps w)
      → Inv sys kernel prints w₀ irps (serving d ps failed.world)
  fails-Inv w₀ irps d ps w pdo run status m failed kept (chain, b) = (
    rw failed.new_memory (Chain-Kept sys ps d.device_object w.mem m kept chain),
    record {
      devs = failed.same_devices ∙ b.devs;
      lks = failed.same_links ∙ b.lks;
      below = failed.same_attachments ∙ b.below;
      counts = Accounts-same w₀ irps w failed.world failed.same_requests b.counts;
    },
  )

  succeeds-Inv :
      (w₀ : World) (irps : List Ptr) (d : DriverObject) (ps : List Pair) (w : World) (pdo : Ptr)
      → (can : CanAdd sys kernel prints d ps pdo w)
      → (e : eq_ℤ (created sys kernel prints d pdo w).status sys.status_success ≡ true)
      → (ne : (attached sys kernel prints d pdo w).pointer ≢ null)
      → (s : Succeeded sys kernel prints d pdo w
          (add_device_inner sys kernel d pdo w)
          (can.attaches e ne).0)
      → Inv sys kernel prints w₀ irps (serving d ps w)
      → Inv sys kernel prints w₀ irps (
          serving
            (record d { device_object = (added sys kernel prints d pdo w).filter })
            (added sys kernel prints d pdo w ∷ ps)
            s.world)
  succeeds-Inv w₀ irps d ps w pdo can e ne s (chain, b) =
      let p = added sys kernel prints d pdo w in
      let (there, fresh, attach_keeps) = can.creates e in
      let (f, first, outside, spared) = can.attaches e ne in
      let ready = after_attach sys kernel prints d pdo w in
      let kept : Kept sys ps w.mem s.world.mem = rw s.new_memory (
        Kept-trans sys ps w.mem (created sys kernel prints d pdo w).mem _ can.create_keeps (
          Kept-trans sys ps (created sys kernel prints d pdo w).mem ready.mem _ attach_keeps
            (configured-Kept sys p.filter p.lower ready f ps spared))) in
      (
        (
          refl,
          there,
          fresh,
          (
            d.device_object,
            record {
              extension = s.set_up.lower_found.extension;
              next_field = rw s.new_memory (
                  configured-Outside sys p.filter p.lower ready f 8 (p.filter + sys.next_device)
                    outside
                  ∙ first);
              extension_field = s.set_up.lower_found.extension_field;
              lower_field = s.set_up.lower_found.lower_field;
            },
            Chain-Kept sys ps d.device_object w.mem s.world.mem kept chain,
          ),
        ),
        record {
          devs = s.new_device ∙ ap (λ (l : List Ptr). p.filter ∷ l) b.devs;
          lks = s.same_links ∙ b.lks;
          below = s.new_attachment ∙ ap (λ (l : List Ptr). p.lower ∷ l) b.below;
          counts = Accounts-same w₀ irps w s.world s.same_requests b.counts;
        },
      )

  pub adds-Inv :
      SuccessAgrees sys
      → LeavesOthers sys kernel
      → (w₀ : World) (irps : List Ptr) (d : DriverObject) (ps : List Pair) (w : World) (pdo : Ptr)
      → CanAdd sys kernel prints d ps pdo w
      → Inv sys kernel prints w₀ irps (serving d ps w)
      → Inv sys kernel prints w₀ irps (
          after_add sys kernel prints d ps
            (added sys kernel prints d pdo w)
            (add_device sys kernel d pdo w))
  unfolding add_device
  adds-Inv agrees spares w₀ irps d ps w pdo can inv =
      let lower = (attached sys kernel prints d pdo w).pointer in
      elim (Bool-cases (eq_ℤ (created sys kernel prints d pdo w).status sys.status_success)) [
        | inr e ↦
            let failed = create_fails sys kernel prints d pdo w e in
            rw (failed.ends, ◌>>=◌, e)
              (fails-Inv w₀ irps d ps w pdo _ _ _ failed can.create_keeps inv)
        | inl e ↦ elim (Bool-cases (lower == 0)) [
          | inl z ↦
              let failed = attach_fails sys kernel prints d pdo w e ((==_iff lower 0).0 z) in
              let (there, fresh, attach_keeps) = can.creates e in
              let kept =
                Kept-trans sys ps w.mem (created sys kernel prints d pdo w).mem _ can.create_keeps (
                  Kept-trans sys ps (created sys kernel prints d pdo w).mem
                    (attached sys kernel prints d pdo w).mem _ attach_keeps
                    (deletion-Kept sys kernel spares ps (added sys kernel prints d pdo w).filter
                      (after_attach sys kernel prints d pdo w) fresh)) in
              rw (failed.ends, ◌>>=◌, unsuccessful_lem agrees)
                (fails-Inv w₀ irps d ps w pdo _ _ _ failed kept inv)
          | inr nz ↦
              let ne : lower ≢ null = λ z. ground arith in
              let s = succeeds sys kernel prints d pdo w (can.attaches e ne).0 e ne in
              rw (s.ends, ◌>>=◌, agrees) (succeeds-Inv w₀ irps d ps w pdo can e ne s inv)
        ]
      ]
