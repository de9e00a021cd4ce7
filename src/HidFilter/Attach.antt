-- ===== src/HidFilter/Attach.antt =====
-- `add_device_inner` of the filter.
use wdk_safe.Base.{
  ◌≡◌, ◌≢◌, refl, ◌⊎◌, inl, inr, true, false, none, ◌∷◌, ◌==◌, eq_ℤ, arith, Bool-cases, ==_refl,
  ==_false, ==_iff,
}
use wdk_safe.Status.{NtStatus, from_raw}
use wdk_safe.Status.Codes
use wdk_safe.Memory.{Ptr, Memory}
use wdk_safe.Machine.{
  World, Outcome, ok, Kernel, Effect, Reply, returned, dbg_print, io_create_device,
  io_delete_device, io_attach_device, ◌>>=◌,
}
use wdk_safe.Wdm.{WdkSys}
use wdk_safe.Wdm.Completion.{PrintsOnly, answered, logged, debug_print_lem}
use wdk_safe.Wdm.Objects.{DriverObject}
use wdk_safe.Machine.Resources.{devices, links, attachments}
use wdk_safe.Wdm.Loading.{SameRequests}
use wdk_safe.HidFilter.{attach, add_device_inner, size_of_extension}
use wdk_safe.HidFilter.Configure.{Fields, Attached, configured, configure_lem, configured-Attached}

module _ (sys : WdkSys) (kernel : Kernel) (prints : PrintsOnly sys kernel) (d : DriverObject)
    (pdo : Ptr) (w : World) where
  abbrev pub unnamed : Effect
  unnamed = io_create_device d.address (record {
    extension_size = size_of_extension;
    name = none;
    device_type = sys.file_device_keyboard;
  })

  abbrev pub created : Reply
  created = kernel unnamed w

  abbrev pub after_create : World
  after_create = record w {
    mem = created.mem;
    effects = returned created.status created.pointer ∷ unnamed ∷ w.effects;
  }

  abbrev pub attached : Reply
  attached = kernel (io_attach_device created.pointer pdo) after_create

  abbrev pub after_attach : World
  after_attach = record w {
    mem = attached.mem;
    effects =
        returned attached.status attached.pointer
        ∷ io_attach_device created.pointer pdo
        ∷ after_create.effects;
  }

  -- The answer of `IoDeleteDevice` after a failed attachment.
  abbrev pub deleted : Reply
  deleted = kernel (io_delete_device created.pointer) after_attach

  -- No device and no attachment is left behind, and memory is what the kernel made of it.
  pub record Failed (run : Outcome NtStatus) (status : NtStatus) (m : Memory) : Type 0 where
    pub world : World
    pub ends : run ≡ ok status world
    pub same_devices :
        devices sys.status_success world.effects ≡ devices sys.status_success w.effects
    pub same_links : links sys.status_success world.effects ≡ links sys.status_success w.effects
    pub same_attachments : attachments world.effects ≡ attachments w.effects
    pub new_memory : world.mem ≡ m
    pub same_requests : SameRequests w world

  -- There is a new device, set up above the lower one.
  pub record Succeeded (run : Outcome NtStatus)
      (f : Fields sys w.debug_assertions created.pointer attached.pointer attached.mem)
      : Type 0 where
    pub world : World
    pub ends : run ≡ ok Codes.success world
    pub new_device :
        devices sys.status_success world.effects
        ≡ created.pointer ∷ devices sys.status_success w.effects
    pub same_links : links sys.status_success world.effects ≡ links sys.status_success w.effects
    pub new_attachment : attachments world.effects ≡ attached.pointer ∷ attachments w.effects
    pub new_memory : world.mem ≡ configured sys created.pointer attached.pointer after_attach f
    pub same_requests : SameRequests w world
    pub set_up : Attached sys created.pointer attached.pointer after_attach f world.mem

  pub attach_lem :
      eq_ℤ created.status sys.status_success ≡ true
      → add_device_inner sys kernel d pdo w ≡ attach sys kernel created.pointer pdo after_create
  unfolding add_device_inner
  attach_lem e = rw e refl

  -- If `IoCreateDevice` fails, so does `add_device_inner`, with its status.
  pub create_fails :
      eq_ℤ created.status sys.status_success ≡ false
      → Failed (add_device_inner sys kernel d pdo w) (from_raw created.status) created.mem
  unfolding add_device_inner
  create_fails e = record {
    world = after_create;
    ends = rw e refl;
    same_devices = rw e refl;
    same_links = refl;
    same_attachments = refl;
    new_memory = refl;
    same_requests = λ p. (refl, refl);
  }

  pub attach_fails :
      eq_ℤ created.status sys.status_success ≡ true
      → attached.pointer ≡ 0
      → Failed (add_device_inner sys kernel d pdo w) Codes.unsuccessful deleted.mem
  unfolding attach
  attach_fails e null = record {
    world = answered sys kernel (io_delete_device created.pointer) after_attach;
    ends = rw (attach_lem e, null) refl;
    same_devices = rw (e, ==_refl created.pointer) refl;
    same_links = refl;
    same_attachments = rw null refl;
    new_memory = refl;
    same_requests = λ p. (refl, refl);
  }

  pub succeeds :
      (f : Fields sys w.debug_assertions created.pointer attached.pointer attached.mem)
      → eq_ℤ created.status sys.status_success ≡ true
      → attached.pointer ≢ 0
      → Succeeded (add_device_inner sys kernel d pdo w) f
  unfolding attach
  succeeds f e ne =
      let ready = record after_attach {
        mem = configured sys created.pointer attached.pointer after_attach f;
      } in
      record {
        world = logged sys kernel (dbg_print "[hid-filter] AddDevice -- filter attached\n") ready;
        ends = rw (
          attach_lem e,
          ==_false attached.pointer 0 ne,
          configure_lem sys created.pointer attached.pointer after_attach f kernel,
          ◌>>=◌,
          debug_print_lem sys kernel "[hid-filter] AddDevice -- filter attached\n" ready prints,
        );
        new_device = rw e refl;
        same_links = refl;
        new_attachment = rw (==_false attached.pointer 0 ne) refl;
        new_memory = refl;
        same_requests = λ p. (refl, refl);
        set_up = configured-Attached sys created.pointer attached.pointer after_attach f;
      }

  -- `add_device_inner` is all or nothing, whatever the kernel answers: it fails with the status of
  -- `IoCreateDevice`, or with UNSUCCESSFUL if the attachment fails, and leaves no device and no
  -- attachment behind, or it succeeds with one new device, attached to the lower one, whose
  -- extension leads to the lower device, whose stack size is one more (as an `i8`) and whose flags
  -- have the buffering flags of the device below and not `DO_DEVICE_INITIALIZING`. A failure leaves
  -- memory as the kernel's calls did; on every way the links are as before, and no IRP is completed
  -- or passed on. Conditions: printing changes no memory, and if `IoCreateDevice` and
  -- `IoAttachDeviceToDeviceStack` succeed, the fields of the two devices are there and apart, the
  -- flags have 32 bits and the address of the lower device 64, and, in a debug build, the stack
  -- size of the lower device is not 127, for which the addition would panic.
  pub add_device_inner_all_or_nothing :
      (fields : eq_ℤ created.status sys.status_success ≡ true
        → attached.pointer ≢ 0
        → Fields sys w.debug_assertions created.pointer attached.pointer attached.mem)
      → ((eq_ℤ created.status sys.status_success ≡ false)
          × Failed (add_device_inner sys kernel d pdo w) (from_raw created.status) created.mem)
        ⊎ (((attached.pointer ≡ 0)
              × Failed (add_device_inner sys kernel d pdo w) Codes.unsuccessful deleted.mem)
            ⊎ ((e : eq_ℤ created.status sys.status_success ≡ true) × (ne : attached.pointer ≢ 0)
                × Succeeded (add_device_inner sys kernel d pdo w) (fields e ne)))
  add_device_inner_all_or_nothing fields =
      elim (Bool-cases (eq_ℤ created.status sys.status_success)) [
        | inr e ↦ inl (e, create_fails e)
        | inl e ↦ elim (Bool-cases (attached.pointer == 0)) [
          | inl z ↦
              let null = (==_iff attached.pointer 0).0 z in inr (inl (null, attach_fails e null))
          | inr nz ↦
              let ne : attached.pointer ≢ 0 = (λ z. ground arith) in
              inr (inr (e, ne, succeeds (fields e ne) e ne))
        ]
      ]
