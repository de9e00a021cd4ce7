-- ===== src/Echo/Load.antt =====
-- `driver_entry_inner` of the echo driver.
use Prim.Native.Nat.{bit_and, bit_or}
use wdk_safe.Base.Bits.{bit_and_le}
use wdk_safe.Memory.Laws.{read_le-store}
use wdk_safe.Base.{
  ◌==◌, if◌then◌else◌, Option, get_elem?, ℕ, ◌+◌, ◌-◌, ◌^◌, ◌<◌, ◌≡◌, ◌⊎◌, inl, inr, refl, true,
  false, some, List, ◌∷◌, eq_ℤ, arith, Bool-cases, ==_refl,
}
use wdk_safe.Status.{from_raw}
use wdk_safe.Status.Codes
use wdk_safe.Memory.{Memory, store, read_le}
use wdk_safe.Machine.{
  World, ok, Kernel, Effect, Reply, dbg_print, returned, io_create_device, io_delete_device,
  io_create_symbolic_link, ◌>>=◌,
}
use wdk_safe.Machine.Access.{load_lem, store_at_lem}
use wdk_safe.Wdm.{WdkSys}
use wdk_safe.Wdm.Completion.{PrintsOnly, answered, logged, debug_print_lem}
use wdk_safe.Wdm.Objects.{
  DriverObject, Routine, dispatch_create, dispatch_close, dispatch_device_control,
}
use wdk_safe.Wdm.Slots.{set_describes, same_describes, Registered}
use wdk_safe.Wdm.Unicode.{unicode_from_slice_lem, described, units}
use wdk_safe.Wdm.Loading.{Refused, Loaded}
use wdk_safe.Echo.{driver_entry_inner, create_and_link, registered, start_device, dev_buf, dos_buf}

-- `\Device\WdkSafeEcho` and `\DosDevices\WdkSafeEcho`.
abbrev pub dev_name : List ℕ
dev_name = units (described dev_buf)

abbrev pub dos_name : List ℕ
dos_name = units (described dos_buf)

-- What the driver puts into slot j, where there was `old`.
abbrev pub slot_after : WdkSys → ℕ → Option Routine → Option Routine
slot_after sys j old =
    if sys.irp_mj_device_control == j
    then some dispatch_device_control
    else if sys.irp_mj_close == j
    then some dispatch_close
    else if sys.irp_mj_create == j
    then some dispatch_create
    else old

pub registered-Registered :
    (sys : WdkSys) (kernel : Kernel) (d : DriverObject)
    → Registered (slot_after sys) d (registered sys kernel d)
registered-Registered sys kernel d = record {
  slots = λ j.
      set_describes _ d.major_function _ sys.irp_mj_device_control j dispatch_device_control (
        set_describes _ d.major_function _ sys.irp_mj_close j dispatch_close (
          set_describes _ d.major_function _ sys.irp_mj_create j dispatch_create
            (same_describes (get_elem? d.major_function j))));
  unload = refl;
  same_device = refl;
}

module _ (sys : WdkSys) (kernel : Kernel) (prints : PrintsOnly sys kernel) (d : DriverObject)
    (w : World) where
  abbrev pub named : Effect
  named =
      io_create_device d.address
        (record { extension_size = 0; name = some dev_name; device_type = sys.file_device_unknown })

  abbrev pub start : World
  start = logged sys kernel (dbg_print "[ioctl-echo] DriverEntry -- loading\n") w

  -- The answer of `IoCreateDevice`, and the world after it.
  abbrev pub created : Reply
  created = kernel named start

  abbrev pub after_create : World
  after_create = record w {
    mem = created.mem;
    effects = returned created.status created.pointer ∷ named ∷ start.effects;
  }

  -- The answer of `IoCreateSymbolicLink`, and the world after it.
  abbrev pub linked : Reply
  linked = kernel (io_create_symbolic_link dos_name dev_name) after_create

  abbrev pub after_link : World
  after_link = record w {
    mem = linked.mem;
    effects =
        returned linked.status linked.pointer
        ∷ io_create_symbolic_link dos_name dev_name
        ∷ after_create.effects;
  }

  begins :
      driver_entry_inner sys kernel d w
      ≡ create_and_link sys kernel (described dev_buf) (described dos_buf) d start
  unfolding driver_entry_inner
  begins = rw (
    debug_print_lem sys kernel "[ioctl-echo] DriverEntry -- loading\n" w prints,
    ◌>>=◌,
    unicode_from_slice_lem dev_buf start (ground arith) (ground arith),
    ◌>>=◌,
    unicode_from_slice_lem dos_buf start (ground arith) (ground arith),
    ◌>>=◌,
  )

  pub create_fails :
      eq_ℤ created.status sys.status_success ≡ false
      → driver_entry_inner sys kernel d w ≡ ok (from_raw created.status, d) after_create
  unfolding create_and_link
  create_fails e = rw (begins, ◌>>=◌, e)

  pub link_fails :
      eq_ℤ created.status sys.status_success ≡ true
      → eq_ℤ linked.status sys.status_success ≡ false
      → driver_entry_inner sys kernel d w
        ≡ ok
            (from_raw linked.status, d)
            (answered sys kernel (io_delete_device created.pointer) after_link)
  unfolding create_and_link
  link_fails e f = rw (begins, ◌>>=◌, e, ◌>>=◌, f)

  -- The flags without `DO_DEVICE_INITIALIZING`, and with `DO_BUFFERED_IO`.
  abbrev pub cleared : ℕ → ℕ
  cleared flags = bit_and flags (2 ^ 32 - 1 - sys.do_device_initializing)

  abbrev pub after_clear : ℕ → World
  after_clear flags = record after_link {
    mem = store 4 (created.pointer + sys.flags) (cleared flags) linked.mem;
  }

  abbrev pub started : ℕ → Memory
  started flags =
      store 4 (created.pointer + sys.flags) (bit_or (cleared flags) sys.do_buffered_io)
        (after_clear flags).mem

  cleared_lem :
      (flags : ℕ)
      → flags < 256 ^ 4
      → read_le 4 (created.pointer + sys.flags) (after_clear flags).mem ≡ some (cleared flags)
  cleared_lem flags lt =
      read_le-store 4 (created.pointer + sys.flags) (cleared flags) linked.mem
        (omega (arith, bit_and_le flags (2 ^ 32 - 1 - sys.do_device_initializing)))

  pub loads :
      (flags : ℕ)
      → eq_ℤ created.status sys.status_success ≡ true
      → eq_ℤ linked.status sys.status_success ≡ true
      → read_le 4 (created.pointer + sys.flags) linked.mem ≡ some flags
      → flags < 256 ^ 4
      → driver_entry_inner sys kernel d w
        ≡ ok
            (Codes.success, registered sys kernel d)
            (logged sys kernel
              (dbg_print "[ioctl-echo] DriverEntry -- ready\n")
              (record after_link { mem = started flags }))
  unfolding create_and_link start_device
  loads flags e f g lt = rw (
    begins,
    ◌>>=◌,
    e,
    ◌>>=◌,
    f,
    load_lem 4 (created.pointer + sys.flags) flags after_link g,
    ◌>>=◌,
    store_at_lem 4 (created.pointer + sys.flags) _ after_link (flags, g),
    ◌>>=◌,
    load_lem 4 (created.pointer + sys.flags) (cleared flags) (after_clear flags)
        (cleared_lem flags lt),
    ◌>>=◌,
    store_at_lem 4 (created.pointer + sys.flags) _ (after_clear flags)
        (cleared flags, cleared_lem flags lt),
    ◌>>=◌,
    debug_print_lem sys kernel "[ioctl-echo] DriverEntry -- ready\n"
        (record after_link { mem = started flags }) prints,
  )

  create-Refused :
      eq_ℤ created.status sys.status_success ≡ false
      → Refused sys.status_success w (driver_entry_inner sys kernel d w) d
  create-Refused e = record {
    status = from_raw created.status;
    world = after_create;
    ends = create_fails e;
    not_success = e;
    same_devices = rw e refl;
    same_links = refl;
    same_requests = λ p. (refl, refl);
  }

  link-Refused :
      eq_ℤ created.status sys.status_success ≡ true
      → eq_ℤ linked.status sys.status_success ≡ false
      → Refused sys.status_success w (driver_entry_inner sys kernel d w) d
  link-Refused e f = record {
    status = from_raw linked.status;
    world = answered sys kernel (io_delete_device created.pointer) after_link;
    ends = link_fails e f;
    not_success = f;
    same_devices = rw (e, ==_refl created.pointer) refl;
    same_links = rw f refl;
    same_requests = λ p. (refl, refl);
  }

  -- If both calls succeed, the created device has flags, as 32 bits.
  abbrev pub HasFlags : Type 0
  HasFlags =
      eq_ℤ created.status sys.status_success ≡ true
      → eq_ℤ linked.status sys.status_success ≡ true
      → (flags : ℕ) × (read_le 4 (created.pointer + sys.flags) linked.mem ≡ some flags)
        × (flags < 256 ^ 4)

  -- The load succeeded.
  pub record Success : Type 0 where
    pub flags : ℕ
    pub object : DriverObject
    pub created_ok : eq_ℤ created.status sys.status_success ≡ true
    pub linked_ok : eq_ℤ linked.status sys.status_success ≡ true
    pub flags_field : read_le 4 (created.pointer + sys.flags) linked.mem ≡ some flags
    pub table : Registered (slot_after sys) d object
    pub loaded :
        Loaded sys.status_success w
          (driver_entry_inner sys kernel d w)
          object
          created.pointer
          dos_name
          (started flags)

  -- Loading is all or nothing, whatever the kernel answers: either it fails with a status that is
  -- not success and the devices, the links and the driver object are as before, or both calls of the
  -- kernel succeeded and so does it, and there is one new device with one new link, the device has
  -- `DO_DEVICE_INITIALIZING` cleared and `DO_BUFFERED_IO` set, `DriverUnload` is set, the slots for
  -- create, close and device control have their routines and every other slot has what it had.
  -- Conditions: printing changes no memory, and if both calls succeed, the flags of the created
  -- device are there, as 32 bits.
  pub driver_entry_inner_starts :
      HasFlags → Refused sys.status_success w (driver_entry_inner sys kernel d w) d ⊎ Success
  driver_entry_inner_starts has_flags = elim (Bool-cases (eq_ℤ created.status sys.status_success)) [
    | inr e ↦ inl (create-Refused e)
    | inl e ↦ elim (Bool-cases (eq_ℤ linked.status sys.status_success)) [
      | inr f ↦ inl (link-Refused e f)
      | inl f ↦
          let (flags, g, lt) = has_flags e f in
          inr (record {
            flags = flags;
            object = registered sys kernel d;
            created_ok = e;
            linked_ok = f;
            flags_field = g;
            table = registered-Registered sys kernel d;
            loaded = record {
              world =
                  logged sys kernel (dbg_print "[ioctl-echo] DriverEntry -- ready\n")
                    (record after_link { mem = started flags });
              ends = loads flags e f g lt;
              new_device = rw e refl;
              new_link = rw f refl;
              new_memory = refl;
              same_requests = λ p. (refl, refl);
            };
          })
    ]
  ]
