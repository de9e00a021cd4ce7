-- ===== src/NullDevice/Load.antt =====
-- `driver_entry_inner` of the null device.
use Prim.Native.Nat.{bit_and}
use wdk_safe.Base.{
  ◌==◌, if◌then◌else◌, Option, get_elem?, ℕ, ◌+◌, ◌-◌, ◌^◌, ◌≡◌, ◌⊎◌, inl, inr, refl, true, false,
  some, List, ◌∷◌, eq_ℤ, arith, Bool-cases, ==_refl,
}
use wdk_safe.Status.{from_raw}
use wdk_safe.Status.Codes
use wdk_safe.Memory.{Memory, store, read_le}
use wdk_safe.Machine.{
  World, ok, Kernel, Effect, Reply, dbg_print, returned, io_create_device, io_delete_device,
  io_create_symbolic_link, ◌>>=◌,
}
use wdk_safe.Machine.Access.{load_lem, store_at_lem}
use wdk_safe.Wdm.{WdkSys}
use wdk_safe.Wdm.Completion.{PrintsOnly, answered, logged, debug_print_lem}
use wdk_safe.Wdm.Objects.{
  DriverObject, Routine, dispatch_create, dispatch_close, dispatch_read, dispatch_write,
}
use wdk_safe.Wdm.Slots.{set_describes, same_describes, Registered}
use wdk_safe.Wdm.Unicode.{unicode_from_slice_lem, described, units}
use wdk_safe.Wdm.Loading.{Refused, Loaded}
use wdk_safe.NullDevice.{
  driver_entry_inner, create_and_link, registered, clear_initializing, device_name_buf,
  dos_name_buf,
}

-- `\Device\WdkSafeNull` and `\DosDevices\WdkSafeNull`.
abbrev pub device_name : List ℕ
device_name = units (described device_name_buf)

abbrev pub dos_name : List ℕ
dos_name = units (described dos_name_buf)

-- What the driver puts into slot j, where there was `old`.
abbrev pub slot_after : WdkSys → ℕ → Option Routine → Option Routine
slot_after sys j old =
    if sys.irp_mj_write == j
    then some dispatch_write
    else if sys.irp_mj_read == j
    then some dispatch_read
    else if sys.irp_mj_close == j
    then some dispatch_close
    else if sys.irp_mj_create == j
    then some dispatch_create
    else old

pub registered-Registered :
    (sys : WdkSys) (kernel : Kernel) (d : DriverObject)
    → Registered (slot_after sys) d (registered sys kernel d)
registered-Registered sys kernel d = record {
  slots = λ j. set_describes _ d.major_function _ sys.irp_mj_write j dispatch_write (
      set_describes _ d.major_function _ sys.irp_mj_read j dispatch_read (
        set_describes _ d.major_function _ sys.irp_mj_close j dispatch_close (
          set_describes _ d.major_function _ sys.irp_mj_create j dispatch_create
            (same_describes (get_elem? d.major_function j)))));
  unload = refl;
  same_device = refl;
}

module _ (sys : WdkSys) (kernel : Kernel) (prints : PrintsOnly sys kernel) (d : DriverObject)
    (w : World) where
  abbrev pub named : Effect
  named =
      io_create_device d.address
        (record { extension_size = 0; name = some device_name; device_type = sys.file_device_null })

  abbrev pub start : World
  start = logged sys kernel (dbg_print "[null-device] DriverEntry -- loading\n") w

  -- The answer of `IoCreateDevice`, and the world after it.
  abbrev pub created : Reply
  created = kernel named start

  abbrev pub after_create : World
  after_create = record w {
    mem = created.mem;
    effects = returned created.status created.pointer ∷ named ∷ start.effects;
  }

  -- The answer of `IoCreateSymbolicLink`, and the world after it.
  abbrev pub linked : Reply
  linked = kernel (io_create_symbolic_link dos_name device_name) after_create

  abbrev pub after_link : World
  after_link = record w {
    mem = linked.mem;
    effects =
        returned linked.status linked.pointer
        ∷ io_create_symbolic_link dos_name device_name
        ∷ after_create.effects;
  }

  begins :
      driver_entry_inner sys kernel d w
      ≡ create_and_link sys kernel (described device_name_buf) (described dos_name_buf) d start
  unfolding driver_entry_inner
  begins = rw (
    debug_print_lem sys kernel "[null-device] DriverEntry -- loading\n" w prints,
    ◌>>=◌,
    unicode_from_slice_lem device_name_buf start (ground arith) (ground arith),
    ◌>>=◌,
    unicode_from_slice_lem dos_name_buf start (ground arith) (ground arith),
    ◌>>=◌,
  )

  pub create_fails :
      eq_ℤ created.status sys.status_success ≡ false
      → driver_entry_inner sys kernel d w
        ≡ ok
            (from_raw created.status, d)
            (logged sys kernel (dbg_print "[null-device] IoCreateDevice failed\n") after_create)
  unfolding create_and_link
  create_fails e = rw (
    begins,
    ◌>>=◌,
    e,
    debug_print_lem sys kernel "[null-device] IoCreateDevice failed\n" after_create prints,
  )

  pub link_fails :
      eq_ℤ created.status sys.status_success ≡ true
      → eq_ℤ linked.status sys.status_success ≡ false
      → driver_entry_inner sys kernel d w
        ≡ ok
            (from_raw linked.status, d)
            (answered sys kernel (io_delete_device created.pointer) after_link)
  unfolding create_and_link
  link_fails e f = rw (begins, ◌>>=◌, e, ◌>>=◌, f)

  abbrev pub cleared : ℕ → Memory
  cleared flags =
      store 4 (created.pointer + sys.flags)
        (bit_and flags (2 ^ 32 - 1 - sys.do_device_initializing)) linked.mem

  pub loads :
      (flags : ℕ)
      → eq_ℤ created.status sys.status_success ≡ true
      → eq_ℤ linked.status sys.status_success ≡ true
      → read_le 4 (created.pointer + sys.flags) linked.mem ≡ some flags
      → driver_entry_inner sys kernel d w
        ≡ ok
            (Codes.success, registered sys kernel d)
            (logged sys kernel
              (dbg_print "[null-device] DriverEntry -- ready\n")
              (record after_link { mem = cleared flags }))
  unfolding create_and_link clear_initializing
  loads flags e f g = rw (
    begins,
    ◌>>=◌,
    e,
    ◌>>=◌,
    f,
    load_lem 4 (created.pointer + sys.flags) flags after_link g,
    ◌>>=◌,
    store_at_lem 4 (created.pointer + sys.flags) _ after_link (flags, g),
    ◌>>=◌,
    debug_print_lem sys kernel "[null-device] DriverEntry -- ready\n"
        (record after_link { mem = cleared flags }) prints,
  )

  pub create-Refused :
      eq_ℤ created.status sys.status_success ≡ false
      → Refused sys.status_success w (driver_entry_inner sys kernel d w) d
  create-Refused e = record {
    status = from_raw created.status;
    world = logged sys kernel (dbg_print "[null-device] IoCreateDevice failed\n") after_create;
    ends = create_fails e;
    not_success = e;
    same_devices = rw e refl;
    same_links = refl;
    same_requests = λ p. (refl, refl);
  }

  pub link-Refused :
      eq_ℤ created.status sys.status_success ≡ true
      → eq_ℤ linked.status sys.status_success ≡ false
      → Refused sys.status_success w (driver_entry_inner sys kernel d w) d
  link-Refused e f = record {
    status = from_raw linked.status;
    world = answered sys kernel (io_delete_device created.pointer) after_link;
    ends = link_fails e f;
    not_success = f;
    same_devices = rw (e, ==_refl created.pointer) refl;
    same_links = rw f refl;
    same_requests = λ p. (refl, refl);
  }

  -- If both calls succeed, the created device has flags.
  abbrev pub HasFlags : Type 0
  HasFlags =
      eq_ℤ created.status sys.status_success ≡ true
      → eq_ℤ linked.status sys.status_success ≡ true
      → (flags : ℕ) × (read_le 4 (created.pointer + sys.flags) linked.mem ≡ some flags)

  -- The load succeeded.
  pub record Success : Type 0 where
    pub flags : ℕ
    pub object : DriverObject
    pub created_ok : eq_ℤ created.status sys.status_success ≡ true
    pub linked_ok : eq_ℤ linked.status sys.status_success ≡ true
    pub flags_field : read_le 4 (created.pointer + sys.flags) linked.mem ≡ some flags
    pub table : Registered (slot_after sys) d object
    pub loaded :
        Loaded sys.status_success w
          (driver_entry_inner sys kernel d w)
          object
          created.pointer
          dos_name
          (cleared flags)

  pub driver_entry_inner_all_or_nothing :
      HasFlags → Refused sys.status_success w (driver_entry_inner sys kernel d w) d ⊎ Success
  driver_entry_inner_all_or_nothing has_flags =
      elim (Bool-cases (eq_ℤ created.status sys.status_success)) [
        | inr e ↦ inl (create-Refused e)
        | inl e ↦ elim (Bool-cases (eq_ℤ linked.status sys.status_success)) [
          | inr f ↦ inl (link-Refused e f)
          | inl f ↦
              let (flags, g) = has_flags e f in
              inr (record {
                flags = flags;
                object = registered sys kernel d;
                created_ok = e;
                linked_ok = f;
                flags_field = g;
                table = registered-Registered sys kernel d;
                loaded = record {
                  world =
                      logged sys kernel (dbg_print "[null-device] DriverEntry -- ready\n")
                        (record after_link { mem = cleared flags });
                  ends = loads flags e f g;
                  new_device = rw e refl;
                  new_link = rw f refl;
                  new_memory = refl;
                  same_requests = λ p. (refl, refl);
                };
              })
        ]
      ]
