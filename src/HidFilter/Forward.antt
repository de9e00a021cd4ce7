-- ===== src/HidFilter/Forward.antt =====
-- The requests that the filter hands to the device below.
use Prim.Native.String.{String}
use wdk_safe.Base.{ℕ, ◌+◌, ◌≡◌, refl, ◌∷◌, some, ◌==◌, if◌then◌else◌}
use wdk_safe.Status.{NtStatus, from_raw}
use wdk_safe.Memory.{Ptr, Memory, read_le}
use wdk_safe.Machine.{
  World, Outcome, ok, Kernel, Effect, io_call_driver, po_call_driver, po_start_next_power_irp,
  returned, dbg_print, completions, forwards, ◌>>=◌, ◌>>◌,
}
use wdk_safe.Machine.Access.{load_lem}
use wdk_safe.Machine.Resources.{SameResources}
use wdk_safe.Device
use wdk_safe.Device.{Device}
use wdk_safe.Request
use wdk_safe.Request.{IoRequest}
use wdk_safe.Driver.{defaults}
use wdk_safe.Driver.Defaults.{
  Major, create, close, read, write, device_control, internal_device_control, power, pnp, cleanup,
  query_information, set_information, method,
}
use wdk_safe.Wdm
use wdk_safe.Wdm.{WdkSys}
use wdk_safe.Wdm.Completion.{PrintsOnly, logged, debug_print_lem}
use wdk_safe.HidFilter.{
  get_lower_device, forward_irp, driver, on_create, on_close, on_internal_device_control,
  on_cleanup, on_read, on_power, on_pnp,
}
use wdk_safe.HidFilter.Skip.{HasNext, skipped, irp_skip_current_stack_lem}

-- Between the two worlds the IRP was passed on once, no other IRP was, none was completed, and no
-- device, link or attachment came or went.
pub record ForwardedOnce (irp : Ptr) (w w' : World) : Type 0 where
  pub forwarded_once :
      (p : Ptr) → forwards p w'.effects ≡ (if irp == p then 1 else 0) + forwards p w.effects
  pub no_completion : (p : Ptr) → completions p w'.effects ≡ completions p w.effects
  pub same_resources : SameResources w w'

-- The filter's extension, with the device below.
pub record HasLower (sys : WdkSys) (device : Device) (lower : Ptr) (m : Memory) : Type 0 where
  pub extension : Ptr
  pub extension_field :
      read_le 8 (Device.as_raw_ptr device + sys.device_extension) m ≡ some extension
  pub lower_field : read_le 8 extension m ≡ some lower

-- The methods that the filter overrides.
pub data Filtered : Major → Type 0 where
  filtered_create : Filtered create
  filtered_close : Filtered close
  filtered_read : Filtered read
  filtered_internal : Filtered internal_device_control
  filtered_power : Filtered power
  filtered_pnp : Filtered pnp
  filtered_cleanup : Filtered cleanup

-- The call that passes the IRP on: power IRPs have a function of their own.
abbrev pub pass : Major → Ptr → Ptr → Effect
pass power lower irp = po_call_driver lower irp
pass other lower irp = io_call_driver lower irp

module _ (sys : WdkSys) (kernel : Kernel) (device : Device) (r : IoRequest)
    (location stack lower : ℕ) where
  abbrev pub irp : Ptr
  irp = Request.into_raw_irp r

  pub get_lower_device_lem :
      (w : World) → HasLower sys device lower w.mem → get_lower_device sys device w ≡ ok lower w
  unfolding get_lower_device
  get_lower_device_lem w h = rw (
    load_lem 8 _ h.extension w h.extension_field,
    ◌>>=◌,
    load_lem 8 h.extension lower w h.lower_field,
  )

  -- The run passed the IRP on with the given call, its current stack location skipped, and returned
  -- what the lower driver returned.
  pub record Passes (e : Effect) (w : World) (run : Outcome NtStatus) : Type 0 where
    -- the world in which the lower driver is called
    pub before : World
    pub before_mem : before.mem ≡ skipped sys irp location stack w.mem
    -- and the one in which the run ends
    pub after : World
    pub ends : run ≡ ok (from_raw (kernel e before).status) after
    pub after_mem : after.mem ≡ (kernel e before).mem
    pub once : ForwardedOnce irp w after

  forward_irp_lem :
      (w : World)
      → HasNext sys irp location stack w.mem
      → Passes (io_call_driver lower irp) w (forward_irp sys kernel r lower w)
  unfolding forward_irp
  forward_irp_lem w h =
      let before = record w { mem = skipped sys irp location stack w.mem } in
      let reply = kernel (io_call_driver lower irp) before in
      record {
        before = before;
        before_mem = refl;
        after = record w {
          mem = reply.mem;
          effects = returned reply.status reply.pointer ∷ io_call_driver lower irp ∷ w.effects;
        };
        ends = rw (irp_skip_current_stack_lem sys irp location stack w h, ◌>>=◌) refl;
        after_mem = refl;
        once = record {
          forwarded_once = λ p. refl;
          no_completion = λ p. refl;
          same_resources = λ s. (refl, refl, refl);
        };
      }

  module _ (prints : PrintsOnly sys kernel)
      (starts : (p : Ptr) (w : World) → (kernel (po_start_next_power_irp p) w).mem ≡ w.mem)
      (w : World) (next : HasNext sys irp location stack w.mem)
      (below : HasLower sys device lower w.mem) where
    -- Reads the lower device, and passes the IRP on.
    quiet :
        Passes
          (io_call_driver lower irp)
          w
          ((get_lower_device sys device >>= λ l. forward_irp sys kernel r l) w)
    quiet = rw (get_lower_device_lem w below, ◌>>=◌) (forward_irp_lem w next)

    printed :
        (text : String)
        → Passes (io_call_driver lower irp) w (
            (Wdm.debug_print sys kernel text
                >> (get_lower_device sys device >>= λ l. forward_irp sys kernel r l))
              w)
    printed text =
        let w1 = logged sys kernel (dbg_print text) w in
        let passes = forward_irp_lem w1 next in
        rw (debug_print_lem sys kernel text w prints, ◌>>=◌, get_lower_device_lem w1 below, ◌>>=◌)
          (record {
            before = passes.before;
            before_mem = passes.before_mem;
            after = passes.after;
            ends = passes.ends;
            after_mem = passes.after_mem;
            once = record {
              forwarded_once = passes.once.forwarded_once;
              no_completion = passes.once.no_completion;
              same_resources = passes.once.same_resources;
            };
          })

    powered : Passes (po_call_driver lower irp) w (on_power sys kernel device r w)
    unfolding on_power
    powered =
        let w1 = logged sys kernel (po_start_next_power_irp irp) w in
        let before = record w1 { mem = skipped sys irp location stack w.mem } in
        let reply = kernel (po_call_driver lower irp) before in
        record {
          before = before;
          before_mem = refl;
          after = record w1 {
            mem = reply.mem;
            effects = returned reply.status reply.pointer ∷ po_call_driver lower irp ∷ w1.effects;
          };
          ends = rw (
            get_lower_device_lem w below,
            ◌>>=◌,
            starts irp w,
            irp_skip_current_stack_lem sys irp location stack w1 next,
            ◌>>=◌,
          );
          after_mem = refl;
          once = record {
            forwarded_once = λ p. refl;
            no_completion = λ p. refl;
            same_resources = λ s. (refl, refl, refl);
          };
        }

    -- Every method that the filter overrides passes the IRP to the device below exactly once, with
    -- the current stack location skipped, completes no IRP, and returns the status of the call.
    -- Conditions: the IRP has a stack location left, the extension leads to the lower device, and
    -- printing and `PoStartNextPowerIrp` change no memory.
    pub filtered-Passes :
        (major : Major)
        → Filtered major
        → Passes (pass major lower irp) w (method (driver sys kernel) major device r w)
    unfolding driver defaults on_create on_close on_internal_device_control on_cleanup on_read
        on_pnp
    filtered-Passes create f = printed "[hid-filter] IRP_MJ_CREATE\n"
    filtered-Passes close f = printed "[hid-filter] IRP_MJ_CLOSE\n"
    filtered-Passes read f = printed "[hid-filter] IRP_MJ_READ -- forwarding\n"
    filtered-Passes internal_device_control f = quiet
    filtered-Passes power f = powered
    filtered-Passes pnp f = quiet
    filtered-Passes cleanup f = quiet
    filtered-Passes write f = elim f [ ]
    filtered-Passes device_control f = elim f [ ]
    filtered-Passes query_information f = elim f [ ]
    filtered-Passes set_information f = elim f [ ]
