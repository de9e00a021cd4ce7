-- ===== src/Wdm/Life.antt =====
-- What the lives of the example drivers share: the requests that the I/O manager sends, and the
-- account of their IRPs.
use wdk_safe.Base.{
  ◌∙◌, ap, ℕ, ◌+◌, ◌≡◌, ◌≢◌, true, some, List, [], ◌∷◌, ℤ, eq_ℤ, ◌==◌, if◌then◌else◌, arith,
}
use wdk_safe.Status.{NtStatus}
use wdk_safe.Status.Codes
use wdk_safe.Memory.{Ptr, Memory, null, read_le}
use wdk_safe.Machine.{World, Outcome, ok, completions, forwards}
use wdk_safe.Machine.Resources.{devices, links}
use wdk_safe.Wdm.Objects.{DriverObject}
use wdk_safe.Machine.Access.{load_lem}
use wdk_safe.Device.{Device}
use wdk_safe.Request.{IoRequest}
use wdk_safe.Driver.{WdmDriver}
use wdk_safe.Driver.Defaults.{Major, method}
use wdk_safe.Driver.Disposal.{Disposes, DisposedOnce}
use wdk_safe.Thunk.{dispatch_fn}
use wdk_safe.Thunk.Dispatch.{request_of, device_of}
use wdk_safe.Thunk.Disposal.{dispatch_fn-DisposedOnce}
use wdk_safe.Wdm.{WdkSys, irp_current_stack}
use wdk_safe.Wdm.Loading.{SameRequests, Loaded}

abbrev pub occurrences : Ptr → List Ptr → ℕ
occurrences p [] = 0
occurrences p (i ∷ is) = (if i == p then 1 else 0) + occurrences p is

-- Since the first world, every IRP was disposed of as often as it was served.
abbrev pub Accounts : World → List Ptr → World → Type 0
Accounts w₀ irps w =
    (p : Ptr)
    → completions p w.effects + forwards p w.effects
      ≡ occurrences p irps + (completions p w₀.effects + forwards p w₀.effects)

pub Accounts-same :
    (w₀ : World) (irps : List Ptr) (w w' : World)
    → SameRequests w w'
    → Accounts w₀ irps w
    → Accounts w₀ irps w'
Accounts-same w₀ irps w w' same h p = omega (arith, (same p).0, (same p).1, h p)

pub Accounts-disposed :
    (w₀ : World) (irps : List Ptr) (irp : Ptr) (w w' : World)
    → DisposedOnce irp w w'
    → Accounts w₀ irps w
    → Accounts w₀ (irp ∷ irps) w'
Accounts-disposed w₀ irps irp w w' once h p = omega (arith, once.disposed p, h p)

module _ (sys : WdkSys) where
  -- `STATUS_SUCCESS` of wdk-sys is the success of the crate.
  abbrev pub SuccessAgrees : Type 0
  SuccessAgrees = eq_ℤ Codes.success.value sys.status_success ≡ true

  -- The driver has one device and one link besides those of the first world.
  abbrev pub Serves : List ℕ → World → List Ptr → DriverObject → World → Type 0
  Serves link w₀ irps d w =
      (d.device_object ≢ null)
      × (devices sys.status_success w.effects
          ≡ d.device_object ∷ devices sys.status_success w₀.effects)
      × (links sys.status_success w.effects ≡ link ∷ links sys.status_success w₀.effects)
      × Accounts w₀ irps w

  pub Serves-Loaded :
      (link : List ℕ) (w₀ : World) (irps : List Ptr) (w : World)
      (run : Outcome (NtStatus × DriverObject)) (d : DriverObject) (device : Ptr) (m : Memory)
      → (loaded : Loaded sys.status_success w run d device link m) → device ≢ null
      → devices sys.status_success w.effects ≡ devices sys.status_success w₀.effects
      → links sys.status_success w.effects ≡ links sys.status_success w₀.effects
      → Accounts w₀ irps w
      → Serves link w₀ irps (record d { device_object = device }) loaded.world
  Serves-Loaded link w₀ irps w run d device m loaded there devs lks counts = (
    there,
    loaded.new_device ∙ ap (λ (l : List Ptr). device ∷ l) devs,
    loaded.new_link ∙ ap (λ (l : List (List ℕ)). link ∷ l) lks,
    Accounts-same w₀ irps w loaded.world loaded.same_requests counts,
  )

  pub Serves-disposed :
      (link : List ℕ) (w₀ : World) (irps : List Ptr) (d : DriverObject) (irp : Ptr) (w w' : World)
      → DisposedOnce irp w w'
      → Serves link w₀ irps d w
      → Serves link w₀ (irp ∷ irps) d w'
  Serves-disposed link w₀ irps d irp w w' once (there, devs, lks, counts) =
      let (same_devices, same_links, same_attachments) = once.same_resources sys.status_success in
      (there, same_devices ∙ devs, same_links ∙ lks, Accounts-disposed w₀ irps irp w w' once counts)

  module _ (Ready : Major → Device → IoRequest → World → Type 0) where
    -- A request that reaches a dispatch routine.
    pub record IsRequest (major : Major) (device irp stack : Ptr) (w : World) : Type 0 where
      pub device_there : device ≢ null
      pub irp_there : irp ≢ null
      pub stack_there : stack ≢ null
      pub leads : read_le 8 (irp + sys.current_stack_location) w.mem ≡ some stack
      pub ready : Ready major (device_of device) (request_of irp stack) w

    pub served :
        (driver : WdmDriver)
        → Disposes driver Ready
        → (major : Major) (device irp stack : Ptr) (w : World) → IsRequest major device irp stack w
        → (status : ℤ) × (w' : World) × (dispatch_fn
              (method driver major)
              (irp_current_stack sys)
              device
              irp
              w
            ≡ ok status w')
          × DisposedOnce irp w w'
    unfolding irp_current_stack
    served driver contract major device irp stack w request =
        dispatch_fn-DisposedOnce driver Ready contract major (irp_current_stack sys) device irp
          stack w (load_lem 8 (irp + sys.current_stack_location) stack w request.leads)
          request.device_there request.irp_there request.stack_there request.ready
