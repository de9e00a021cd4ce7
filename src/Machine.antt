-- ===== src/Machine.antt =====
-- The machine on which driver code runs: memory, the log of the calls that leave the crate, and
-- the monad of code that can panic or fault. The functions of `wdk_sys` are not of this repository:
-- a `Kernel` answers their calls.
pub mod Access
pub mod Resources
use Prim.Native.String.{String}
use wdk_safe.Base.{
  ℕ, ◌+◌, ◌%◌, Bool, true, false, not, ◌&&◌, Option, none, some, List, [], ◌∷◌, ℤ, ◌==◌,
  if◌then◌else◌,
}
use wdk_safe.Memory.{Ptr, Memory, read_le, write_le}

-- Arguments of `IoCreateDevice` that vary: the size of the device extension, the name (none for an
-- unnamed device) and the device type. A name is its UTF-16 units, without the terminator.
pub record DeviceRequest : Type 0 where
  pub extension_size : ℕ
  pub name : Option (List ℕ)
  pub device_type : ℕ

-- Calls that leave the code of this repository.
pub data Effect : Type 0 where
  -- `C::complete(irp, status)`, made by `Irp::complete`
  completed : Ptr → ℤ → Effect
  dbg_print : String → Effect
  -- the IRP and the priority boost
  io_complete_request : Ptr → ℕ → Effect
  -- the lower device and the IRP
  io_call_driver : Ptr → Ptr → Effect
  po_call_driver : Ptr → Ptr → Effect
  po_start_next_power_irp : Ptr → Effect
  io_create_device : Ptr → DeviceRequest → Effect
  io_delete_device : Ptr → Effect
  -- the link's name and the device's name
  io_create_symbolic_link : List ℕ → List ℕ → Effect
  io_delete_symbolic_link : List ℕ → Effect
  -- the source device and the target device
  io_attach_device : Ptr → Ptr → Effect
  io_detach_device : Ptr → Effect
  -- what the call logged before it returned: its status and its pointer
  returned : ℤ → Ptr → Effect

pub record World : Type 0 where
  pub mem : Memory
  -- the latest call first
  pub effects : List Effect
  -- `cfg(debug_assertions)`: fixed when the crate is built
  pub debug_assertions : Bool
  -- the static `TRACKING_COMPLETE_CALLED`
  pub tracking_complete_called : Bool

-- `panic` is a failed assertion or `expect`; `fault` is an access to memory that is not there.
pub data Outcome {ℓ} (A : Type ℓ) : Type ℓ where
  ok : A → World → Outcome A
  panic : Outcome A
  fault : Outcome A

abbrev pub Cmd {ℓ} : Type ℓ → Type ℓ
Cmd A = World → Outcome A

abbrev pub pure {ℓ} : {A : Type ℓ} → A → Cmd A
pure a w = ok a w

infixl 5 ◌>>=◌ ◌>>◌
abbrev pub ◌>>=◌ {ℓ κ} : {A : Type ℓ} {B : Type κ} → Cmd A → (A → Cmd B) → Cmd B
◌>>=◌ m f w = elim (m w) [ ok a w' ↦ f a w' | panic ↦ panic | fault ↦ fault ]

abbrev pub ◌>>◌ {ℓ κ} : {A : Type ℓ} {B : Type κ} → Cmd A → Cmd B → Cmd B
m >> k = m >>= λ _. k

abbrev pub debug_assert : Bool → Cmd (Unit {0})
debug_assert c w = elim (w.debug_assertions && not c) [ true ↦ panic | false ↦ ok tt w ]

abbrev pub log : Effect → Cmd (Unit {0})
log e w = ok tt (record w { effects = e ∷ w.effects })

-- `read_unaligned` and `write_unaligned` of an n-byte integer.
unfoldable pub load : ℕ → Ptr → Cmd ℕ
load n p w = elim (read_le n p w.mem) [ none ↦ fault | some v ↦ ok v w ]

unfoldable pub store_at : ℕ → Ptr → ℕ → Cmd (Unit {0})
store_at n p v w = elim (write_le n p v w.mem) [
  | none ↦ fault
  | some m ↦ ok tt (record w { mem = m })
]

-- `write`, which also wants the address aligned to the size.
unfoldable pub store_aligned : ℕ → Ptr → ℕ → Cmd (Unit {0})
store_aligned n p v w = elim (p % n == 0) [ true ↦ store_at n p v w | false ↦ fault ]

-- What a kernel function leaves behind: memory, and its result, an NTSTATUS or a pointer.
pub record Reply : Type 0 where
  pub mem : Memory
  pub status : ℤ
  pub pointer : Ptr

abbrev pub Kernel : Type 0
Kernel = Effect → World → Reply

-- A call of a kernel function whose result is used: logged with the result.
abbrev pub call : Kernel → Effect → Cmd Reply
call kernel e w =
    let reply = kernel e w in
    ok reply
      (record w { mem = reply.mem; effects = returned reply.status reply.pointer ∷ e ∷ w.effects })

-- A call of one that returns nothing, or nothing that is used.
abbrev pub notify : Kernel → Effect → Cmd (Unit {0})
notify kernel e w = ok tt (record w { mem = (kernel e w).mem; effects = e ∷ w.effects })

-- How often the log says that an IRP was completed, and how often it was passed to a driver.
abbrev pub completions : Ptr → List Effect → ℕ
completions irp [] = 0
completions irp (completed i s ∷ es) = (if i == irp then 1 else 0) + completions irp es
completions irp (_ ∷ es) = completions irp es

abbrev pub forwards : Ptr → List Effect → ℕ
forwards irp [] = 0
forwards irp (io_call_driver d i ∷ es) = (if i == irp then 1 else 0) + forwards irp es
forwards irp (po_call_driver d i ∷ es) = (if i == irp then 1 else 0) + forwards irp es
forwards irp (_ ∷ es) = forwards irp es
