-- ===== src/Thunk/Disposal.antt =====
-- The dispatch routines of a driver that keeps its contract.
use wdk_safe.Base.{◌≡◌, ◌≢◌, ℤ}
use wdk_safe.Status
use wdk_safe.Memory.{Ptr, null}
use wdk_safe.Machine.{World, ok, Cmd}
use wdk_safe.Device.{Device}
use wdk_safe.Request.{IoRequest}
use wdk_safe.Driver.{WdmDriver}
use wdk_safe.Driver.Defaults.{Major, method}
use wdk_safe.Driver.Disposal.{Disposes, DisposedOnce}
use wdk_safe.Thunk.{dispatch_fn}
use wdk_safe.Thunk.Dispatch.{request_of, device_of, dispatch_fn-returns}

-- If a driver keeps the contract, then each of its dispatch routines, called with pointers that are
-- not null and a request that is ready, returns, after the IRP was completed or passed on exactly
-- once and no other IRP was. Condition: finding the stack location changes nothing.
pub dispatch_fn-DisposedOnce :
    (d : WdmDriver) (Ready : Major → Device → IoRequest → World → Type 0)
    → Disposes d Ready
    → (major : Major) (irp_stack : Ptr → Cmd Ptr) (device irp stack : Ptr) (w : World)
    → irp_stack irp w ≡ ok stack w
    → device ≢ null
    → irp ≢ null
    → stack ≢ null
    → Ready major (device_of device) (request_of irp stack) w
    → (status : ℤ) × (w' : World) × (dispatch_fn (method d major) irp_stack device irp w
        ≡ ok status w')
      × DisposedOnce irp w w'
dispatch_fn-DisposedOnce d Ready contract major irp_stack device irp stack w found hd hi hs ready =
    let (status, w', run, once) =
      contract.ends major (device_of device) (request_of irp stack) w ready in
    (
      Status.into_raw status,
      w',
      dispatch_fn-returns (method d major) irp_stack device irp stack w found status w' hd hi hs
          run,
      once,
    )
