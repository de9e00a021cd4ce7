-- ===== src/Lib.antt =====
-- Verification of wdk-safe, safe wrappers for Windows kernel drivers in Rust.
--
-- The crate crates/wdk-safe wraps the raw pointers that the I/O manager hands to a driver. A
-- generated dispatch routine (src/thunk.rs) makes an `IoRequest` (src/request.rs) of the IRP and its
-- current stack location and a `Device` (src/device.rs) of the device object, and calls a method of
-- the driver's `WdmDriver` (src/driver.rs). The method reads the parameters of the request, and ends
-- the IRP by completing it through an `IrpCompleter` or by handing its pointer to another driver
-- (src/irp.rs). Statuses are `NtStatus` (src/error.rs) and control codes `IoControlCode`
-- (src/ioctl.rs), declared by the macro `define_ioctl!` (crates/wdk-safe-macros). Three drivers under
-- examples/ use all of this.
--
-- The modules and the code that they model:
--   Base        Boolean tests, lists, `i32` values (ℤ with bounds), laws of the bit operations, and
--               hexadecimal texts
--   Status      src/error.rs: the constants in Status/Codes, the predicates, the formats
--   Ioctl       src/ioctl.rs: packing, the fields, the classes of codes, the formats, the offsets
--   Macros      crates/wdk-safe-macros/src/lib.rs: parser, resolution, alias names, expansion
--               (Macros/Order: the settings as a bag, a quotient that forgets their order)
--   Memory      memory as bytes at addresses, with the loads and stores of the raw accesses
--   Machine     the world (memory, log of calls, build mode), the monad `Cmd` of code that returns,
--               panics or faults, and the calls of the kernel's functions; Machine/Resources reads the
--               devices and links from a log
--   Irp         src/irp.rs: `Irp`, the completers, and in Irp/Protocol the uses of `Irp` values as a
--               step relation
--   Device      src/device.rs
--   Request     src/request.rs
--   Driver      src/driver.rs: the trait as a record, with its defaults; Driver/Disposal is the contract
--               of a driver, which Thunk/Disposal uses and each driver's Contract module fills
--   Thunk       src/thunk.rs: `dispatch_fn!`
--   Wdm         what the example drivers share: `KernelCompleter`, `irp_current_stack`, the constants
--               and layouts of wdk-sys, `UNICODE_STRING`s and the driver object; Wdm/Slots says which
--               routines a dispatch table has; Wdm/Lifetime is the life of a driver with one device as
--               a step relation
--   Echo        examples/ioctl-echo/ioctl-echo/src/lib.rs
--   EchoTest    examples/ioctl-echo/ioctl-echo-test/src/main.rs, the program that talks to the echo
--               driver; EchoTest/Delivery puts the two together
--   NullDevice  examples/null-device/null-device/src/lib.rs; NullDevice/Reload is about the loads that
--               follow an unload
--   HidFilter   examples/hid-filter/hid-filter/src/lib.rs; HidFilter/Stack is a stack of filters above
--               another driver, HidFilter/Lifetime the life of the filter as a step relation
--   UnitTests   the unit tests in the files of crates/wdk-safe/src, as programs of the model, and in
--               UnitTests/DefineIoctl tests/integration/src/ioctl_tests.rs
--   Tests       the theorems at concrete inputs, and tests against values in the sources
--
-- How state is modelled. A function that touches memory or calls out is a `Cmd`, a function from a
-- world to an outcome: `debug_assert!` panics in a debug build only, an access to memory that is
-- not there faults, as does an unaligned `write`. Every call that leaves the crate is logged, and a
-- parameter, the `Kernel`, answers it with new memory and a result: theorems hold for every kernel
-- that meets the named conditions, such as `PrintsOnly` (printing changes no memory) and
-- `RefusesTaken` (no second symbolic link of one name). Layouts and constants of wdk-sys are the
-- record `WdkSys`. Ownership of an `Irp`, which the compiler checks, is the protocol of
-- Irp/Protocol. A driver object is a record whose dispatch table is a list with a slot for every
-- major function code; the constant indices of the source lie within it.
--
-- The lives of the drivers are step relations on loads, requests and unloads: Wdm/Lifetime for the
-- two drivers with one device, HidFilter/Lifetime for the filter, whose devices are a list in memory
-- that the kernel keeps. What the kernel does with that list, and that other code leaves it alone,
-- are conditions of the steps.
--
-- Integers are native numbers with their bounds written out: casts to `u16`, `u32` and `i32` are
-- remainders, and the additions to the `i8` fields of an IRP and a device wrap in a release build.
-- Pointers and `usize` have eight bytes. The only loop that can fail to end is that of the filter's
-- `driver_unload`, which follows pointers: it runs on fuel, and one turn per device and one more are
-- shown to be enough.
--
-- The test program runs in a monad of its own, which can exit. Win32 is the record `Win32`, with a
-- state; the I/O manager between the program and the driver is a named condition, `Delivers`, which
-- states the documented handling of a buffered request. A call from one driver to the next is the
-- condition `CallsRoutine`. `u32::from_str_radix` and the formats of the standard library are in
-- Base/Radix and Base/Hex.
--
-- Not modelled: the re-exports of crates/wdk-safe/src/lib.rs, build scripts,
-- crates/wdk-safe/tests/macros.rs (a copy of a part of the integration tests), the unit test of a
-- hash (the hasher is the standard library's), the stubs for floating-point symbols, the spans and
-- doc strings of the macro, identifiers with letters beyond ASCII, and the timing of interrupts
-- and of other processors.
pub mod Base
pub mod Status
pub mod Ioctl
pub mod Macros
pub mod Memory
pub mod Machine
pub mod Irp
pub mod Device
pub mod Request
pub mod Driver
pub mod Thunk
pub mod Wdm
pub mod Echo
pub mod EchoTest
pub mod NullDevice
pub mod HidFilter
mod Tests
pub mod UnitTests
