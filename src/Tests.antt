-- ===== src/Tests.antt =====
-- The theorems at concrete inputs, and tests of the definitions against the values in the sources'
-- own tests.
pub mod Fixtures
mod Status
mod Ioctl
mod Macros
mod Irp
mod Request
mod Echo
mod EchoLoad
mod EchoLifetime
mod FilterLifetime
mod EchoTest
mod Dispatch
mod Disposal
mod NullDevice
mod NullLifetime
mod HidFilter
mod Stack
