-- ===== src/UnitTests.antt =====
-- The unit tests that stand beside the code of crates/wdk-safe/src, and the integration tests of
-- define_ioctl!, as programs of the model.
mod Harness
mod Error
mod Ioctl
mod Device
mod Irp
mod Driver
mod Request
mod DefineIoctl
