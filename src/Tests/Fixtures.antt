-- ===== src/Tests/Fixtures.antt =====
-- Worlds, requests and a kernel for the tests.
use wdk_safe.Base.{refl, true, false, some, [], replicate, pos}
use wdk_safe.Memory.{Memory}
use wdk_safe.Machine.{World, Kernel}
use wdk_safe.Irp.{owned}
use wdk_safe.Request.{IoRequest}
use wdk_safe.Wdm.{WdkSys}
use wdk_safe.Wdm.Objects.{DriverObject, foreign}
use wdk_safe.Wdm.Completion.{PrintsOnly}

-- Zero at every address.
abbrev pub zeros : Memory
zeros p = some 0

abbrev pub world : Memory → World
world m = record {
  mem = m;
  effects = [];
  debug_assertions = true;
  tracking_complete_called = false;
}

abbrev pub fresh : World
fresh = world zeros

-- An IRP at 0x1000 with its stack location at 0x2000.
abbrev pub request : IoRequest
request = record { irp = owned 0x1000; stack = 0x2000 }

-- A kernel that changes no memory and succeeds, with device objects and lower devices at 0x9000.
abbrev pub idle_kernel : Kernel
idle_kernel e w = record { mem = w.mem; status = pos 0; pointer = 0x9000 }

-- The layout of the 64-bit kernel.
abbrev pub x64 : WdkSys
x64 = record {
  io_status_status = 0x30;
  current_location = 0x43;
  current_stack_location = 0xB8;
  stack_location_size = 0x48;
  device_extension = 0x40;
  stack_size = 0x4C;
  flags = 0x30;
  next_device = 0x10;
  io_no_increment = 0;
  status_success = pos 0;
  file_device_keyboard = 0x0B;
  file_device_unknown = 0x22;
  file_device_null = 0x15;
  do_buffered_io = 0x04;
  do_direct_io = 0x10;
  do_device_initializing = 0x80;
  irp_mj_create = 0x00;
  irp_mj_close = 0x02;
  irp_mj_read = 0x03;
  irp_mj_write = 0x04;
  irp_mj_device_control = 0x0E;
  irp_mj_internal_device_control = 0x0F;
  irp_mj_power = 0x16;
  irp_mj_pnp = 0x1B;
  irp_mj_maximum_function = 0x1B;
}

pub idle-PrintsOnly : PrintsOnly x64 idle_kernel
idle-PrintsOnly text w = refl

-- A driver object whose slots the I/O manager has filled with a routine of its own.
abbrev pub object : DriverObject
object = record {
  address = 0x700;
  major_function = replicate 28 (some (foreign 0));
  unload_set = false;
  has_extension = true;
  add_device_set = false;
  device_object = 0;
}
