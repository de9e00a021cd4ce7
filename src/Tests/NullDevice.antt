-- ===== src/Tests/NullDevice.antt =====
-- Tests of examples/null-device/null-device/src/lib.rs.
use wdk_safe.Base.{◌≡◌, ℤ, as_i32, if◌then◌else◌, refl, some, [], ◌∷◌, pos, arith}
use wdk_safe.Memory.{read_le}
use wdk_safe.Machine.{
  World, Kernel, Effect, ok, returned, io_create_device, io_create_symbolic_link,
}
use wdk_safe.Wdm.Completion.{HasStatus}
use wdk_safe.Machine.Resources.{links, without_link}
use wdk_safe.Wdm.Unicode.{units, described}
use wdk_safe.NullDevice.{driver_unload, unload_name_buf}
use wdk_safe.NullDevice.Load.{device_name, dos_name}
use wdk_safe.NullDevice.Reload.{has_link, RefusesTaken, LoadsFail, driver_unload-LoadsFail}
use wdk_safe.Tests.Fixtures.{zeros, fresh, idle_kernel, x64, object}

zeros-HasStatus : HasStatus x64 idle_kernel 0x1000 zeros
unfolding read_le
zeros-HasStatus = (0, refl)

-- The world after a load.
loaded : World
loaded = record fresh {
  effects =
      returned (pos 0) 0
      ∷ io_create_symbolic_link dos_name device_name
      ∷ returned (pos 0) 0x9000
      ∷ io_create_device 0x700
          (record { extension_size = 0; name = some device_name; device_type = 0x15 })
      ∷ [];
}

-- A kernel that answers STATUS_OBJECT_NAME_COLLISION for a name that is a link already.
abbrev link_status : Effect → World → ℤ
link_status (io_create_symbolic_link name target) w =
    if has_link name (links (pos 0) w.effects) then as_i32 0xC000_0035 else pos 0
link_status other w = pos 0

abbrev pub strict_kernel : Kernel
strict_kernel e w = record (idle_kernel e w) { status = link_status e w }

pub strict-RefusesTaken : RefusesTaken x64 strict_kernel
unfolding as_i32
strict-RefusesTaken name target w there = rw there refl

driver_unload-LoadsFail_example :
    (w' : World) × (driver_unload x64 strict_kernel
        (record object { device_object = 0x9000 })
        loaded
      ≡ ok tt w')
    × LoadsFail x64 strict_kernel []
        (dos_name ∷ without_link (units (described unload_name_buf)) [])
        (object ∷ object ∷ [])
        w'
unfolding loaded
driver_unload-LoadsFail_example =
    driver_unload-LoadsFail x64 strict_kernel (λ text w. refl) strict-RefusesTaken
      (record object { device_object = 0x9000 }) loaded [] [] (object ∷ object ∷ []) (omega arith)
      refl refl
