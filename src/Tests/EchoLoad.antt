-- ===== src/Tests/EchoLoad.antt =====
-- Tests of the loading of the echo driver.
use wdk_safe.Base.{◌⊎◌, refl, pos, arith}
use wdk_safe.Memory.{read_le}
use wdk_safe.Wdm.Loading.{Refused}
use wdk_safe.Echo.{driver_entry_inner}
use wdk_safe.Echo.Load.{Success, driver_entry_inner_starts}
use wdk_safe.Tests.Fixtures.{fresh, idle_kernel, x64, idle-PrintsOnly, object}

driver_entry_inner_starts_example :
    Refused (pos 0) fresh (driver_entry_inner x64 idle_kernel object fresh) object
    ⊎ Success x64 idle_kernel idle-PrintsOnly object fresh
unfolding read_le
driver_entry_inner_starts_example =
    driver_entry_inner_starts x64 idle_kernel idle-PrintsOnly object fresh
      (λ e f. (0, refl, omega arith))
