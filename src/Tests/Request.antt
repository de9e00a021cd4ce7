-- ===== src/Tests/Request.antt =====
-- Tests of crates/wdk-safe/src/request.rs.
use wdk_safe.Base.{◌≡◌, refl, none, some, inr, ◌==◌, if◌then◌else◌, arith}
use wdk_safe.Status.Codes
use wdk_safe.Ioctl.{from_raw, wdk_sys_0_5_x64}
use wdk_safe.Memory.{read_le}
use wdk_safe.Machine.{World, ok}
use wdk_safe.Irp.Completers.{noop_completer, noop-IsCompleter}
use wdk_safe.Request
use wdk_safe.Request.Parameters.{IsLayout, fill, parameters-fill}
use wdk_safe.Request.Completion.{Keeps, Finished, complete-information}
use wdk_safe.Tests.Fixtures.{fresh, request}

x64-IsLayout : IsLayout wdk_sys_0_5_x64
x64-IsLayout = record {
  code_input = inr (omega arith);
  code_output = inr (omega arith);
  input_output = inr (omega arith);
}

parameters-fill_example :
    let w' = record fresh {
      mem = fill wdk_sys_0_5_x64 0x2000 (from_raw 0x8000_2000) 512 1024 fresh.mem;
    } in
    (Request.ioctl_code request wdk_sys_0_5_x64 w'
      ≡ ok (if 0x8000_2000 == 0 then none else some (from_raw 0x8000_2000)) w')
    × (Request.input_buffer_length request wdk_sys_0_5_x64 w' ≡ ok 512 w')
    × (Request.output_buffer_length request wdk_sys_0_5_x64 w' ≡ ok 1024 w')
parameters-fill_example =
    parameters-fill wdk_sys_0_5_x64 request (from_raw 0x8000_2000) 512 1024 fresh x64-IsLayout
      (omega arith) (omega arith) (omega arith)

noop-Keeps : Keeps noop_completer 0x1038
unfolding noop_completer
noop-Keeps irp status w w' e = cc

complete-information_example :
    ((w' : World) × (Request.complete noop_completer request Codes.success fresh
        ≡ ok Codes.success w')
      × Finished 0x1038 0x1000 (read_le 8 0x1038 fresh.mem) fresh w')
    × ((w' : World) × (Request.complete_with_info noop_completer request Codes.success 42 0x1038
            fresh
          ≡ ok Codes.success w')
        × Finished 0x1038 0x1000 (some 42) fresh w')
unfolding read_le
complete-information_example =
    complete-information noop-IsCompleter request wdk_sys_0_5_x64 Codes.success 42 fresh noop-Keeps
      tt tt refl (0, refl) (omega arith)
