-- ===== src/Tests/EchoTest.antt =====
-- Tests of examples/ioctl-echo/ioctl-echo-test/src/main.rs, and a Win32 in which the I/O manager
-- runs the echo driver.
use wdk_safe.Base.{
  ℕ, zero, suc, ◌+◌, ◌-◌, ◌*◌, ◌/◌, ◌^◌, ◌≡◌, ◌≢◌, refl, ap, ◌∙◌, inr, Option, none, some, List, [],
  ◌∷◌, ◌++◌, ℤ, arith, ◌==◌, if◌then◌else◌,
}
use wdk_safe.Base.Hex.{codes}
use wdk_safe.Base.Radix.{meant, from_str_radix, to_digit}
use wdk_safe.Memory.{Ptr, Memory, read_le, store, IsBytes}
use wdk_safe.Memory.Laws.{store-IsBytes}
use wdk_safe.Machine.{World, Outcome, ok, Effect, io_complete_request, Cmd}
use wdk_safe.Status
use wdk_safe.Status.Codes
use wdk_safe.Wdm.Completion.{answered}
use wdk_safe.Wdm.Objects.{dispatch_device_control}
use wdk_safe.Echo.{dos_buf, routine}
use wdk_safe.EchoTest.{
  Win32, IoAnswer, Session, stdout, opened, controlled, closed, ioctl_echo, strip_hex, parse_value,
  send_value, introduce, main, to_wide_null, exit_status, final,
}
use wdk_safe.EchoTest.Arguments.{IsPrefixed, parse_value-meant, send_value-printed}
use wdk_safe.EchoTest.Runs.{Reports, handle, path, pass_line, latest, main-Reports, main-calls}
use wdk_safe.EchoTest.Delivery.{Delivers, dispatch, dispatch_registered, main-echoes}
use wdk_safe.Tests.Fixtures.{zeros, world, idle_kernel, x64, idle-PrintsOnly}

-- The IRP at 0x1000 with its stack location at 0x2000, the system buffer at 0x4000 and the caller's
-- buffer at 0x3000.
memory : ℕ → Memory
unfolding store
memory value = store 4 0x2018 0x8000_2000 (
    store 4 0x2010 4 (
      store 4 0x2008 4
        (store 8 0x1070 0x3000 (store 8 0x10B8 0x2000 (store 4 0x4000 value zeros)))))

-- A list without its first elements.
without_first : ℕ → List ℕ → List ℕ
without_first zero xs = xs
without_first (suc n) [] = []
without_first (suc n) (x ∷ xs) = without_first n xs

or_zero : Option ℕ → ℕ
or_zero none = 0
or_zero (some n) = n

-- What the I/O manager makes of the driver's run.
copied : ℕ → Outcome ℤ → IoAnswer
unfolding or_zero
copied output (ok status w) =
    let n = or_zero (read_le 8 0x1038 w.mem) in
    record {
      ok = 1;
      output = or_zero (read_le n 0x4000 w.mem) + output / 256 ^ n * 256 ^ n;
      bytes_returned = n;
    }
copied output other = record { ok = 0; output = output; bytes_returned = 0 }

win : Win32
unfolding memory copied
win = record {
  State = Unit {0};
  invalid_handle_value = 2 ^ 64 - 1;
  file_share_none = 0;
  open_existing = 3;
  create_file_w = λ path access share disposition flags s. (0x44, s);
  device_io_control = λ handle code input input_size output output_size s.
      (copied output (dispatch x64 idle_kernel 0x500 0x1000 (world (memory input))), s);
  close_handle = λ handle s. s;
  get_last_error = λ s. 5;
}

start : Session win
unfolding win
start = record { state = tt; lines = []; calls = [] }

-- `ioctl_echo_test.exe 0x1234`
arguments : List (List ℕ)
arguments = codes "ioctl_echo_test.exe" ∷ codes "0x1234" ∷ []

sends : send_value arguments ≡ 0x1234
unfolding send_value arguments parse_value strip_hex from_str_radix to_digit
sends = refl

sends_default : send_value (codes "ioctl_echo_test.exe" ∷ []) ≡ 0xDEAD_BEEF
unfolding send_value
sends_default = refl

texts :
    (parse_value (codes "12345") ≡ some 12345)
    × (parse_value (codes "4294967296") ≡ none)
    × (parse_value (codes "0XffffFFFF") ≡ some 0xFFFF_FFFF)
    × (parse_value (codes "+7") ≡ some 7)
    × (parse_value (codes "-7") ≡ none)
    × (parse_value (codes "0x") ≡ none)
unfolding parse_value strip_hex from_str_radix to_digit
texts = (refl, refl, refl, refl, refl, refl)

-- The path is that of the link `\DosDevices\WdkSafeEcho`, with `\\.\` for its directory.
path_link : path win arguments start ≡ 0x5C ∷ 0x5C ∷ 0x2E ∷ 0x5C ∷ without_first 12 dos_buf
unfolding to_wide_null win without_first
path_link = refl

wide_surrogates : to_wide_null (0x1_F600 ∷ []) ≡ 0xD83D ∷ 0xDE00 ∷ 0 ∷ []
unfolding to_wide_null
wide_surrogates = refl

memory-IsBytes : (value : ℕ) → IsBytes (memory value)
unfolding memory
memory-IsBytes value = store-IsBytes 4 0x2018 0x8000_2000 _ (
    store-IsBytes 4 0x2010 4 _ (
      store-IsBytes 4 0x2008 4 _ (
        store-IsBytes 8 0x1070 0x3000 _ (
          store-IsBytes 8 0x10B8 0x2000 _
            (store-IsBytes 4 0x4000 value zeros (λ p b e. ground arith))))))

copied_lem :
    (output n x : ℕ) (run : Outcome ℤ) (s : ℤ) (e : Effect) (v : World)
    → run ≡ ok s (answered x64 idle_kernel e v)
    → read_le 8 0x1038 v.mem ≡ some n
    → read_le n 0x4000 v.mem ≡ some x
    → ((copied output run).ok ≢ 0)
      × ((copied output run).bytes_returned ≡ n)
      × ((copied output run).output ≡ x + output / 256 ^ n * 256 ^ n)
unfolding copied or_zero
copied_lem output n x run s e v ended count bytes =
    rw (ended, count, bytes) (omega arith, refl, refl)

copies :
    (value : ℕ) (f : Ptr → Ptr → Cmd ℤ) (v : World) (n x : ℕ)
    → routine x64 idle_kernel dispatch_device_control ≡ some f
    → f 0x500 0x1000 (world (memory value))
      ≡ ok
          (Status.into_raw Codes.success)
          (answered x64 idle_kernel (io_complete_request 0x1000 0) v)
    → read_le 8 0x1038 v.mem ≡ some n
    → read_le n 0x4000 v.mem ≡ some x
    → let reply = copied 0 (dispatch x64 idle_kernel 0x500 0x1000 (world (memory value))) in
      (reply.ok ≢ 0) × (reply.bytes_returned ≡ n) × (reply.output ≡ x + 0 / 256 ^ n * 256 ^ n)
copies value f v n x registered run count bytes =
    let same : dispatch x64 idle_kernel ≡ f =
      (let known = dispatch_registered x64 idle_kernel in cc) in
    copied_lem 0 n x (dispatch x64 idle_kernel 0x500 0x1000 (world (memory value)))
      (Status.into_raw Codes.success) (io_complete_request 0x1000 0) v
      (ap (λ (g : Ptr → Ptr → Cmd ℤ). g 0x500 0x1000 (world (memory value))) same ∙ run) count bytes

served :
    Delivers x64 idle_kernel 0x1234 4 0 4
      (copied 0 (dispatch x64 idle_kernel 0x500 0x1000 (world (memory 0x1234))))
unfolding memory read_le
served = record {
  device = 0x500;
  irp = 0x1000;
  stack = 0x2000;
  system_buffer = 0x4000;
  user_buffer = 0x3000;
  w = world (memory 0x1234);
  device_there = omega arith;
  irp_there = omega arith;
  stack_there = omega arith;
  user_there = omega arith;
  leads = refl;
  has_status = (0, refl);
  inputs = record {
    code_field = refl;
    input_field = refl;
    output_field = refl;
    buffer_field = refl;
  };
  answerable = record {
    buffer_mapped = (0, refl);
    info_mapped = (0, refl);
    info_aligned = refl;
    apart = inr (omega arith);
  };
  input_there = refl;
  bytes = memory-IsBytes 0x1234;
  separate = record {
    buffer_info = inr (omega arith);
    buffer_status = inr (omega arith);
    info_status = inr (omega arith);
  };
  system_user = inr (omega arith);
  system_info = inr (omega arith);
  system_status = inr (omega arith);
  copies = λ f v n x registered run count status le bytes.
      copies 0x1234 f v n x registered run count bytes;
}

parse_value-meant_example :
    (parse_value (codes "0x1F") ≡ meant (codes "1F") 16)
    × (parse_value (codes "0X1F") ≡ meant (codes "1F") 16)
    × (¬ IsPrefixed (codes "1F") → parse_value (codes "1F") ≡ meant (codes "1F") 10)
parse_value-meant_example = parse_value-meant (codes "1F")

send_value-printed_example :
    (hex : List ℕ) × (dec : List ℕ) × (latest (final win (introduce win 0xDEAD_BEEF start)).lines
      ≡ some (stdout (codes "Send   : " ++ hex ++ codes " (" ++ dec ++ codes ")")))
    × (send_value (codes "a.exe" ∷ hex ∷ []) ≡ 0xDEAD_BEEF)
    × (send_value (codes "a.exe" ∷ dec ∷ []) ≡ 0xDEAD_BEEF)
send_value-printed_example =
    send_value-printed win start (codes "a.exe") [] 0xDEAD_BEEF (omega arith)

main-Reports_example : Reports win arguments start (main win arguments start)
main-Reports_example = main-Reports win arguments start

main-calls_example : (final win (main win arguments start)).calls ≡ (
    if handle win arguments start == win.invalid_handle_value
    then opened (path win arguments start) (handle win arguments start) ∷ []
    else closed (handle win arguments start)
      ∷ controlled (handle win arguments start) ioctl_echo (send_value arguments)
      ∷ opened (path win arguments start) (handle win arguments start)
      ∷ [])
unfolding start
main-calls_example = main-calls win arguments start

main-echoes_example :
    (exit_status win (main win arguments start) ≡ 0)
    × (latest (final win (main win arguments start)).lines ≡ some pass_line)
unfolding win
main-echoes_example =
    main-echoes x64 idle_kernel win arguments start idle-PrintsOnly (omega arith) (rw sends served)
