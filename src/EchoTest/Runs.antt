-- ===== src/EchoTest/Runs.antt =====
-- Every run of the test program: its exit code, its last line, and its calls on handles.
use wdk_safe.Base.{
  ℕ, ◌≤◌, ◌≡◌, ◌≢◌, ◌↔◌, Option, none, some, List, [], ◌∷◌, Bool, ◌==◌, if◌then◌else◌, arith, true,
  false,
}
use wdk_safe.Base.Hex.{codes}
use wdk_safe.EchoTest.{
  Win32, IoAnswer, Session, Process, Line, stdout, stderr, opened, controlled, closed, ioctl_echo,
  size_of_request, size_of_response, to_wide_null, send_value, introduce, compare_values, exchange,
  main, exit_status, final,
}

-- The line that reports a correct echo.
abbrev pub pass_line : Line
pass_line = stdout (codes "\n✓ PASS — echo correct")

abbrev pub latest : List Line → Option Line
latest [] = none
latest (l ∷ ls) = some l

abbrev pub is_stderr : Option Line → Bool
is_stderr (some (stderr text)) = true
is_stderr other = false

module _ (win : Win32) (args : List (List ℕ)) (s : Session win) where
  abbrev pub path : List ℕ
  path = to_wide_null (codes "\\\\.\\WdkSafeEcho")

  -- What Win32 answers in this run.
  abbrev pub creation : ℕ × win.State
  creation = win.create_file_w path 0xC000_0000 win.file_share_none win.open_existing 0 s.state

  abbrev pub handle : ℕ
  handle = creation.0

  abbrev pub control_answer : IoAnswer × win.State
  control_answer =
      win.device_io_control handle ioctl_echo (send_value args) size_of_request 0 size_of_response
        creation.1

  abbrev pub answer : IoAnswer
  answer = control_answer.0

  -- The value came back.
  abbrev pub IsEchoed : Type 0
  IsEchoed =
      (handle ≢ win.invalid_handle_value) × (answer.ok ≢ 0) × (answer.output ≡ send_value args)

  -- What a run reports: the exit code is 0 exactly if the value came back, and 1 if not; the last
  -- line says in the one case that it did, and is an error in the other.
  pub record Reports (run : Process win (Unit {0})) : Type 0 where
    pub exit_zero : (exit_status win run ≡ 0) ↔ IsEchoed
    pub exit_one : exit_status win run ≤ 1
    pub pass_last : IsEchoed → latest (final win run).lines ≡ some pass_line
    pub error_last : ¬ IsEchoed → is_stderr (latest (final win run).lines) ≡ true

  -- Whatever the arguments are and Win32 answers, the program ends with the exit code 0 exactly if
  -- the device was opened, `DeviceIoControl` succeeded and the value that came back is the one that
  -- was sent, and otherwise with 1; its last line is the report of success in the first case, and a
  -- line on the standard error output in the second.
  pub main-Reports : Reports (main win args s)
  unfolding main introduce exchange compare_values
  main-Reports = record {
    exit_zero = ground arith;
    exit_one = ground arith;
    pass_last = λ e. ground arith;
    error_last = λ e. ground arith;
  }

  -- The handle is closed once, after its use, on every path, and never if it was not opened.
  pub main-calls : (final win (main win args s)).calls ≡ (
      if handle == win.invalid_handle_value
      then opened path handle ∷ s.calls
      else closed handle
        ∷ controlled handle ioctl_echo (send_value args)
        ∷ opened path handle
        ∷ s.calls)
  unfolding main introduce exchange compare_values
  main-calls = ground arith

  -- The state of Win32 at the end.
  pub main-state : (final win (main win args s)).state ≡ (
      if handle == win.invalid_handle_value
      then creation.1
      else win.close_handle handle control_answer.1)
  unfolding main introduce exchange compare_values
  main-state = ground arith
