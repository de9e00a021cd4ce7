-- ===== src/EchoTest.antt =====
-- examples/ioctl-echo/ioctl-echo-test/src/main.rs: the program that sends a value to the echo driver
-- and compares what comes back. Win32 is a parameter, with a state of its own.
pub mod Arguments
pub mod Runs
pub mod Delivery
use Prim.Native.Nat.{bit_or}
use wdk_safe.Base.{
  ℕ, ◌+◌, ◌-◌, ◌/◌, ◌%◌, Bool, true, false, Option, none, some, List, [], ◌∷◌, ◌++◌, ◌==◌, ltb,
  if◌then◌else◌, get_elem?,
}
use wdk_safe.Base.Hex.{codes, format_hex}
use wdk_safe.Base.Radix.{from_str_radix, decimal}

-- `DeviceIoControl`: its result, the output buffer afterwards, and the number of bytes.
pub record IoAnswer : Type 0 where
  pub ok : ℕ
  pub output : ℕ
  pub bytes_returned : ℕ

pub record Win32 : Type 1 where
  pub State : Type 0
  pub invalid_handle_value : ℕ
  pub file_share_none : ℕ
  pub open_existing : ℕ
  -- the path with its terminator, the access, the sharing, the disposition and the flags
  pub create_file_w : List ℕ → ℕ → ℕ → ℕ → ℕ → State → ℕ × State
  -- the handle, the code, the input and its size, the output as it is before and its size
  pub device_io_control : ℕ → ℕ → ℕ → ℕ → ℕ → ℕ → State → IoAnswer × State
  pub close_handle : ℕ → State → State
  pub get_last_error : State → ℕ

pub data Line : Type 0 where
  stdout stderr : List ℕ → Line

-- The calls that open, use and close a handle.
pub data HandleCall : Type 0 where
  opened : List ℕ → ℕ → HandleCall
  -- the handle, the code and the value
  controlled : ℕ → ℕ → ℕ → HandleCall
  closed : ℕ → HandleCall

-- 32 bits, as written in the program.
abbrev pub ioctl_echo : ℕ
ioctl_echo = 0x8000_2000

-- `EchoRequest` and `EchoResponse` have one field, and are its value here.
abbrev pub size_of_request : ℕ
size_of_request = 4

abbrev pub size_of_response : ℕ
size_of_response = 4

-- `encode_wide`, on a text of Unicode scalar values.
encode_wide : List ℕ → List ℕ
encode_wide [] = []
encode_wide (c ∷ cs) =
    let rest = encode_wide cs in
    if ltb c 0x1_0000
    then c ∷ rest
    else (0xD800 + (c - 0x1_0000) / 0x400) ∷ (0xDC00 + (c - 0x1_0000) % 0x400) ∷ rest

unfoldable pub to_wide_null : List ℕ → List ℕ
unfolding encode_wide
to_wide_null s = encode_wide s ++ (0 ∷ [])

-- `str::strip_prefix`
strip_prefix : List ℕ → List ℕ → Option (List ℕ)
strip_prefix s [] = some s
strip_prefix [] (p ∷ ps) = none
strip_prefix (c ∷ cs) (p ∷ ps) = if c == p then strip_prefix cs ps else none

-- `or_else`
or_else : Option (List ℕ) → Option (List ℕ) → Option (List ℕ)
or_else none o = o
or_else (some s) o = some s

-- The text behind `0x` or `0X`.
unfoldable pub strip_hex : List ℕ → Option (List ℕ)
unfolding strip_prefix or_else
strip_hex s = or_else (strip_prefix s (codes "0x")) (strip_prefix s (codes "0X"))

-- The closure on the argument.
unfoldable pub parse_value : List ℕ → Option ℕ
parse_value s = elim (strip_hex s) [ some hex ↦ from_str_radix hex 16 | none ↦ from_str_radix s 10 ]

-- `args().nth(1).and_then(..).unwrap_or(0xDEAD_BEEF)`
unfoldable pub send_value : List (List ℕ) → ℕ
send_value args = elim (get_elem? args 1) [
  | none ↦ 0xDEAD_BEEF
  | some s ↦ elim (parse_value s) [ none ↦ 0xDEAD_BEEF | some v ↦ v ]
]

module _ (win : Win32) where
  -- The state of Win32, and what the program has done, the latest first.
  pub record Session : Type 0 where
    pub state : win.State
    pub lines : List Line
    pub calls : List HandleCall

  -- A program that goes on with a result, or has ended with an exit code.
  pub data Process {ℓ} (A : Type ℓ) : Type ℓ where
    running : A → Session → Process A
    exited : ℕ → Session → Process A

  abbrev pub Step {ℓ} : Type ℓ → Type ℓ
  Step A = Session → Process A

  abbrev pub pure {ℓ} : {A : Type ℓ} → A → Step A
  pure a s = running a s

  infixl 5 ◌>>=◌ ◌>>◌
  abbrev pub ◌>>=◌ {ℓ κ} : {A : Type ℓ} {B : Type κ} → Step A → (A → Step B) → Step B
  ◌>>=◌ m f s = elim (m s) [ running a s' ↦ f a s' | exited n s' ↦ exited n s' ]

  abbrev pub ◌>>◌ {ℓ κ} : {A : Type ℓ} {B : Type κ} → Step A → Step B → Step B
  m >> k = m >>= λ _. k

  -- `println!` and `eprintln!`
  abbrev println : List ℕ → Step (Unit {0})
  println text s = running tt (record s { lines = stdout text ∷ s.lines })

  abbrev eprintln : List ℕ → Step (Unit {0})
  eprintln text s = running tt (record s { lines = stderr text ∷ s.lines })

  -- `std::process::exit`
  abbrev exit {ℓ} : {A : Type ℓ} → ℕ → Step A
  exit code s = exited code s

  abbrev last_error : Step ℕ
  last_error s = running (win.get_last_error s.state) s

  abbrev open_device : List ℕ → Step ℕ
  open_device path s =
      let (handle, state) =
        win.create_file_w path (bit_or 0x8000_0000 0x4000_0000) win.file_share_none
          win.open_existing 0 s.state in
      running handle (record s { state = state; calls = opened path handle ∷ s.calls })

  abbrev control : ℕ → ℕ → Step IoAnswer
  control handle value s =
      let (answer, state) =
        win.device_io_control handle ioctl_echo value size_of_request 0 size_of_response s.state in
      running answer
        (record s { state = state; calls = controlled handle ioctl_echo value ∷ s.calls })

  abbrev close : ℕ → Step (Unit {0})
  close handle s =
      running tt
        (record s { state = win.close_handle handle s.state; calls = closed handle ∷ s.calls })

  -- The lines before the device is opened.
  unfoldable pub introduce : ℕ → Step (Unit {0})
  introduce send = do
    println (codes "=== ioctl-echo test ===")
    println (codes "Device : \\\\.\\WdkSafeEcho")
    println (codes "IOCTL  : " ++ format_hex 10 ioctl_echo)
    println (codes "Send   : " ++ format_hex 10 send ++ codes " (" ++ decimal send ++ codes ")")

  -- From the answer of a `DeviceIoControl` that succeeded on.
  unfoldable pub compare_values : ℕ → IoAnswer → Step (Unit {0})
  compare_values send answer = do
    println (
        codes "Received: "
        ++ format_hex 10 answer.output
        ++ codes " ("
        ++ decimal answer.output
        ++ codes ")")
    println (codes "Bytes returned: " ++ decimal answer.bytes_returned)
    if answer.output == send then println (codes "\n✓ PASS — echo correct") else (do
      eprintln (
          codes "\n✗ FAIL — expected "
          ++ format_hex 10 send
          ++ codes ", got "
          ++ format_hex 10 answer.output)
      exit 1)

  -- From the opened handle on.
  unfoldable pub exchange : ℕ → ℕ → Step (Unit {0})
  exchange send handle = do
    println (codes "Opened device handle: OK")
    answer ← control handle send
    close handle
    if answer.ok == 0
        then (do
          err ← last_error
          eprintln (codes "ERROR: DeviceIoControl failed — Win32 error " ++ format_hex 10 err)
          exit 1)
        else compare_values send answer

  unfoldable pub main : List (List ℕ) → Step (Unit {0})
  main args = do
    let send = send_value args
    introduce send
    let path = to_wide_null (codes "\\\\.\\WdkSafeEcho")
    handle ← open_device path
    if handle == win.invalid_handle_value
        then (do
          err ← last_error
          eprintln (codes "ERROR: CreateFile failed — Win32 error " ++ format_hex 10 err)
          eprintln (codes "  Is the driver running? (sc start ioctl-echo)")
          exit 1)
        else exchange send handle

  -- The exit code of a program that has ended: 0 when `main` returns.
  abbrev pub exit_status : Process (Unit {0}) → ℕ
  exit_status (running _ s) = 0
  exit_status (exited code s) = code

  abbrev pub final : Process (Unit {0}) → Session
  final (running _ s) = s
  final (exited code s) = s
