-- ===== src/Wdm/Unicode.antt =====
-- `UNICODE_STRING`s built from constant slices of UTF-16 units, the last of them zero. The length
-- counts bytes without the terminator.
use wdk_safe.Base.{
  arith, ◌≡◌, ◌≢◌, ◌<◌, true, ℕ, ◌+◌, ◌-◌, ◌*◌, ◌/◌, ◌%◌, ◌^◌, not, List, ◌==◌, ltb, length, take,
}
use wdk_safe.Machine.{World, ok, Cmd, pure, ◌>>=◌, ◌>>◌, debug_assert}
use wdk_safe.Machine.Access.{debug_assert_lem}

pub record UnicodeString : Type 0 where
  pub length_bytes : ℕ
  pub maximum_length : ℕ
  pub buffer : List ℕ

-- `((buf.len() - 1) * 2) as u16`, and two more; a debug build checks the subtraction and the sum.
unfoldable pub unicode_from_slice : List ℕ → Cmd UnicodeString
unicode_from_slice buf = do
  debug_assert (not (length buf == 0))
  let len = (length buf + 2 ^ 64 - 1) % 2 ^ 64 * 2 % 2 ^ 16
  debug_assert (ltb (len + 2) (2 ^ 16))
  pure (record { length_bytes = len; maximum_length = (len + 2) % 2 ^ 16; buffer = buf })

-- The units that the string stands for.
abbrev pub units : UnicodeString → List ℕ
units s = take (s.length_bytes / 2) s.buffer

-- The string that a slice gives.
abbrev pub described : List ℕ → UnicodeString
described buf =
    let len = (length buf - 1) * 2 in
    record { length_bytes = len; maximum_length = len + 2; buffer = buf }

length_lem : (n : ℕ) → n ≢ 0 → n < 2 ^ 15 → (n + 2 ^ 64 - 1) % 2 ^ 64 * 2 % 2 ^ 16 ≡ (n - 1) * 2
length_lem n ne lt = omega arith

maximum_lem : (n : ℕ) → n < 2 ^ 15 → ((n - 1) * 2 + 2) % 2 ^ 16 ≡ (n - 1) * 2 + 2
maximum_lem n lt = omega arith

nonempty_lem : (n : ℕ) → n ≢ 0 → not (n == 0) ≡ true
nonempty_lem n ne = ground arith

room_lem : (n : ℕ) → n ≢ 0 → n < 2 ^ 15 → ltb ((n - 1) * 2 + 2) (2 ^ 16) ≡ true
room_lem n ne lt = ground arith

pub unicode_from_slice_lem :
    (buf : List ℕ) (w : World)
    → length buf ≢ 0
    → length buf < 2 ^ 15
    → unicode_from_slice buf w ≡ ok (described buf) w
unfolding unicode_from_slice
unicode_from_slice_lem buf w ne lt = rw (
  debug_assert_lem _ w (nonempty_lem (length buf) ne),
  ◌>>=◌,
  length_lem (length buf) ne lt,
  debug_assert_lem _ w (room_lem (length buf) ne lt),
  ◌>>=◌,
  length_lem (length buf) ne lt,
  maximum_lem (length buf) lt,
)
