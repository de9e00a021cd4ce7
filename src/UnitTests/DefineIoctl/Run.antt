-- ===== src/UnitTests/DefineIoctl/Run.antt =====
-- The tests of tests/integration/src/ioctl_tests.rs.
use wdk_safe.Base.{refl, ◌&&◌, not, List, [], ◌∷◌, ◌==◌, same_name}
use wdk_safe.Base.Hex.{codes}
use wdk_safe.Machine.{Cmd, ◌>>=◌, ◌>>◌}
use wdk_safe.Ioctl.{
  buffered, in_direct, out_direct, neither, any, read, write, read_write, new, into_raw,
  device_type, function, method, access, method_of_bits, access_of_bits, is_microsoft_device_type,
}
use wdk_safe.Macros.{
  define_ioctl, assign, parse_settings, resolve_method, resolve_access, derive_alias_names,
  parse_args, parse_all,
}
use wdk_safe.UnitTests.Harness.{assert, same_method, same_access, AllPass}
use wdk_safe.UnitTests.DefineIoctl.{
  req, rsp, empty_req, empty_rsp, value, ioctl_echo, ioctl_read_data, ioctl_write_data,
  ioctl_neither_rw, ioctl_explicit_defaults, ioctl_trailing_comma, ioctl_my_multi_word, ioctl_a,
  ioctl_empty, ioctl_other_device,
}

abbrev echo_raw_value : Cmd (Unit {0})
echo_raw_value = do echo ← ioctl_echo; assert (into_raw (value echo) == 0x8000_2000)

abbrev echo_type_aliases_exist : Cmd (Unit {0})
echo_type_aliases_exist = do
  echo ← ioctl_echo
  assert (same_name echo.input_alias (codes "IoctlEchoInput") && echo.input_type == req)
  assert (same_name echo.output_alias (codes "IoctlEchoOutput") && echo.output_type == rsp)

abbrev echo_default_method_is_buffered : Cmd (Unit {0})
echo_default_method_is_buffered = do
  echo ← ioctl_echo
  assert (same_method (method (value echo)) buffered)

abbrev echo_default_access_is_any : Cmd (Unit {0})
echo_default_access_is_any = do echo ← ioctl_echo; assert (same_access (access (value echo)) any)

abbrev echo_device_type : Cmd (Unit {0})
echo_device_type = do echo ← ioctl_echo; assert (device_type (value echo) == 0x8000)

abbrev echo_function_code : Cmd (Unit {0})
echo_function_code = do echo ← ioctl_echo; assert (function (value echo) == 0x800)

abbrev read_data_method_is_in_direct : Cmd (Unit {0})
read_data_method_is_in_direct = do
  read_data ← ioctl_read_data
  assert (same_method (method (value read_data)) in_direct)

abbrev read_data_access_is_read : Cmd (Unit {0})
read_data_access_is_read = do
  read_data ← ioctl_read_data
  assert (same_access (access (value read_data)) read)

abbrev read_data_function_code : Cmd (Unit {0})
read_data_function_code = do
  read_data ← ioctl_read_data
  assert (function (value read_data) == 0x801)

abbrev read_data_type_aliases : Cmd (Unit {0})
read_data_type_aliases = do
  read_data ← ioctl_read_data
  assert
      (same_name read_data.input_alias (codes "IoctlReadDataInput") && read_data.input_type == req)
  assert (
      same_name read_data.output_alias (codes "IoctlReadDataOutput")
      && read_data.output_type == rsp)

abbrev write_data_method_is_out_direct : Cmd (Unit {0})
write_data_method_is_out_direct = do
  write_data ← ioctl_write_data
  assert (same_method (method (value write_data)) out_direct)

abbrev write_data_access_is_write : Cmd (Unit {0})
write_data_access_is_write = do
  write_data ← ioctl_write_data
  assert (same_access (access (value write_data)) write)

abbrev neither_rw_method_is_neither : Cmd (Unit {0})
neither_rw_method_is_neither = do
  neither_rw ← ioctl_neither_rw
  assert (same_method (method (value neither_rw)) neither)

abbrev neither_rw_access_is_read_write : Cmd (Unit {0})
neither_rw_access_is_read_write = do
  neither_rw ← ioctl_neither_rw
  assert (same_access (access (value neither_rw)) read_write)

abbrev explicit_defaults_match_minimal_defaults : Cmd (Unit {0})
explicit_defaults_match_minimal_defaults = do
  explicit ← ioctl_explicit_defaults
  let implicit_raw = into_raw (new 0x8000 0x804 buffered any)
  assert (into_raw (value explicit) == implicit_raw)

abbrev trailing_comma_compiles : Cmd (Unit {0})
trailing_comma_compiles = do
  trailing_comma ← ioctl_trailing_comma
  assert (device_type (value trailing_comma) == 0x8000)

abbrev multi_word_pascal_case : Cmd (Unit {0})
multi_word_pascal_case = do
  my_multi_word ← ioctl_my_multi_word
  assert (
      same_name my_multi_word.input_alias (codes "IoctlMyMultiWordInput")
      && my_multi_word.input_type == req)
  assert (
      same_name my_multi_word.output_alias (codes "IoctlMyMultiWordOutput")
      && my_multi_word.output_type == rsp)

abbrev single_word_after_ioctl_prefix : Cmd (Unit {0})
single_word_after_ioctl_prefix = do
  a ← ioctl_a
  assert (same_name a.input_alias (codes "IoctlAInput") && a.input_type == req)
  assert (same_name a.output_alias (codes "IoctlAOutput") && a.output_type == rsp)

abbrev unit_struct_types_compile : Cmd (Unit {0})
unit_struct_types_compile = do
  empty ← ioctl_empty
  assert (same_name empty.input_alias (codes "IoctlEmptyInput") && empty.input_type == empty_req)
  assert (same_name empty.output_alias (codes "IoctlEmptyOutput") && empty.output_type == empty_rsp)

abbrev other_device_type_preserved : Cmd (Unit {0})
other_device_type_preserved = do
  other_device ← ioctl_other_device
  assert (device_type (value other_device) == 0x0022)

abbrev other_device_is_microsoft_range : Cmd (Unit {0})
other_device_is_microsoft_range = do
  other_device ← ioctl_other_device
  assert (is_microsoft_device_type (value other_device))

abbrev different_function_codes_are_unique : Cmd (Unit {0})
different_function_codes_are_unique = do
  echo ← ioctl_echo
  read_data ← ioctl_read_data
  write_data ← ioctl_write_data
  neither_rw ← ioctl_neither_rw
  assert (not (into_raw (value echo) == into_raw (value read_data)))
  assert (not (into_raw (value read_data) == into_raw (value write_data)))
  assert (not (into_raw (value write_data) == into_raw (value neither_rw)))

abbrev different_device_types_are_unique : Cmd (Unit {0})
different_device_types_are_unique = do
  echo ← ioctl_echo
  other_device ← ioctl_other_device
  assert (not (into_raw (value echo) == into_raw (value other_device)))

abbrev ioctl_constants_are_copy : Cmd (Unit {0})
ioctl_constants_are_copy = do
  echo ← ioctl_echo
  let a = value echo
  let b = a
  assert (a.value == b.value)

abbrev ioctl_constants_implement_eq : Cmd (Unit {0})
ioctl_constants_implement_eq = do
  echo ← ioctl_echo
  read_data ← ioctl_read_data
  assert ((value echo).value == (value echo).value)
  assert (not ((value echo).value == (value read_data).value))

abbrev tests : List (Cmd (Unit {0}))
tests =
    echo_raw_value ∷ echo_type_aliases_exist ∷ echo_default_method_is_buffered
    ∷ echo_default_access_is_any ∷ echo_device_type ∷ echo_function_code
    ∷ read_data_method_is_in_direct ∷ read_data_access_is_read ∷ read_data_function_code
    ∷ read_data_type_aliases ∷ write_data_method_is_out_direct ∷ write_data_access_is_write
    ∷ neither_rw_method_is_neither ∷ neither_rw_access_is_read_write
    ∷ explicit_defaults_match_minimal_defaults ∷ trailing_comma_compiles ∷ multi_word_pascal_case
    ∷ single_word_after_ioctl_prefix ∷ unit_struct_types_compile ∷ other_device_type_preserved
    ∷ other_device_is_microsoft_range ∷ different_function_codes_are_unique
    ∷ different_device_types_are_unique ∷ ioctl_constants_are_copy ∷ ioctl_constants_implement_eq
    ∷ []

tests-AllPass_define_ioctl : AllPass tests
unfolding new device_type function method access method_of_bits access_of_bits
    is_microsoft_device_type define_ioctl parse_args parse_all parse_settings assign resolve_method
    resolve_access derive_alias_names
tests-AllPass_define_ioctl = λ w. (refl, refl)
