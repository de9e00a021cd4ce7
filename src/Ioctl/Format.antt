-- ===== src/Ioctl/Format.antt =====
-- crates/wdk-safe/src/ioctl.rs: the `Debug` and `Display` texts of a code.
use wdk_safe.Base.{ℕ, ◌≡◌, refl, some, List, ◌++◌, arith, length}
use wdk_safe.Base.Hex.{codes, format_hex, parse_hex, parse_hex-format_hex, length-format_hex}
use wdk_safe.Ioctl.{
  TransferMethod, buffered, in_direct, out_direct, neither, RequiredAccess, any, read, write,
  read_write, IoControlCode, IsCode, new, device_type, function, method, access,
}

-- The derived `Debug` of the two enums.
unfoldable pub method_name : TransferMethod → List ℕ
method_name buffered = codes "Buffered"
method_name in_direct = codes "InDirect"
method_name out_direct = codes "OutDirect"
method_name neither = codes "Neither"

unfoldable pub access_name : RequiredAccess → List ℕ
access_name any = codes "Any"
access_name read = codes "Read"
access_name write = codes "Write"
access_name read_write = codes "ReadWrite"

-- `debug_struct` with five fields, in its form on one line.
unfoldable pub debug : IoControlCode → List ℕ
unfolding method_name access_name
debug c =
    codes "IoControlCode { raw: "
    ++ (format_hex 10 c.value
        ++ (codes ", device_type: "
            ++ (format_hex 6 (device_type c)
                ++ (codes ", function: "
                    ++ (format_hex 5 (function c)
                        ++ (codes ", method: "
                            ++ (method_name (method c)
                                ++ (codes ", access: "
                                    ++ (access_name (access c) ++ codes " }")))))))))

-- `{:#010X}`
unfoldable pub display : IoControlCode → List ℕ
display c = format_hex 10 c.value

-- The displayed text of a 32-bit code has ten characters, and read as a hexadecimal number it is
-- the code's raw value.
pub parse_hex-display :
    (c : IoControlCode)
    → IsCode c
    → (length (display c) ≡ 10) × (parse_hex (display c) ≡ some c.value)
unfolding display
parse_hex-display c h = (length-format_hex 7 c.value (omega arith), parse_hex-format_hex 10 c.value)

debug_echo :
    debug (new 0x8000 0x800 buffered any)
    ≡ codes
        "IoControlCode { raw: 0x80002000, device_type: 0x8000, function: 0x800, method: Buffered, access: Any }"
unfolding debug new device_type function method access format_hex
debug_echo = refl
