-- ===== src/Message/Tag.antt =====
-- The data type identifiers of src/Message.cpp: the byte that stands before each value of a message.
use kcmsg.Prelude.{ℕ, ◌≡◌, Bool, ◌==◌, ◌||◌, ◌&&◌, leb, arith}

abbrev pub data_type_bool : ℕ
data_type_bool = 0x01

abbrev pub data_type_byte : ℕ
data_type_byte = 0x02

abbrev pub data_type_short : ℕ
data_type_short = 0x03

abbrev pub data_type_int : ℕ
data_type_int = 0x04

abbrev pub data_type_long : ℕ
data_type_long = 0x05

abbrev pub data_type_long_long : ℕ
data_type_long_long = 0x06

abbrev pub data_type_float : ℕ
data_type_float = 0x07

abbrev pub data_type_double : ℕ
data_type_double = 0x08

abbrev pub data_type_char : ℕ
data_type_char = 0x09

abbrev pub data_type_wchar : ℕ
data_type_wchar = 0x0A

abbrev pub data_type_string_1 : ℕ
data_type_string_1 = 0x0B

abbrev pub data_type_string_2 : ℕ
data_type_string_2 = 0x0C

abbrev pub data_type_wstring_1 : ℕ
data_type_wstring_1 = 0x0D

abbrev pub data_type_wstring_2 : ℕ
data_type_wstring_2 = 0x0E

abbrev pub data_type_time : ℕ
data_type_time = 0x0F

abbrev pub data_type_duration : ℕ
data_type_duration = 0x10

abbrev pub data_type_bool_array : ℕ
data_type_bool_array = 0x11

abbrev pub data_type_byte_array : ℕ
data_type_byte_array = 0x12

abbrev pub data_type_short_array : ℕ
data_type_short_array = 0x13

abbrev pub data_type_int_array : ℕ
data_type_int_array = 0x14

abbrev pub data_type_long_array : ℕ
data_type_long_array = 0x15

abbrev pub data_type_long_long_array : ℕ
data_type_long_long_array = 0x16

abbrev pub data_type_float_array : ℕ
data_type_float_array = 0x17

abbrev pub data_type_double_array : ℕ
data_type_double_array = 0x18

abbrev pub data_type_string_array : ℕ
data_type_string_array = 0x19

abbrev pub data_type_wstring_array : ℕ
data_type_wstring_array = 0x1A

abbrev pub data_type_time_array : ℕ
data_type_time_array = 0x1B

abbrev pub data_type_durration_array : ℕ
data_type_durration_array = 0x1C

-- The cases of `debugMessagePrint` for the identifiers of arrays.
unfoldable pub is_array_type : ℕ → Bool
is_array_type dt =
    dt == data_type_bool_array
    || dt == data_type_byte_array
    || dt == data_type_short_array
    || dt == data_type_int_array
    || dt == data_type_long_array
    || dt == data_type_long_long_array
    || dt == data_type_float_array
    || dt == data_type_double_array
    || dt == data_type_string_array
    || dt == data_type_wstring_array
    || dt == data_type_time_array
    || dt == data_type_durration_array

-- The array identifiers run without a gap.
pub is_array_type_lem :
    (dt : ℕ) → is_array_type dt ≡ (leb data_type_bool_array dt && leb dt data_type_durration_array)
unfolding is_array_type
is_array_type_lem dt = ground arith
