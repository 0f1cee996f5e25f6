-- ===== src/Message/Value.antt =====
-- The values that a message carries, one constructor for each function `put...`, and the bytes
-- that the format of src/Message.cpp gives each: an identifier, for strings a length, the value.
-- This is the description that the functions are held against.
pub mod Room
pub mod Put
pub mod Text
pub mod Readable
pub mod Get
pub mod Signed
pub mod LongWide
pub mod Wrong
pub mod Numbers
pub mod Unterminated
pub mod Typed
mod Tests
use kcmsg.Prelude.{ℕ, ◌+◌, ◌*◌, ◌≤◌, ◌<◌, Bool, List, [], ◌∷◌, ◌++◌, ltb, if◌then◌else◌, length}
use kcmsg.Prelude.Bytes.{le_bytes}
use kcmsg.Message.{M}
use kcmsg.Message.Tag.{
  data_type_bool, data_type_byte, data_type_short, data_type_int, data_type_long,
  data_type_long_long, data_type_float, data_type_double, data_type_char, data_type_wchar,
  data_type_string_1, data_type_string_2, data_type_wstring_1, data_type_wstring_2, data_type_time,
  data_type_duration,
}
use kcmsg.Message.Put.{
  put_bool, put_byte, put_short, put_int, put_long, put_long_long, put_float, put_double, put_char,
  put_wchar, put_string, put_wstring, put_time, put_duration, wide_bytes,
}

pub data Value : Type 0 where
  bool : Bool → Value
  byte : ℕ → Value
  short : ℕ → Value
  int : ℕ → Value
  long : ℕ → Value
  long_long : ℕ → Value
  float : ℕ → Value
  double : ℕ → Value
  char : ℕ → Value
  wchar : ℕ → Value
  string : List ℕ → Value
  wstring : List ℕ → Value
  time : ℕ → Value
  duration : ℕ → Value

abbrev pub bool_byte : Bool → ℕ
bool_byte b = if b then 1 else 0

abbrev pub encode_string : List ℕ → List ℕ
encode_string s =
    if ltb 255 (length s)
    then data_type_string_2 ∷ (le_bytes 2 (length s) ++ s)
    else data_type_string_1 ∷ (le_bytes 1 (length s) ++ s)

abbrev pub encode_wstring : List ℕ → List ℕ
encode_wstring s =
    if ltb 255 (length s)
    then data_type_wstring_2 ∷ (le_bytes 2 (length s) ++ wide_bytes s)
    else data_type_wstring_1 ∷ (le_bytes 1 (length s) ++ wide_bytes s)

abbrev pub encode : Value → List ℕ
encode (bool b) = data_type_bool ∷ bool_byte b ∷ []
encode (byte v) = data_type_byte ∷ le_bytes 1 v
encode (short v) = data_type_short ∷ le_bytes 2 v
encode (int v) = data_type_int ∷ le_bytes 4 v
encode (long v) = data_type_long ∷ le_bytes 4 v
encode (long_long v) = data_type_long_long ∷ le_bytes 8 v
encode (float v) = data_type_float ∷ le_bytes 4 v
encode (double v) = data_type_double ∷ le_bytes 8 v
encode (char v) = data_type_char ∷ le_bytes 1 v
encode (wchar v) = data_type_wchar ∷ le_bytes 4 v
encode (string s) = encode_string s
encode (wstring s) = encode_wstring s
encode (time v) = data_type_time ∷ le_bytes 8 v
encode (duration v) = data_type_duration ∷ le_bytes 4 v

-- A caller's choice of the function for its value.
unfoldable pub put : Value → M (Unit {0})
put (bool b) = put_bool b
put (byte v) = put_byte v
put (short v) = put_short v
put (int v) = put_int v
put (long v) = put_long v
put (long_long v) = put_long_long v
put (float v) = put_float v
put (double v) = put_double v
put (char v) = put_char v
put (wchar v) = put_wchar v
put (string s) = put_string s
put (wstring s) = put_wstring s
put (time v) = put_time v
put (duration v) = put_duration v

-- The strings that can exist: fewer than 2 ^ 61 characters, below `max_size()` of both classes.
abbrev pub HasSize : Value → Type 0
HasSize (string s) = length s < 0x2000_0000_0000_0000
HasSize (wstring s) = length s < 0x2000_0000_0000_0000
HasSize v = Unit

-- All values but the wide strings of more than 255 characters.
abbrev pub IsPlain : Value → Type 0
IsPlain (wstring s) = length s ≤ 255
IsPlain v = Unit
