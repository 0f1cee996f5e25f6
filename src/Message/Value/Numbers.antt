-- ===== src/Message/Value/Numbers.antt =====
-- What the functions `get...` of src/Message.cpp for one value of a fixed size do on any memory.
use kcmsg.Prelude.{
  ℕ, suc, ◌+◌, ◌*◌, ◌≤◌, ◌≡◌, refl, ap, Option, arith, ◌==◌, le→leb, if◌then◌else◌, Bool-cases, inl,
  inr,
}
use mathlib.Core.Bool.{not}
use kcmsg.Prelude.Bytes.{add_size, le_value, sign_extend}
use kcmsg.Buffer.{Buffer, load}
use kcmsg.Message.{Message, M, pure, done, aborts, bind_outcome, max_msg_data, copy_out, advance}
use kcmsg.Message.Read.{skip, skip-skip}
use kcmsg.Message.Tag.{
  data_type_bool, data_type_byte, data_type_short, data_type_int, data_type_long,
  data_type_long_long, data_type_float, data_type_double, data_type_char, data_type_wchar,
  data_type_string_1, data_type_wstring_1, data_type_time, data_type_duration,
}
use kcmsg.Message.Get.{
  take_bytes, get_value, get_bool, get_byte, get_short, get_int, get_long, get_long_long, get_float,
  get_double, get_char, get_wchar, get_time, get_duration,
}
use kcmsg.Message.Value.{
  Value, bool, byte, short, int, long, long_long, float, double, char, wchar, string, wstring, time,
  duration,
}
use kcmsg.Message.Value.Wrong.{get_like}

-- The identifier of the kind.
abbrev pub tag_of : Value → ℕ
tag_of (bool v) = data_type_bool
tag_of (byte v) = data_type_byte
tag_of (short v) = data_type_short
tag_of (int v) = data_type_int
tag_of (long v) = data_type_long
tag_of (long_long v) = data_type_long_long
tag_of (float v) = data_type_float
tag_of (double v) = data_type_double
tag_of (char v) = data_type_char
tag_of (wchar v) = data_type_wchar
tag_of (string s) = data_type_string_1
tag_of (wstring s) = data_type_wstring_1
tag_of (time v) = data_type_time
tag_of (duration v) = data_type_duration

-- The number of bytes that the function reads after the identifier.
abbrev pub width : Value → ℕ
width (bool v) = 1
width (byte v) = 1
width (short v) = 2
width (int v) = 4
width (long v) = 2
width (long_long v) = 8
width (float v) = 4
width (double v) = 8
width (char v) = 1
width (wchar v) = 4
width (string s) = 0
width (wstring s) = 0
width (time v) = 8
width (duration v) = 4

-- The value of the kind for the number in these bytes.
abbrev pub value_of : Value → ℕ → Value
value_of (bool v) n = bool (not (n == 0))
value_of (byte v) n = byte n
value_of (short v) n = short n
value_of (int v) n = int n
value_of (long v) n = long (sign_extend 16 32 n)
value_of (long_long v) n = long_long n
value_of (float v) n = float n
value_of (double v) n = double n
value_of (char v) n = char n
value_of (wchar v) n = wchar n
value_of (string s) n = string s
value_of (wstring s) n = wstring s
value_of (time v) n = time n
value_of (duration v) n = duration n

-- All kinds but the strings.
abbrev pub IsNumber : Value → Type 0
IsNumber (string s) = ⊥
IsNumber (wstring s) = ⊥
IsNumber v = Unit

-- The outcome of reading `size` bytes after the identifier `tag`.
abbrev pub number_at {ℓ} : {A : Type ℓ} → (ℕ → A) → ℕ → ℕ → M A
number_at f tag size m =
    if m.bytes m.offset == tag
    then done (f (le_value (load m.bytes (m.offset + 1) size))) (skip (suc size) m)
    else aborts

take_bytes_inside :
    (n : ℕ) (m : Message)
    → m.offset + n ≤ max_msg_data
    → take_bytes n m ≡ done (load m.bytes m.offset n) (skip n m)
unfolding take_bytes copy_out advance
take_bytes_inside n m inside =
    let same : add_size m.offset n ≡ m.offset + n = omega arith in
    rw (le→leb (m.offset + n) max_msg_data inside, same) refl

get_value_number :
    (tag size : ℕ) (m : Message)
    → m.offset + 1 + size ≤ max_msg_data
    → get_value tag size m ≡ number_at (λ n. n) tag size m
unfolding get_value load
get_value_number tag size m inside =
    let value : m.bytes m.offset + 256 * 0 ≡ m.bytes m.offset = omega arith in
    elim (Bool-cases (m.bytes m.offset == tag)) [
      | inl e ↦
          rw
            (
              take_bytes_inside 1 m (omega arith),
              value,
              e,
              take_bytes_inside size (skip 1 m) inside,
            )
            (ap (done (le_value (load m.bytes (m.offset + 1) size)))
              (skip-skip m 1 size (suc size) (omega arith)))
      | inr e ↦ rw (take_bytes_inside 1 m (omega arith), value, e) refl
    ]

-- The rest of a get function, after the common part.
number_then {ℓ κ} :
    {A : Type ℓ} {B : Type κ} (c : M A) (f : ℕ → A) (k : A → B) (tag size : ℕ) (m : Message)
    → c m ≡ number_at f tag size m
    → bind_outcome (c m) (λ a. pure (k a)) ≡ number_at (λ n. k (f n)) tag size m
number_then c f k tag size m e = elim (Bool-cases (m.bytes m.offset == tag)) [
  | inl t ↦ rw (e, t) refl
  | inr t ↦ rw (e, t) refl
]

-- The get function for a kind of a fixed size, called with the value within the block: where the
-- identifier of the kind stands, it returns the value of the bytes behind it and moves the offset
-- past them; where another stands, it fails its assertion. A `long` is the sign extension of two
-- bytes.
pub get_like_number :
    (malloc : ℕ → Option Buffer) (v : Value) (m : Message)
    → IsNumber v
    → m.offset + 1 + width v ≤ max_msg_data
    → get_like malloc v m ≡ number_at (value_of v) (tag_of v) (width v) m
unfolding get_bool get_byte get_short get_int get_long get_long_long get_float get_double get_char
    get_wchar get_time get_duration
get_like_number malloc (bool v) m k inside =
    number_then get_bool (λ n. not (n == 0)) bool data_type_bool 1 m
      (number_then (get_value data_type_bool 1) (λ n. n) (λ n. not (n == 0)) data_type_bool 1 m
        (get_value_number data_type_bool 1 m inside))
get_like_number malloc (byte v) m k inside =
    number_then get_byte (λ n. n) byte data_type_byte 1 m
      (get_value_number data_type_byte 1 m inside)
get_like_number malloc (short v) m k inside =
    number_then get_short (λ n. n) short data_type_short 2 m
      (get_value_number data_type_short 2 m inside)
get_like_number malloc (int v) m k inside =
    number_then get_int (λ n. n) int data_type_int 4 m (get_value_number data_type_int 4 m inside)
get_like_number malloc (long v) m k inside =
    number_then get_long (λ n. sign_extend 16 32 n) long data_type_long 2 m
      (number_then (get_value data_type_long 2) (λ n. n) (λ n. sign_extend 16 32 n) data_type_long 2
        m (get_value_number data_type_long 2 m inside))
get_like_number malloc (long_long v) m k inside =
    number_then get_long_long (λ n. n) long_long data_type_long_long 8 m
      (get_value_number data_type_long_long 8 m inside)
get_like_number malloc (float v) m k inside =
    number_then get_float (λ n. n) float data_type_float 4 m
      (get_value_number data_type_float 4 m inside)
get_like_number malloc (double v) m k inside =
    number_then get_double (λ n. n) double data_type_double 8 m
      (get_value_number data_type_double 8 m inside)
get_like_number malloc (char v) m k inside =
    number_then get_char (λ n. n) char data_type_char 1 m
      (get_value_number data_type_char 1 m inside)
get_like_number malloc (wchar v) m k inside =
    number_then get_wchar (λ n. n) wchar data_type_wchar 4 m
      (get_value_number data_type_wchar 4 m inside)
get_like_number malloc (string v) m k inside = absurd k
get_like_number malloc (wstring v) m k inside = absurd k
get_like_number malloc (time v) m k inside =
    number_then get_time (λ n. n) time data_type_time 8 m
      (get_value_number data_type_time 8 m inside)
get_like_number malloc (duration v) m k inside =
    number_then get_duration (λ n. n) duration data_type_duration 4 m
      (get_value_number data_type_duration 4 m inside)
