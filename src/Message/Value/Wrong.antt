-- ===== src/Message/Value/Wrong.antt =====
-- The functions `get...` of src/Message.cpp before a value of another kind: the assertion fails.
use kcmsg.Prelude.{ℕ, ◌+◌, ◌*◌, ◌≤◌, ◌≡◌, ◌≢◌, refl, Option, arith, le→leb, ne→==}
use kcmsg.Buffer.{Buffer, load}
use kcmsg.Message.{Message, M, pure, aborts, ◌>>=◌, max_msg_data, copy_out, advance}
use kcmsg.Message.Tag.{
  data_type_bool, data_type_byte, data_type_short, data_type_int, data_type_long,
  data_type_long_long, data_type_float, data_type_double, data_type_char, data_type_wchar,
  data_type_string_1, data_type_string_2, data_type_wstring_1, data_type_wstring_2, data_type_time,
  data_type_duration,
}
use kcmsg.Message.Get.{
  take_bytes, get_value, get_string_length, get_bool, get_byte, get_short, get_int, get_long,
  get_long_long, get_float, get_double, get_char, get_wchar, get_string, get_wstring, get_time,
  get_duration,
}
use kcmsg.Message.Value.{
  Value, bool, byte, short, int, long, long_long, float, double, char, wchar, string, wstring, time,
  duration,
}

abbrev pub as_value {ℓ} : {A : Type ℓ} → (A → Value) → M A → M Value
as_value f get = do v ← get; pure (f v)

-- The function for values of the kind of `v`, whatever `v` is.
abbrev pub get_like : (ℕ → Option Buffer) → Value → M Value
get_like malloc (bool v) = as_value bool get_bool
get_like malloc (byte v) = as_value byte get_byte
get_like malloc (short v) = as_value short get_short
get_like malloc (int v) = as_value int get_int
get_like malloc (long v) = as_value long get_long
get_like malloc (long_long v) = as_value long_long get_long_long
get_like malloc (float v) = as_value float get_float
get_like malloc (double v) = as_value double get_double
get_like malloc (char v) = as_value char get_char
get_like malloc (wchar v) = as_value wchar get_wchar
get_like malloc (string s) = as_value string (get_string malloc)
get_like malloc (wstring s) = as_value wstring (get_wstring malloc)
get_like malloc (time v) = as_value time get_time
get_like malloc (duration v) = as_value duration get_duration

-- No identifier of the kind of `v`.
abbrev pub IsOther : Value → ℕ → Type 0
IsOther (bool v) t = t ≢ data_type_bool
IsOther (byte v) t = t ≢ data_type_byte
IsOther (short v) t = t ≢ data_type_short
IsOther (int v) t = t ≢ data_type_int
IsOther (long v) t = t ≢ data_type_long
IsOther (long_long v) t = t ≢ data_type_long_long
IsOther (float v) t = t ≢ data_type_float
IsOther (double v) t = t ≢ data_type_double
IsOther (char v) t = t ≢ data_type_char
IsOther (wchar v) t = t ≢ data_type_wchar
IsOther (string s) t = (t ≢ data_type_string_1) × (t ≢ data_type_string_2)
IsOther (wstring s) t = (t ≢ data_type_wstring_1) × (t ≢ data_type_wstring_2)
IsOther (time v) t = t ≢ data_type_time
IsOther (duration v) t = t ≢ data_type_duration

module _ (malloc : ℕ → Option Buffer) (m : Message) (inside : m.offset + 1 ≤ max_msg_data) where
  get_value_other : (tag size : ℕ) → m.bytes m.offset ≢ tag → get_value tag size m ≡ aborts
  unfolding get_value take_bytes copy_out advance load
  get_value_other tag size h =
      let value : m.bytes m.offset + 256 * 0 ≡ m.bytes m.offset = omega arith in
      rw (le→leb (m.offset + 1) max_msg_data inside, value, ne→== (m.bytes m.offset) tag h) refl

  get_string_length_other :
      (tag_1 tag_2 : ℕ)
      → m.bytes m.offset ≢ tag_1
      → m.bytes m.offset ≢ tag_2
      → get_string_length tag_1 tag_2 m ≡ aborts
  unfolding get_string_length take_bytes copy_out advance load
  get_string_length_other tag_1 tag_2 h_1 h_2 =
      let value : m.bytes m.offset + 256 * 0 ≡ m.bytes m.offset = omega arith in
      rw
        (
          le→leb (m.offset + 1) max_msg_data inside,
          value,
          ne→== (m.bytes m.offset) tag_1 h_1,
          ne→== (m.bytes m.offset) tag_2 h_2,
        )
        refl

  -- A get function fails its assertion where another identifier than its own stands in the block,
  -- whatever follows.
  pub get_like-IsOther : (v : Value) → IsOther v (m.bytes m.offset) → get_like malloc v m ≡ aborts
  unfolding get_bool get_byte get_short get_int get_long get_long_long get_float get_double get_char
      get_wchar get_string get_wstring get_time get_duration
  get_like-IsOther (bool v) h = rw (get_value_other data_type_bool 1 h) refl
  get_like-IsOther (byte v) h = rw (get_value_other data_type_byte 1 h) refl
  get_like-IsOther (short v) h = rw (get_value_other data_type_short 2 h) refl
  get_like-IsOther (int v) h = rw (get_value_other data_type_int 4 h) refl
  get_like-IsOther (long v) h = rw (get_value_other data_type_long 2 h) refl
  get_like-IsOther (long_long v) h = rw (get_value_other data_type_long_long 8 h) refl
  get_like-IsOther (float v) h = rw (get_value_other data_type_float 4 h) refl
  get_like-IsOther (double v) h = rw (get_value_other data_type_double 8 h) refl
  get_like-IsOther (char v) h = rw (get_value_other data_type_char 1 h) refl
  get_like-IsOther (wchar v) h = rw (get_value_other data_type_wchar 4 h) refl
  get_like-IsOther (string s) (h_1, h_2) =
      rw (get_string_length_other data_type_string_1 data_type_string_2 h_1 h_2) refl
  get_like-IsOther (wstring s) (h_1, h_2) =
      rw (get_string_length_other data_type_wstring_1 data_type_wstring_2 h_1 h_2) refl
  get_like-IsOther (time v) h = rw (get_value_other data_type_time 8 h) refl
  get_like-IsOther (duration v) h = rw (get_value_other data_type_duration 4 h) refl
