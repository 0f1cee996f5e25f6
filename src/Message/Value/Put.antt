-- ===== src/Message/Value/Put.antt =====
-- The functions `put...` against the format: what a call appends when there is room, and how it
-- is refused when there is none.
use kcmsg.Prelude.{
  ℕ, ◌+◌, ◌*◌, ◌^◌, ◌%◌, ◌≤◌, ◌<◌, ◌≡◌, List, [], ◌∷◌, ◌++◌, arith, ltb, length, le→ltb, lt→ltb,
  Bool-cases, inl, inr,
}
use kcmsg.Prelude.Bytes.{le_bytes, mul_size}
use kcmsg.Message.{Message, Outcome, done, throws, exceeded_maximum, max_msg_data, user_data_offset}
use kcmsg.Message.Append.{Appended, append_two, append_three}
use kcmsg.Message.Tag.{
  data_type_bool, data_type_byte, data_type_short, data_type_int, data_type_long,
  data_type_long_long, data_type_float, data_type_double, data_type_char, data_type_wchar,
  data_type_time, data_type_duration, data_type_string_1, data_type_string_2, data_type_wstring_1,
}
use kcmsg.Message.Put.{
  put_value, put_bool, put_byte, put_short, put_int, put_long, put_long_long, put_float, put_double,
  put_char, put_wchar, put_time, put_duration, put_string, put_wstring, wide_bytes,
}
use kcmsg.Message.Value.Text.{length-wide_bytes}
use kcmsg.Message.Value.{
  Value, bool, byte, short, int, long, long_long, float, double, char, wchar, string, wstring, time,
  duration, encode, encode_string, encode_wstring, put, HasSize, IsPlain, bool_byte,
}
use kcmsg.Message.Value.Room.{room_for, room_for_string, no_room_for, no_room_for_string}

-- A call that appends `xs` if the message has room for them.
abbrev Appends : Message → List ℕ → Outcome (Unit {0}) → Type 0
Appends m xs r = (m' : Message) × (r ≡ done tt m') × Appended m xs m'

module _ (m : Message) (lo : user_data_offset ≤ m.data_length) where
  put_value_fits :
      (tag : ℕ) (payload : List ℕ)
      → m.data_length + length (tag ∷ payload) ≤ max_msg_data
      → Appends m (tag ∷ payload) (put_value tag payload m)
  unfolding put_value
  put_value_fits tag payload hi =
      let (m', e, a) = append_two m (tag ∷ []) payload lo (omega arith) in
      (m', rw (room_for m.data_length (length payload) hi) e, a)

  put_string_small :
      (s : List ℕ)
      → length s ≤ 255
      → m.data_length + (2 + length s) ≤ max_msg_data
      → Appends m (data_type_string_1 ∷ (le_bytes 1 (length s) ++ s)) (put_string s m)
  unfolding put_string
  put_string_small s small hi =
      let (m', e, _, a) =
        append_three m (data_type_string_1 ∷ []) (le_bytes 1 (length s)) lo s (omega arith) in
      (m', rw (le→ltb _ _ small, room_for_string m.data_length 1 (length s) (omega arith)) e, a)

  put_string_large :
      (s : List ℕ)
      → 255 < length s
      → m.data_length + (3 + length s) ≤ max_msg_data
      → Appends m (data_type_string_2 ∷ (le_bytes 2 (length s) ++ s)) (put_string s m)
  unfolding put_string
  put_string_large s large hi =
      let (m', e, _, a) =
        append_three m (data_type_string_2 ∷ []) (le_bytes 2 (length s)) lo s (omega arith) in
      let same : length s % 2 ^ 16 ≡ length s = omega arith in
      (
        m',
        rw (lt→ltb _ _ large, room_for_string m.data_length 2 (length s) (omega arith), same) e,
        a,
      )

  put_string_fits :
      (s : List ℕ)
      → m.data_length + length (encode_string s) ≤ max_msg_data
      → Appends m (encode_string s) (put_string s m)
  put_string_fits s hi = elim (Bool-cases (ltb 255 (length s))) [
    | inl big ↦ rw big (put_string_large s (ground arith) (omega (arith, rw big at hi)))
    | inr small ↦ rw small (put_string_small s (ground arith) (omega (arith, rw small at hi)))
  ]

  put_wstring_fits :
      (s : List ℕ)
      → length s ≤ 255
      → m.data_length + length (encode_wstring s) ≤ max_msg_data
      → Appends m (encode_wstring s) (put_wstring s m)
  unfolding put_wstring
  put_wstring_fits s small hi =
      let bound : m.data_length + (2 + length s * 4) ≤ max_msg_data =
        omega (arith, rw (le→ltb 255 (length s) small) at hi, length-wide_bytes s) in
      let (m', e, _, a) =
        append_three m (data_type_wstring_1 ∷ []) (le_bytes 1 (length s)) lo (wide_bytes s)
          (omega (arith, length-wide_bytes s)) in
      let same : length s % 2 ^ 8 % 256 ≡ length s % 256 = omega arith in
      let wide : mul_size (length s) 4 ≡ length s * 4 = omega arith in
      rw (le→ltb 255 (length s) small)
        (m', rw (wide, room_for_string m.data_length 1 (length s * 4) (omega arith), same) e, a)

module _ (m : Message) (hi : m.data_length ≤ max_msg_data) where
  put_value_full :
      (tag : ℕ) (payload : List ℕ)
      → length payload ≤ 8
      → max_msg_data < m.data_length + length (tag ∷ payload)
      → put_value tag payload m ≡ throws exceeded_maximum m
  unfolding put_value
  put_value_full tag payload le full = rw (no_room_for m.data_length _ hi le full)

  put_string_full :
      (s : List ℕ)
      → HasSize (string s)
      → max_msg_data < m.data_length + length (encode_string s)
      → put_string s m ≡ throws exceeded_maximum m
  unfolding put_string
  put_string_full s size full = elim (Bool-cases (ltb 255 (length s))) [
    | inl big ↦ rw (
      big,
      no_room_for_string m.data_length 2 (length s) hi (omega arith) (omega arith)
          (omega (arith, rw big at full)),
    )
    | inr small ↦ rw (
      small,
      no_room_for_string m.data_length 1 (length s) hi (omega arith) (omega arith)
          (omega (arith, rw small at full)),
    )
  ]

  put_wstring_full :
      (s : List ℕ)
      → HasSize (wstring s)
      → max_msg_data < m.data_length + length (encode_wstring s)
      → put_wstring s m ≡ throws exceeded_maximum m
  unfolding put_wstring
  put_wstring_full s size full =
      let wide : mul_size (length s) 4 ≡ length s * 4 = omega arith in
      elim (Bool-cases (ltb 255 (length s))) [
        | inl big ↦ rw (
          big,
          wide,
          no_room_for_string m.data_length 2 (length s * 4) hi (omega arith) (omega arith)
              (omega (arith, rw big at full, length-wide_bytes s)),
        )
        | inr small ↦ rw (
          small,
          wide,
          no_room_for_string m.data_length 1 (length s * 4) hi (omega arith) (omega arith)
              (omega (arith, rw small at full, length-wide_bytes s)),
        )
      ]

-- A call with room for the value appends exactly the bytes of its format, updates the length field
-- of the header, and leaves the header and all other bytes as they are. This holds of all values
-- but wide strings of more than 255 characters.
pub put_fits :
    (m : Message) (v : Value)
    → user_data_offset ≤ m.data_length
    → IsPlain v
    → m.data_length + length (encode v) ≤ max_msg_data
    → (m' : Message) × (put v m ≡ done tt m') × Appended m (encode v) m'
unfolding put put_bool put_byte put_short put_int put_long put_long_long put_float put_double
    put_char put_wchar put_time put_duration
put_fits m (string s) lo plain hi = put_string_fits m lo s hi
put_fits m (wstring s) lo plain hi = put_wstring_fits m lo s plain hi
put_fits m (bool b) lo plain hi = put_value_fits m lo data_type_bool (bool_byte b ∷ []) hi
put_fits m (byte v) lo plain hi = put_value_fits m lo data_type_byte (le_bytes 1 v) hi
put_fits m (short v) lo plain hi = put_value_fits m lo data_type_short (le_bytes 2 v) hi
put_fits m (int v) lo plain hi = put_value_fits m lo data_type_int (le_bytes 4 v) hi
put_fits m (long v) lo plain hi = put_value_fits m lo data_type_long (le_bytes 4 v) hi
put_fits m (long_long v) lo plain hi = put_value_fits m lo data_type_long_long (le_bytes 8 v) hi
put_fits m (float v) lo plain hi = put_value_fits m lo data_type_float (le_bytes 4 v) hi
put_fits m (double v) lo plain hi = put_value_fits m lo data_type_double (le_bytes 8 v) hi
put_fits m (char v) lo plain hi = put_value_fits m lo data_type_char (le_bytes 1 v) hi
put_fits m (wchar v) lo plain hi = put_value_fits m lo data_type_wchar (le_bytes 4 v) hi
put_fits m (time v) lo plain hi = put_value_fits m lo data_type_time (le_bytes 8 v) hi
put_fits m (duration v) lo plain hi = put_value_fits m lo data_type_duration (le_bytes 4 v) hi

-- A call without room throws the `domain_error` and leaves the message as it is.
pub put_full :
    (m : Message) (v : Value)
    → m.data_length ≤ max_msg_data
    → HasSize v
    → max_msg_data < m.data_length + length (encode v)
    → put v m ≡ throws exceeded_maximum m
unfolding put put_bool put_byte put_short put_int put_long put_long_long put_float put_double
    put_char put_wchar put_time put_duration
put_full m (string s) hi size full = put_string_full m hi s size full
put_full m (wstring s) hi size full = put_wstring_full m hi s size full
put_full m (bool b) hi size full =
    put_value_full m hi data_type_bool (bool_byte b ∷ []) (omega arith) full
put_full m (byte v) hi size full =
    put_value_full m hi data_type_byte (le_bytes 1 v) (omega arith) full
put_full m (short v) hi size full =
    put_value_full m hi data_type_short (le_bytes 2 v) (omega arith) full
put_full m (int v) hi size full =
    put_value_full m hi data_type_int (le_bytes 4 v) (omega arith) full
put_full m (long v) hi size full =
    put_value_full m hi data_type_long (le_bytes 4 v) (omega arith) full
put_full m (long_long v) hi size full =
    put_value_full m hi data_type_long_long (le_bytes 8 v) (omega arith) full
put_full m (float v) hi size full =
    put_value_full m hi data_type_float (le_bytes 4 v) (omega arith) full
put_full m (double v) hi size full =
    put_value_full m hi data_type_double (le_bytes 8 v) (omega arith) full
put_full m (char v) hi size full =
    put_value_full m hi data_type_char (le_bytes 1 v) (omega arith) full
put_full m (wchar v) hi size full =
    put_value_full m hi data_type_wchar (le_bytes 4 v) (omega arith) full
put_full m (time v) hi size full =
    put_value_full m hi data_type_time (le_bytes 8 v) (omega arith) full
put_full m (duration v) hi size full =
    put_value_full m hi data_type_duration (le_bytes 4 v) (omega arith) full
