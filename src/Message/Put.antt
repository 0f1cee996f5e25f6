-- ===== src/Message/Put.antt =====
-- The functions `put...` of src/Message.cpp, which append a value to the message.
-- An integer, a float or a character is the pattern of its bits, a string the list of its
-- characters; `wchar_t` and `float` are 4 bytes wide, `time_t`, `double` and `size_t` 8.
use kcmsg.Prelude.{ℕ, ◌%◌, ◌^◌, Bool, List, [], ◌∷◌, ◌++◌, ltb, leb, if◌then◌else◌, length}
use kcmsg.Prelude.Bytes.{add_size, mul_size, le_bytes}
use kcmsg.Message.{Message, M, throws, done, exceeded_maximum, max_msg_data, append, ◌>>◌}
use kcmsg.Message.Tag.{
  data_type_bool, data_type_byte, data_type_short, data_type_int, data_type_long,
  data_type_long_long, data_type_float, data_type_double, data_type_char, data_type_wchar,
  data_type_string_1, data_type_string_2, data_type_wstring_1, data_type_wstring_2, data_type_time,
  data_type_duration,
}

-- The test before a write of an identifier and `n` bytes.
unfoldable pub has_room : ℕ → Message → Bool
has_room n m = leb (add_size (add_size m.data_length 1) n) max_msg_data

-- The shape that the functions for one value of a fixed size share.
unfoldable pub put_value : ℕ → List ℕ → M (Unit {0})
unfolding has_room
put_value tag payload m =
    if has_room (length payload) m
    then (do append (tag ∷ []); append payload) m
    else throws exceeded_maximum m

unfoldable pub put_bool : Bool → M (Unit {0})
unfolding put_value
put_bool val = put_value data_type_bool ((if val then 1 else 0) ∷ [])

unfoldable pub put_byte : ℕ → M (Unit {0})
unfolding put_value
put_byte val = put_value data_type_byte (le_bytes 1 val)

unfoldable pub put_short : ℕ → M (Unit {0})
unfolding put_value
put_short val = put_value data_type_short (le_bytes 2 val)

unfoldable pub put_int : ℕ → M (Unit {0})
unfolding put_value
put_int val = put_value data_type_int (le_bytes 4 val)

unfoldable pub put_long : ℕ → M (Unit {0})
unfolding put_value
put_long val = put_value data_type_long (le_bytes 4 val)

unfoldable pub put_long_long : ℕ → M (Unit {0})
unfolding put_value
put_long_long val = put_value data_type_long_long (le_bytes 8 val)

unfoldable pub put_float : ℕ → M (Unit {0})
unfolding put_value
put_float val = put_value data_type_float (le_bytes 4 val)

unfoldable pub put_double : ℕ → M (Unit {0})
unfolding put_value
put_double val = put_value data_type_double (le_bytes 8 val)

unfoldable pub put_char : ℕ → M (Unit {0})
unfolding put_value
put_char val = put_value data_type_char (le_bytes 1 val)

unfoldable pub put_wchar : ℕ → M (Unit {0})
unfolding put_value
put_wchar val = put_value data_type_wchar (le_bytes 4 val)

unfoldable pub put_time : ℕ → M (Unit {0})
unfolding put_value
put_time val = put_value data_type_time (le_bytes 8 val)

unfoldable pub put_duration : ℕ → M (Unit {0})
unfolding put_value
put_duration val = put_value data_type_duration (le_bytes 4 val)

-- The characters of a wide string in memory.
abbrev pub wide_bytes : List ℕ → List ℕ
wide_bytes [] = []
wide_bytes (c ∷ cs) = le_bytes 4 c ++ wide_bytes cs

-- The two branches of `putString` differ in the identifier, and in the bytes that hold the length.
unfoldable pub put_string : List ℕ → M (Unit {0})
put_string val m =
    let l = length val in
    if ltb 255 l
    then (if leb (add_size (add_size (add_size m.data_length 1) 2) l) max_msg_data
        then (do append (data_type_string_2 ∷ []); append (le_bytes 2 (l % 2 ^ 16)); append val) m
        else throws exceeded_maximum m)
    else (if leb (add_size (add_size (add_size m.data_length 1) 1) l) max_msg_data
        then (do append (data_type_string_1 ∷ []); append (le_bytes 1 l); append val) m
        else throws exceeded_maximum m)

-- `data_length += l * sizeof(wchar_t)`, the last statement of the branch for long strings.
unfoldable pub add_data_length : ℕ → M (Unit {0})
add_data_length n m = done tt (record m { data_length = add_size m.data_length n })

unfoldable pub put_wstring : List ℕ → M (Unit {0})
put_wstring val m =
    let l = length val in
    let wide = mul_size l 4 in
    if ltb 255 l
    then (if leb (add_size (add_size (add_size m.data_length 1) 2) wide) max_msg_data
        then (do
          append (data_type_wstring_2 ∷ [])
          append (le_bytes 2 (l % 2 ^ 16))
          append (wide_bytes val)
          add_data_length wide)
            m
        else throws exceeded_maximum m)
    else (if leb (add_size (add_size (add_size m.data_length 1) 1) wide) max_msg_data
        then (do
          append (data_type_wstring_1 ∷ [])
          append (le_bytes 1 (l % 2 ^ 8))
          append (wide_bytes val))
            m
        else throws exceeded_maximum m)
