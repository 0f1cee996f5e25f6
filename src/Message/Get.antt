-- ===== src/Message/Get.antt =====
-- The functions `get...` of src/Message.cpp, which read the value at the offset, and `getDataType`.
-- `malloc` stands for the C library's: the block that it returns for a size, by what the block
-- holds, or none.
use kcmsg.Prelude.{
  ℕ, ◌*◌, Bool, List, [], ◌∷◌, ◌++◌, Option, none, some, ltb, ◌==◌, ◌||◌, if◌then◌else◌,
}
use mathlib.Core.Bool.{not}
use kcmsg.Prelude.Bytes.{add_size, mul_size, le_value, sign_extend}
use kcmsg.Buffer.{Buffer, load}
use kcmsg.Message.{M, pure, assert, aborts, faults, done, copy_out, advance, ◌>>=◌, ◌>>◌}
use kcmsg.Message.Tag.{
  data_type_bool, data_type_byte, data_type_short, data_type_int, data_type_long,
  data_type_long_long, data_type_float, data_type_double, data_type_char, data_type_wchar,
  data_type_string_1, data_type_string_2, data_type_wstring_1, data_type_wstring_2, data_type_time,
  data_type_duration,
}

-- `memcpy(x, &data[offset], n); offset += n`
unfoldable pub take_bytes : ℕ → M (List ℕ)
take_bytes n m = (do bs ← copy_out m.offset n; advance n; pure bs) m

-- The identifier that stands next, without moving the offset.
unfoldable pub get_data_type : M ℕ
get_data_type m = (do bs ← copy_out m.offset 1; pure (le_value bs)) m

-- The shape that the functions for one value of a fixed size share. The identifier is read into
-- an `int8_t`, which equals one of the constants exactly if the byte does.
unfoldable pub get_value : ℕ → ℕ → M ℕ
get_value tag size = do
  data_type ← take_bytes 1
  assert (le_value data_type == tag)
  bs ← take_bytes size
  pure (le_value bs)

unfoldable pub get_bool : M Bool
get_bool = do val ← get_value data_type_bool 1; pure (not (val == 0))

unfoldable pub get_byte : M ℕ
get_byte = get_value data_type_byte 1

unfoldable pub get_short : M ℕ
get_short = get_value data_type_short 2

unfoldable pub get_int : M ℕ
get_int = get_value data_type_int 4

-- The buffer is a `little_int16_buf_t`.
unfoldable pub get_long : M ℕ
get_long = do nval ← get_value data_type_long 2; pure (sign_extend 16 32 nval)

unfoldable pub get_long_long : M ℕ
get_long_long = get_value data_type_long_long 8

unfoldable pub get_float : M ℕ
get_float = get_value data_type_float 4

unfoldable pub get_double : M ℕ
get_double = get_value data_type_double 8

unfoldable pub get_char : M ℕ
get_char = get_value data_type_char 1

unfoldable pub get_wchar : M ℕ
get_wchar = get_value data_type_wchar 4

unfoldable pub get_time : M ℕ
get_time = get_value data_type_time 8

unfoldable pub get_duration : M ℕ
get_duration = get_value data_type_duration 4

-- The characters up to the first zero; none if the block ends before.
abbrev pub c_string : List ℕ → Option (List ℕ)
c_string [] = none
c_string (c ∷ cs) =
    let rest = c_string cs in
    if c == 0 then some [] else elim rest [ none ↦ none | some s ↦ some (c ∷ s) ]

-- The characters of 4 bytes that a block holds.
abbrev pub wide_chars : List ℕ → List ℕ
wide_chars (a ∷ b ∷ c ∷ d ∷ rest) = le_value (a ∷ b ∷ c ∷ d ∷ []) ∷ wide_chars rest
wide_chars _ = []

-- `val.assign(ptr)`, which reads past the block if no zero stands in it.
abbrev pub assign : Option (List ℕ) → M (List ℕ)
assign none m = faults
assign (some s) m = done s m

-- The length of a string, a signed number of `w` bytes, as a `size_t`.
unfoldable pub get_length : ℕ → M ℕ
get_length w = do len ← take_bytes w; pure (sign_extend (w * 8) 64 (le_value len))

-- Both `getString` and `getWString` take the short length after the first of their identifiers, and
-- the long one after the second; the assertion leaves no other.
unfoldable pub get_string_length : ℕ → ℕ → M ℕ
get_string_length tag_1 tag_2 = do
  data_type ← take_bytes 1
  assert (le_value data_type == tag_1 || le_value data_type == tag_2)
  if le_value data_type == tag_1 then get_length 1 else get_length 2

-- `assert(ptr != nullptr)`, the clearing of the block, and the copy into it.
unfoldable pub copy_string : Option Buffer → ℕ → M (List ℕ)
copy_string none n m = aborts
copy_string (some block) n m =
    if ltb (add_size n 1) n
    then faults
    else (do bs ← take_bytes n; assign (c_string (bs ++ (0 ∷ [])))) m

-- The block after `memset(ptr, 0, n)`.
abbrev pub cleared : ℕ → Buffer → Buffer
cleared n block i = if ltb i n then 0 else block i

-- The `memset` of a null pointer is undefined, and clears a quarter of the block only. The last
-- character of the block keeps what `malloc` left in the rest.
unfoldable pub copy_wstring : Option Buffer → ℕ → M (List ℕ)
copy_wstring none n m = faults
copy_wstring (some block) n m =
    let size = mul_size (add_size n 1) 4 in
    if ltb size (add_size n 1) || ltb size (mul_size n 4)
    then faults
    else (do
      bs ← take_bytes (mul_size n 4)
      assign (c_string (wide_chars (bs ++ load (cleared (add_size n 1) block) (mul_size n 4) 4))))
        m

module _ (malloc : ℕ → Option Buffer) where
  unfoldable pub get_string : M (List ℕ)
  get_string = do
    string_len ← get_string_length data_type_string_1 data_type_string_2
    copy_string (malloc (add_size string_len 1)) string_len

  unfoldable pub get_wstring : M (List ℕ)
  get_wstring = do
    wstring_len ← get_string_length data_type_wstring_1 data_type_wstring_2
    copy_wstring (malloc (mul_size (add_size wstring_len 1) 4)) wstring_len
