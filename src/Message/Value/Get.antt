-- ===== src/Message/Value/Get.antt =====
-- The functions `get...` against the format: the `switch` of `debugMessagePrint` calls the one for
-- the identifier that stands next, and it returns the value whose bytes stand there.
use kcmsg.Prelude.{
  ℕ, ◌≡◌, inl, inr, ap, ◌∙◌, ◌<◌, ◌^◌, true, false, [], ◌∷◌, some, arith, length, ltb, le→ltb,
  lt→ltb,
}
use kcmsg.Prelude.Bytes.{le_bytes, le_value-le_bytes}
use kcmsg.Message.Host.{Host, Tm}
use kcmsg.Message.{Message, done}
use kcmsg.Message.Tag.{
  data_type_bool, data_type_byte, data_type_short, data_type_int, data_type_long_long,
  data_type_float, data_type_double, data_type_char, data_type_wchar, data_type_time,
  data_type_duration, data_type_string_1, data_type_string_2, data_type_wstring_1,
}
use kcmsg.Message.Get.{
  get_bool, get_byte, get_short, get_int, get_long_long, get_float, get_double, get_char, get_wchar,
  get_time, get_duration,
}
use kcmsg.Message.Read.{StartsWith, skip, get_value_lem, get_data_type_lem}
use kcmsg.Message.Print.{print_item, shown_time}
use kcmsg.Message.Value.{
  Value, bool, byte, short, int, long, long_long, float, double, char, wchar, string, wstring, time,
  duration, encode,
}
use kcmsg.Message.Value.Text.{length-wide_bytes}
use kcmsg.Message.Value.Readable.{IsReadable, get_string_small, get_string_large, get_wstring_small}

-- The readable values, but for times that `gmtime` has no fields for. Not among them are every `long`,
-- strings of 128 to 255 characters and of more than 32767, and wide strings of more than 127.
abbrev pub IsPrintable : Host → Value → Type 0
IsPrintable host (time v) = (v < 2 ^ 64) × (fields : Tm) × (host.gmtime v ≡ some fields)
IsPrintable host v = IsReadable host.malloc v

pub print_item_lem :
    (host : Host) {m : Message} (v : Value)
    → IsPrintable host v
    → StartsWith m (encode v)
    → print_item host m ≡ done (some v) (skip (length (encode v)) m)
unfolding print_item shown_time get_bool get_byte get_short get_int get_long_long get_float
    get_double get_char get_wchar get_time get_duration
print_item_lem host (bool true) r h =
    rw (get_data_type_lem data_type_bool _ h, get_value_lem data_type_bool (1 ∷ []) h)
print_item_lem host (bool false) r h =
    rw (get_data_type_lem data_type_bool _ h, get_value_lem data_type_bool (0 ∷ []) h)
print_item_lem host (long v) r h = absurd r
print_item_lem host (byte v) r h = rw (
  get_data_type_lem data_type_byte _ h,
  get_value_lem data_type_byte (le_bytes 1 v) h,
  le_value-le_bytes 1 v r,
)
print_item_lem host (short v) r h = rw (
  get_data_type_lem data_type_short _ h,
  get_value_lem data_type_short (le_bytes 2 v) h,
  le_value-le_bytes 2 v r,
)
print_item_lem host (int v) r h = rw (
  get_data_type_lem data_type_int _ h,
  get_value_lem data_type_int (le_bytes 4 v) h,
  le_value-le_bytes 4 v r,
)
print_item_lem host (long_long v) r h = rw (
  get_data_type_lem data_type_long_long _ h,
  get_value_lem data_type_long_long (le_bytes 8 v) h,
  le_value-le_bytes 8 v r,
)
print_item_lem host (float v) r h = rw (
  get_data_type_lem data_type_float _ h,
  get_value_lem data_type_float (le_bytes 4 v) h,
  le_value-le_bytes 4 v r,
)
print_item_lem host (double v) r h = rw (
  get_data_type_lem data_type_double _ h,
  get_value_lem data_type_double (le_bytes 8 v) h,
  le_value-le_bytes 8 v r,
)
print_item_lem host (char v) r h = rw (
  get_data_type_lem data_type_char _ h,
  get_value_lem data_type_char (le_bytes 1 v) h,
  le_value-le_bytes 1 v r,
)
print_item_lem host (wchar v) r h = rw (
  get_data_type_lem data_type_wchar _ h,
  get_value_lem data_type_wchar (le_bytes 4 v) h,
  le_value-le_bytes 4 v r,
)
print_item_lem host {m} (time v) (small, fields, found) h =
    let value = le_value-le_bytes 8 v small in
    rw
      (
        get_data_type_lem data_type_time _ h,
        get_value_lem data_type_time (le_bytes 8 v) h,
        ap host.gmtime value ∙ found,
      )
      (ap (λ n. done (some (time n)) (skip 9 m)) value)
print_item_lem host (duration v) r h = rw (
  get_data_type_lem data_type_duration _ h,
  get_value_lem data_type_duration (le_bytes 4 v) h,
  le_value-le_bytes 4 v r,
)
print_item_lem host {m} (string s) (inl small, nonzero, served) h =
    let test : ltb 255 (length s) ≡ false = le→ltb 255 (length s) (omega arith) in
    let h' = rw test at h in
    rw
      (
        test,
        get_data_type_lem data_type_string_1 _ h',
        get_string_small host.malloc s small nonzero served h',
      )
      (ap (λ (n : ℕ). done (some (string s)) (skip n m)) (omega arith))
print_item_lem host {m} (string s) (inr (large, small), nonzero, served) h =
    let test : ltb 255 (length s) ≡ true = lt→ltb 255 (length s) large in
    let h' = rw test at h in
    rw
      (
        test,
        get_data_type_lem data_type_string_2 _ h',
        get_string_large host.malloc s small nonzero served h',
      )
      (ap (λ (n : ℕ). done (some (string s)) (skip n m)) (omega arith))
print_item_lem host {m} (wstring s) r h =
    let test : ltb 255 (length s) ≡ false = le→ltb 255 (length s) (omega (arith, r.0)) in
    let h' = rw test at h in
    rw (test, get_data_type_lem data_type_wstring_1 _ h', get_wstring_small host.malloc s r h')
      (ap (λ (n : ℕ). done (some (wstring s)) (skip n m)) (omega (arith, length-wide_bytes s)))
