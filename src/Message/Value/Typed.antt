-- ===== src/Message/Value/Typed.antt =====
-- The get function of a kind where the bytes of a readable value stand, in src/Message.cpp.
use kcmsg.Prelude.{
  ℕ, ◌+◌, ◌≤◌, ◌≡◌, ◌≢◌, refl, sym, ap, ◌∙◌, inl, inr, true, false, List, [], ◌∷◌, ◌++◌, Option,
  arith, length, ltb, ◌==◌, if◌then◌else◌, lt→ltb, le→ltb, Bool-cases,
}
use kcmsg.Prelude.Bytes.{le_bytes, le_value-le_bytes}
use kcmsg.Buffer.{Buffer, load}
use kcmsg.Message.{Message, M, done, aborts, max_msg_data}
use kcmsg.Message.Tag.{
  data_type_bool, data_type_byte, data_type_short, data_type_int, data_type_long,
  data_type_long_long, data_type_float, data_type_double, data_type_char, data_type_wchar,
  data_type_string_1, data_type_string_2, data_type_wstring_1, data_type_wstring_2, data_type_time,
  data_type_duration,
}
use kcmsg.Message.Get.{
  get_bool, get_byte, get_short, get_int, get_long, get_long_long, get_float, get_double, get_char,
  get_wchar, get_string, get_wstring, get_time, get_duration,
}
use kcmsg.Message.Put.{wide_bytes}
use kcmsg.Message.Read.{StartsWith, skip, get_value_lem}
use kcmsg.Message.Value.{
  Value, bool, byte, short, int, long, long_long, float, double, char, wchar, string, wstring, time,
  duration, encode, bool_byte,
}
use kcmsg.Message.Value.Readable.{IsReadable, get_string_small, get_string_large, get_wstring_small}
use kcmsg.Message.Value.Numbers.{tag_of}
use kcmsg.Message.Value.Text.{length-wide_bytes}
use kcmsg.Message.Value.Wrong.{get_like, as_value, IsOther, get_like-IsOther}

-- The value is read back by the function of its own kind.
pub get_like_lem :
    (malloc : ℕ → Option Buffer) {m : Message} (v : Value)
    → IsReadable malloc v
    → StartsWith m (encode v)
    → get_like malloc v m ≡ done v (skip (length (encode v)) m)
unfolding get_bool get_byte get_short get_int get_long_long get_float get_double get_char get_wchar
    get_time get_duration
get_like_lem malloc (bool true) r h = rw (get_value_lem data_type_bool (1 ∷ []) h)
get_like_lem malloc (bool false) r h = rw (get_value_lem data_type_bool (0 ∷ []) h)
get_like_lem malloc (long v) r h = absurd r
get_like_lem malloc (byte v) r h =
    rw (get_value_lem data_type_byte (le_bytes 1 v) h, le_value-le_bytes 1 v r)
get_like_lem malloc (short v) r h =
    rw (get_value_lem data_type_short (le_bytes 2 v) h, le_value-le_bytes 2 v r)
get_like_lem malloc (int v) r h =
    rw (get_value_lem data_type_int (le_bytes 4 v) h, le_value-le_bytes 4 v r)
get_like_lem malloc (long_long v) r h =
    rw (get_value_lem data_type_long_long (le_bytes 8 v) h, le_value-le_bytes 8 v r)
get_like_lem malloc (float v) r h =
    rw (get_value_lem data_type_float (le_bytes 4 v) h, le_value-le_bytes 4 v r)
get_like_lem malloc (double v) r h =
    rw (get_value_lem data_type_double (le_bytes 8 v) h, le_value-le_bytes 8 v r)
get_like_lem malloc (char v) r h =
    rw (get_value_lem data_type_char (le_bytes 1 v) h, le_value-le_bytes 1 v r)
get_like_lem malloc (wchar v) r h =
    rw (get_value_lem data_type_wchar (le_bytes 4 v) h, le_value-le_bytes 4 v r)
get_like_lem malloc (time v) r h =
    rw (get_value_lem data_type_time (le_bytes 8 v) h, le_value-le_bytes 8 v r)
get_like_lem malloc (duration v) r h =
    rw (get_value_lem data_type_duration (le_bytes 4 v) h, le_value-le_bytes 4 v r)
get_like_lem malloc {m} (string s) (inl small, nonzero, served) h =
    let test : ltb 255 (length s) ≡ false = le→ltb 255 (length s) (omega arith) in
    rw (test, get_string_small malloc s small nonzero served (rw test at h))
      (ap (λ (n : ℕ). done (string s) (skip n m)) (omega arith))
get_like_lem malloc {m} (string s) (inr (large, small), nonzero, served) h =
    let test : ltb 255 (length s) ≡ true = lt→ltb 255 (length s) large in
    rw (test, get_string_large malloc s small nonzero served (rw test at h))
      (ap (λ (n : ℕ). done (string s) (skip n m)) (omega arith))
get_like_lem malloc {m} (wstring s) r h =
    let test : ltb 255 (length s) ≡ false = le→ltb 255 (length s) (omega (arith, r.0)) in
    rw (test, get_wstring_small malloc s r (rw test at h))
      (ap (λ (n : ℕ). done (wstring s) (skip n m)) (omega (arith, length-wide_bytes s)))

-- The first identifier of the kind that an identifier belongs to.
abbrev kind_of : ℕ → ℕ
kind_of t =
    if t == data_type_string_2
    then data_type_string_1
    else if t == data_type_wstring_2
    then data_type_wstring_1
    else t

kind_of-IsOther : (k : Value) (t : ℕ) → kind_of t ≢ tag_of k → IsOther k t
kind_of-IsOther (string s) t h = (λ e. h (ap kind_of e), λ e. h (ap kind_of e))
kind_of-IsOther (wstring s) t h = (λ e. h (ap kind_of e), λ e. h (ap kind_of e))
kind_of-IsOther (bool v) t h = λ e. h (ap kind_of e)
kind_of-IsOther (byte v) t h = λ e. h (ap kind_of e)
kind_of-IsOther (short v) t h = λ e. h (ap kind_of e)
kind_of-IsOther (int v) t h = λ e. h (ap kind_of e)
kind_of-IsOther (long v) t h = λ e. h (ap kind_of e)
kind_of-IsOther (long_long v) t h = λ e. h (ap kind_of e)
kind_of-IsOther (float v) t h = λ e. h (ap kind_of e)
kind_of-IsOther (double v) t h = λ e. h (ap kind_of e)
kind_of-IsOther (char v) t h = λ e. h (ap kind_of e)
kind_of-IsOther (wchar v) t h = λ e. h (ap kind_of e)
kind_of-IsOther (time v) t h = λ e. h (ap kind_of e)
kind_of-IsOther (duration v) t h = λ e. h (ap kind_of e)

-- The function for values of the kind of an identifier.
get_by : (ℕ → Option Buffer) → ℕ → M Value
get_by malloc t =
    if t == data_type_bool
    then as_value bool get_bool
    else if t == data_type_byte
    then as_value byte get_byte
    else if t == data_type_short
    then as_value short get_short
    else if t == data_type_int
    then as_value int get_int
    else if t == data_type_long
    then as_value long get_long
    else if t == data_type_long_long
    then as_value long_long get_long_long
    else if t == data_type_float
    then as_value float get_float
    else if t == data_type_double
    then as_value double get_double
    else if t == data_type_char
    then as_value char get_char
    else if t == data_type_wchar
    then as_value wchar get_wchar
    else if t == data_type_string_1
    then as_value string (get_string malloc)
    else if t == data_type_wstring_1
    then as_value wstring (get_wstring malloc)
    else if t == data_type_time
    then as_value time get_time
    else as_value duration get_duration

get_like-by :
    (malloc : ℕ → Option Buffer) (k : Value) → get_like malloc k ≡ get_by malloc (tag_of k)
unfolding get_by
get_like-by malloc (bool v) = refl
get_like-by malloc (byte v) = refl
get_like-by malloc (short v) = refl
get_like-by malloc (int v) = refl
get_like-by malloc (long v) = refl
get_like-by malloc (long_long v) = refl
get_like-by malloc (float v) = refl
get_like-by malloc (double v) = refl
get_like-by malloc (char v) = refl
get_like-by malloc (wchar v) = refl
get_like-by malloc (string v) = refl
get_like-by malloc (wstring v) = refl
get_like-by malloc (time v) = refl
get_like-by malloc (duration v) = refl

get_like-kind :
    (malloc : ℕ → Option Buffer) (k v : Value)
    → tag_of k ≡ tag_of v
    → get_like malloc k ≡ get_like malloc v
get_like-kind malloc k v e =
    get_like-by malloc k ∙ ap (get_by malloc) e ∙ sym (get_like-by malloc v)

-- The identifier that the bytes of a value begin with, and the rest.
encode-kind : (v : Value) → (t : ℕ) × (bs : List ℕ) × (encode v ≡ t ∷ bs) × (kind_of t ≡ tag_of v)
encode-kind (bool v) = (data_type_bool, bool_byte v ∷ [], refl, refl)
encode-kind (byte v) = (data_type_byte, le_bytes 1 v, refl, refl)
encode-kind (short v) = (data_type_short, le_bytes 2 v, refl, refl)
encode-kind (int v) = (data_type_int, le_bytes 4 v, refl, refl)
encode-kind (long v) = (data_type_long, le_bytes 4 v, refl, refl)
encode-kind (long_long v) = (data_type_long_long, le_bytes 8 v, refl, refl)
encode-kind (float v) = (data_type_float, le_bytes 4 v, refl, refl)
encode-kind (double v) = (data_type_double, le_bytes 8 v, refl, refl)
encode-kind (char v) = (data_type_char, le_bytes 1 v, refl, refl)
encode-kind (wchar v) = (data_type_wchar, le_bytes 4 v, refl, refl)
encode-kind (string s) = elim (Bool-cases (ltb 255 (length s))) [
  | inl e ↦ (data_type_string_2, le_bytes 2 (length s) ++ s, rw e refl, refl)
  | inr e ↦ (data_type_string_1, le_bytes 1 (length s) ++ s, rw e refl, refl)
]
encode-kind (wstring s) = elim (Bool-cases (ltb 255 (length s))) [
  | inl e ↦ (data_type_wstring_2, le_bytes 2 (length s) ++ wide_bytes s, rw e refl, refl)
  | inr e ↦ (data_type_wstring_1, le_bytes 1 (length s) ++ wide_bytes s, rw e refl, refl)
]
encode-kind (time v) = (data_type_time, le_bytes 8 v, refl, refl)
encode-kind (duration v) = (data_type_duration, le_bytes 4 v, refl, refl)

-- Before the bytes of a value, the function of another kind fails its assertion.
pub get_like_mismatch :
    (malloc : ℕ → Option Buffer) {m : Message} (k v : Value)
    → tag_of k ≢ tag_of v
    → StartsWith m (encode v)
    → get_like malloc k m ≡ aborts
unfolding load
get_like_mismatch malloc {m} k v ne h =
    let (t, bs, e, kind) = encode-kind v in
    let whole : load m.bytes m.offset (length (t ∷ bs)) ≡ t ∷ bs = rw e at h.here in
    let first : m.bytes m.offset ≡ t = cc in
    let inside : m.offset + 1 ≤ max_msg_data = omega (arith, h.inside, ap length e) in
    get_like-IsOther malloc m inside k
      (kind_of-IsOther k (m.bytes m.offset) (λ same. ne (sym same ∙ ap kind_of first ∙ kind)))

-- Before the bytes of a readable value, the function of its kind returns it.
pub get_like_match :
    (malloc : ℕ → Option Buffer) {m : Message} (k v : Value)
    → tag_of k ≡ tag_of v
    → IsReadable malloc v
    → StartsWith m (encode v)
    → get_like malloc k m ≡ done v (skip (length (encode v)) m)
get_like_match malloc {m} k v same r h =
    ap (λ f. f m) (get_like-kind malloc k v same) ∙ get_like_lem malloc v r h
