-- ===== src/Message/Value/Signed.antt =====
-- Where the functions `get...` do not return what was put: a `long` is read through a buffer of
-- 16 bits, and the length of a string through a signed buffer.
use kcmsg.Prelude.{
  ℕ, ◌+◌, ◌*◌, ◌-◌, ◌%◌, ◌/◌, ◌^◌, ◌≤◌, ◌<◌, ◌≡◌, List, [], ◌∷◌, ◌++◌, Option, none, arith, length,
  le→ltb, lt→ltb, ltb, inl, inr, ◌⊎◌, true, false,
}
use kcmsg.Prelude.Bytes.{
  le_bytes, le_value, le_value-le_bytes, length-le_bytes, add_size, sign_extend,
}
use kcmsg.Buffer.{Buffer}
use kcmsg.Message.{Message, done, aborts}
use kcmsg.Message.Tag.{data_type_long, data_type_string_1, data_type_string_2}
use kcmsg.Message.Get.{get_long, get_length, get_string, get_string_length, copy_string}
use kcmsg.Message.Read.{StartsWith, StartsWith-append, skip, get_value_lem, take_bytes_lem}
use kcmsg.Message.Value.{long, string, encode}

-- Of a `long` that was put, `getLong` returns the low 16 bits, sign-extended, and moves the offset
-- by three of the five bytes.
pub get_long_lem :
    {m : Message} (v : ℕ)
    → StartsWith m (encode (long v))
    → get_long m ≡ done (sign_extend 16 32 (v % 2 ^ 16)) (skip 3 m)
unfolding get_long
get_long_lem v s =
    let (first, second) =
      StartsWith-append (data_type_long ∷ le_bytes 2 v) (le_bytes 2 (v / 256 / 256)) s in
    let low : le_value (le_bytes 2 v) ≡ v % 2 ^ 16 = omega arith in
    rw (get_value_lem data_type_long (le_bytes 2 v) first, low)

-- A length with its top bit set is read as a negative number.
get_length_negative :
    {m : Message} (w l : ℕ)
    → l < 256 ^ w
    → 2 ^ (w * 8 - 1) ≤ l
    → StartsWith m (le_bytes w l)
    → get_length w m ≡ done (l + 2 ^ 64 - 2 ^ (w * 8)) (skip w m)
unfolding get_length
get_length_negative w l fits large s =
    let taken = rw length-le_bytes at (take_bytes_lem (le_bytes w l) s) in
    rw (taken, le_value-le_bytes w l fits, le→ltb _ _ large)

-- `malloc` returns no block of 2 ^ 63 bytes or more, which is more than PTRDIFF_MAX.
abbrev pub RefusesHuge : (ℕ → Option Buffer) → Type 0
RefusesHuge malloc = (n : ℕ) → 2 ^ 63 ≤ n → malloc n ≡ none

copy_string_huge :
    (malloc : ℕ → Option Buffer) (n : ℕ) (m : Message)
    → RefusesHuge malloc
    → 2 ^ 63 ≤ n
    → n < 2 ^ 64 - 1
    → copy_string (malloc (add_size n 1)) n m ≡ aborts
unfolding copy_string
copy_string_huge malloc n m huge lo hi = rw (huge (add_size n 1) (omega arith))

get_string_short_negative :
    (malloc : ℕ → Option Buffer) {m : Message} (s : List ℕ)
    → RefusesHuge malloc
    → 127 < length s
    → length s < 255
    → StartsWith m (data_type_string_1 ∷ (le_bytes 1 (length s) ++ s))
    → get_string malloc m ≡ aborts
unfolding get_string get_string_length
get_string_short_negative malloc s huge lo hi h =
    let (first, second) = StartsWith-append (data_type_string_1 ∷ le_bytes 1 (length s)) s h in
    let (tag, len) = StartsWith-append (data_type_string_1 ∷ []) (le_bytes 1 (length s)) first in
    rw
      (
        take_bytes_lem (data_type_string_1 ∷ []) tag,
        get_length_negative 1 (length s) (omega arith) (omega arith) len,
      )
      (copy_string_huge malloc _ _ huge (omega arith) (omega arith))

get_string_long_negative :
    (malloc : ℕ → Option Buffer) {m : Message} (s : List ℕ)
    → RefusesHuge malloc
    → 32767 < length s
    → length s < 65535
    → StartsWith m (data_type_string_2 ∷ (le_bytes 2 (length s) ++ s))
    → get_string malloc m ≡ aborts
unfolding get_string get_string_length
get_string_long_negative malloc s huge lo hi h =
    let (first, second) = StartsWith-append (data_type_string_2 ∷ le_bytes 2 (length s)) s h in
    let (tag, len) = StartsWith-append (data_type_string_2 ∷ []) (le_bytes 2 (length s)) first in
    rw
      (
        take_bytes_lem (data_type_string_2 ∷ []) tag,
        get_length_negative 2 (length s) (omega arith) (omega arith) len,
      )
      (copy_string_huge malloc _ _ huge (omega arith) (omega arith))

-- `getString` fails its second assertion on every string of 128 to 254 characters that was put, and
-- on every one of 32768 to 65534: the length reads as a number near 2 ^ 64, for which `malloc`
-- returns no block.
pub get_string_negative :
    (malloc : ℕ → Option Buffer) {m : Message} (s : List ℕ)
    → RefusesHuge malloc
    → ((127 < length s) × (length s < 255)) ⊎ ((32767 < length s) × (length s < 65535))
    → StartsWith m (encode (string s))
    → get_string malloc m ≡ aborts
get_string_negative malloc s huge (inl (lo, hi)) h =
    let test : ltb 255 (length s) ≡ false = le→ltb 255 (length s) (omega arith) in
    get_string_short_negative malloc s huge lo hi (rw test at h)
get_string_negative malloc s huge (inr (lo, hi)) h =
    let test : ltb 255 (length s) ≡ true = lt→ltb 255 (length s) (omega arith) in
    get_string_long_negative malloc s huge lo hi (rw test at h)
