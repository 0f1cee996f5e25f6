-- ===== src/Message/Value/Readable.antt =====
-- The values that src/Message.cpp reads back as it wrote them, and its functions for strings
-- before the bytes of such a value.
use kcmsg.Prelude.{
  ℕ, ◌+◌, ◌*◌, ◌^◌, ◌<◌, ◌≡◌, ◌⊎◌, ap, List, ◌∷◌, ◌++◌, Option, some, arith, length, All,
}
use kcmsg.Prelude.Bytes.{le_bytes, add_size, mul_size}
use kcmsg.Buffer.{Buffer}
use kcmsg.Message.{Message, done}
use kcmsg.Message.Tag.{
  data_type_string_1, data_type_string_2, data_type_wstring_1, data_type_wstring_2,
}
use kcmsg.Message.Put.{wide_bytes}
use kcmsg.Message.Get.{get_string, get_wstring}
use kcmsg.Message.Read.{StartsWith, StartsWith-append, skip, skip-skip}
use kcmsg.Message.Value.{
  Value, bool, byte, short, int, long, long_long, float, double, char, wchar, string, wstring, time,
  duration,
}
use kcmsg.Message.Value.Text.{
  IsNonzero, EndsInZero, get_string_length_short, get_string_length_long, copy_string_lem,
  copy_wstring_lem,
}

-- The lengths that a reader of a signed length takes for what they are.
abbrev pub IsShortText : List ℕ → Type 0
IsShortText s = (length s < 128) ⊎ ((255 < length s) × (length s < 32768))

-- `malloc` returns a block of `n` bytes.
abbrev pub Allocates : (ℕ → Option Buffer) → ℕ → Buffer → Type 0
Allocates malloc n block = malloc n ≡ some block

-- The values that are read back as they were written: numbers in the range of their types, but
-- no `long`; strings without zeros and of a length that its signed field can hold, if `malloc`
-- serves them.
abbrev pub IsReadable : (ℕ → Option Buffer) → Value → Type 0
IsReadable malloc (bool b) = Unit
IsReadable malloc (long v) = ⊥
IsReadable malloc (byte v) = v < 2 ^ 8
IsReadable malloc (short v) = v < 2 ^ 16
IsReadable malloc (int v) = v < 2 ^ 32
IsReadable malloc (long_long v) = v < 2 ^ 64
IsReadable malloc (float v) = v < 2 ^ 32
IsReadable malloc (double v) = v < 2 ^ 64
IsReadable malloc (char v) = v < 2 ^ 8
IsReadable malloc (wchar v) = v < 2 ^ 32
IsReadable malloc (time v) = v < 2 ^ 64
IsReadable malloc (duration v) = v < 2 ^ 32
IsReadable malloc (string s) =
    IsShortText s × All IsNonzero s × ((block : Buffer) × Allocates malloc (length s + 1) block)
IsReadable malloc (wstring s) =
    (length s < 128)
    × All IsNonzero s
    × All (λ c. c < 2 ^ 32) s
    × ((block : Buffer) × Allocates malloc ((length s + 1) * 4) block × EndsInZero (length s) block)

module _ (malloc : ℕ → Option Buffer) {m : Message} where
  pub get_string_small :
      (s : List ℕ)
      → length s < 128
      → All IsNonzero s
      → ((block : Buffer) × Allocates malloc (length s + 1) block)
      → StartsWith m (data_type_string_1 ∷ (le_bytes 1 (length s) ++ s))
      → get_string malloc m ≡ done s (skip (length s + 2) m)
  unfolding get_string
  get_string_small s small nonzero (block, served) h =
      let (first, second) = StartsWith-append (data_type_string_1 ∷ le_bytes 1 (length s)) s h in
      let size : add_size (length s) 1 ≡ length s + 1 = omega arith in
      rw
        (
          get_string_length_short data_type_string_1 data_type_string_2 (length s) small first,
          size,
          served,
          copy_string_lem block s (omega arith) nonzero second,
        )
        (ap (done s) (skip-skip m 2 (length s) _ (omega arith)))

  pub get_string_large :
      (s : List ℕ)
      → length s < 32768
      → All IsNonzero s
      → ((block : Buffer) × Allocates malloc (length s + 1) block)
      → StartsWith m (data_type_string_2 ∷ (le_bytes 2 (length s) ++ s))
      → get_string malloc m ≡ done s (skip (length s + 3) m)
  unfolding get_string
  get_string_large s small nonzero (block, served) h =
      let (first, second) = StartsWith-append (data_type_string_2 ∷ le_bytes 2 (length s)) s h in
      let size : add_size (length s) 1 ≡ length s + 1 = omega arith in
      rw
        (
          get_string_length_long data_type_string_1 data_type_string_2 (length s) (omega arith)
              small first,
          size,
          served,
          copy_string_lem block s small nonzero second,
        )
        (ap (done s) (skip-skip m 3 (length s) _ (omega arith)))

  pub get_wstring_small :
      (s : List ℕ)
      → IsReadable malloc (wstring s)
      → StartsWith m (data_type_wstring_1 ∷ (le_bytes 1 (length s) ++ wide_bytes s))
      → get_wstring malloc m ≡ done s (skip (length s * 4 + 2) m)
  unfolding get_wstring
  get_wstring_small s (small, nonzero, wide, (block, served, zeros)) h =
      let (first, second) =
        StartsWith-append (data_type_wstring_1 ∷ le_bytes 1 (length s)) (wide_bytes s) h in
      let size : mul_size (add_size (length s) 1) 4 ≡ (length s + 1) * 4 = omega arith in
      rw
        (
          get_string_length_short data_type_wstring_1 data_type_wstring_2 (length s) small first,
          size,
          served,
          copy_wstring_lem block s (omega arith) nonzero wide zeros second,
        )
        (ap (done s) (skip-skip m 2 (length s * 4) _ (omega arith)))
