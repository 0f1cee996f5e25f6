-- ===== src/Message/Value/Unterminated.antt =====
-- `getWString` of src/Message.cpp on a block that `malloc` has not cleared.
use kcmsg.Prelude.{
  ℕ, ◌+◌, ◌*◌, ◌^◌, ◌<◌, ◌≡◌, ◌≢◌, List, ◌∷◌, Option, some, arith, length, ltb, false, All, le→ltb,
}
use kcmsg.Prelude.Bytes.{le_bytes, le_value, add_size, mul_size}
use kcmsg.Buffer.{Buffer, load}
use kcmsg.Message.{Message, faults}
use kcmsg.Message.Tag.{data_type_wstring_1, data_type_wstring_2}
use kcmsg.Message.Put.{wide_bytes}
use kcmsg.Message.Get.{get_wstring}
use kcmsg.Message.Read.{StartsWith, StartsWith-append}
use kcmsg.Message.Value.{wstring, encode}
use kcmsg.Message.Value.Text.{IsNonzero, get_string_length_short, copy_wstring-faults}

-- Where the bytes of a wide string stand that is not empty and has fewer than 128 characters, none
-- of them zero, and the last 4 bytes of the block that `malloc` returns are not all zero,
-- `getWString` reads past the end of that block: the `memset` before clears a quarter of it only.
pub get_wstring_unterminated :
    (malloc : ℕ → Option Buffer) (m : Message) (s : List ℕ) (block : Buffer)
    → 0 < length s
    → length s < 128
    → All IsNonzero s
    → All (λ c. c < 2 ^ 32) s
    → malloc ((length s + 1) * 4) ≡ some block
    → le_value (load block (length s * 4) 4) ≢ 0
    → StartsWith m (encode (wstring s))
    → get_wstring malloc m ≡ faults
unfolding get_wstring
get_wstring_unterminated malloc m s block pos small nonzero wide served rest h =
    let short : ltb 255 (length s) ≡ false = le→ltb 255 (length s) (omega arith) in
    let h' = rw short at h in
    let (first, second) =
      StartsWith-append (data_type_wstring_1 ∷ le_bytes 1 (length s)) (wide_bytes s) h' in
    let size : mul_size (add_size (length s) 1) 4 ≡ (length s + 1) * 4 = omega arith in
    rw (
      get_string_length_short data_type_wstring_1 data_type_wstring_2 (length s) small first,
      size,
      served,
      copy_wstring-faults block s pos (omega arith) nonzero wide rest second,
    )
