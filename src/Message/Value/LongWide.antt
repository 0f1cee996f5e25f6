-- ===== src/Message/Value/LongWide.antt =====
-- `putWString` of more than 255 characters: its last statement adds the bytes of the characters to
-- `data_length` once more.
use kcmsg.Prelude.{
  ℕ, ◌+◌, ◌*◌, ◌%◌, ◌^◌, ◌≤◌, ◌<◌, ◌≡◌, ◌∙◌, sym, ap, List, [], ◌∷◌, arith, length, lt→ltb,
}
use kcmsg.Prelude.Bytes.{le_bytes, le_value, le_value-le_bytes, add_size, mul_size}
use kcmsg.Buffer.{load}
use kcmsg.Message.{Message, done, max_msg_data, message_length_offset, user_data_offset}
use kcmsg.Message.Tag.{data_type_wstring_2}
use kcmsg.Message.Append.{Appended, append_three}
use kcmsg.Message.Invariant.{IsValid}
use kcmsg.Message.Put.{put_wstring, wide_bytes, add_data_length}
use kcmsg.Message.Value.Text.{length-wide_bytes}
use kcmsg.Message.Value.Room.{room_for_string}
use kcmsg.Message.Value.{encode_wstring}

-- `m'` but for the length.
abbrev pub lengthened : ℕ → Message → Message
lengthened n m = record m { data_length = m.data_length + n }

-- The bytes of the format are appended and the length field of the header counts them, but the
-- member `data_length` then counts the characters twice.
pub put_wstring_long :
    (m : Message) (s : List ℕ)
    → user_data_offset ≤ m.data_length
    → 255 < length s
    → m.data_length + length (encode_wstring s) ≤ max_msg_data
    → (m' : Message) × (put_wstring s m ≡ done tt (lengthened (length s * 4) m'))
      × Appended m (encode_wstring s) m'
unfolding put_wstring add_data_length
put_wstring_long m s lo large hi =
    let bound : m.data_length + (3 + length s * 4) ≤ max_msg_data =
      omega (arith, rw (lt→ltb 255 (length s) large) at hi, length-wide_bytes s) in
    let (m', _, e, a) =
      append_three m (data_type_wstring_2 ∷ []) (le_bytes 2 (length s)) lo (wide_bytes s)
        (omega (arith, length-wide_bytes s)) in
    let same : length s % 2 ^ 16 ≡ length s = omega arith in
    let wide : mul_size (length s) 4 ≡ length s * 4 = omega arith in
    let sum : add_size m'.data_length (length s * 4) ≡ m'.data_length + length s * 4 =
      omega (arith, a.within) in
    rw (lt→ltb 255 (length s) large) (
      m',
      rw (wide, room_for_string m.data_length 2 (length s * 4) (omega arith), same)
          (e (add_data_length (length s * 4))
            ∙ ap (λ (n : ℕ). done tt (record m' { data_length = n })) sum),
      a,
    )

lengthened-not-IsValid :
    (m m' : Message) (n : ℕ) {xs : List ℕ} → 0 < n → Appended m xs m' → ¬ IsValid (lengthened n m')
lengthened-not-IsValid m m' n pos a v = absurd (
    omega (
      arith,
      ap le_value (sym a.field ∙ v.field),
      le_value-le_bytes 2 m'.data_length (omega (arith, a.within)),
      le_value-le_bytes 2 (m'.data_length + n) (omega (arith, v.within)),
    ))

-- `putWString` of more than 255 characters, where there is room for them, leaves an invalid
-- message: `data_length` counts the bytes of the characters twice, and the length field of the
-- header counts them once.
pub put_wstring_long-not-IsValid :
    (m : Message) (s : List ℕ)
    → user_data_offset ≤ m.data_length
    → 255 < length s
    → m.data_length + length (encode_wstring s) ≤ max_msg_data
    → (m' : Message) × (put_wstring s m ≡ done tt m')
      × (load m'.bytes message_length_offset 2
          ≡ le_bytes 2 (m.data_length + length (encode_wstring s)))
      × (m'.data_length ≡ m.data_length + length (encode_wstring s) + length s * 4)
      × ¬ IsValid m'
put_wstring_long-not-IsValid m s lo large hi =
    let (m₁, e, a) = put_wstring_long m s lo large hi in
    (
      lengthened (length s * 4) m₁,
      e,
      a.field ∙ ap (le_bytes 2) a.longer,
      ap (λ (n : ℕ). n + length s * 4) a.longer,
      lengthened-not-IsValid m m₁ (length s * 4) (omega arith) a,
    )
