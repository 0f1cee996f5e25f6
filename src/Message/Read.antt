-- ===== src/Message/Read.antt =====
-- What the functions `get...` return where the bytes at the offset are known.
use kcmsg.Prelude.{
  ℕ, suc, ◌+◌, ◌*◌, ◌≤◌, ◌≡◌, sym, ◌∙◌, ap, List, [], ◌∷◌, ◌++◌, arith, length, length-append,
  le→leb, append-injective, ◌==◌, true,
}
use kcmsg.Prelude.Bytes.{le_value, add_size}
use kcmsg.Buffer.{load, load-add, length-load}
use kcmsg.Message.{Message, done, max_msg_data, copy_out, advance}
use kcmsg.Message.Get.{take_bytes, get_data_type, get_value}

-- The bytes from the offset on begin with `xs`, all of them in the block.
pub record StartsWith (m : Message) (xs : List ℕ) : Type 0 where
  pub here : load m.bytes m.offset (length xs) ≡ xs
  pub inside : m.offset + length xs ≤ max_msg_data

abbrev pub skip : ℕ → Message → Message
skip n m = record m { offset = m.offset + n }

pub skip-skip : (m : Message) (a b c : ℕ) → a + b ≡ c → skip b (skip a m) ≡ skip c m
skip-skip m a b c e =
    let same : m.offset + a + b ≡ m.offset + c = omega arith in
    ap (λ (o : ℕ). record m { offset = o }) same

pub StartsWith-append :
    {m : Message} (xs ys : List ℕ)
    → StartsWith m (xs ++ ys)
    → StartsWith m xs × StartsWith (skip (length xs) m) ys
StartsWith-append {m} xs ys s =
    let (first, second) =
      append-injective (load m.bytes m.offset (length xs))
        (load m.bytes (m.offset + length xs) (length ys)) xs ys (length-load m.bytes _ _)
        (sym (load-add m.bytes m.offset (length xs) (length ys)) ∙ rw (length-append) at s.here) in
    (
      record { here = first; inside = omega (arith, length-append xs ys, s.inside) },
      record { here = second; inside = omega (arith, length-append xs ys, s.inside) },
    )

pub take_bytes_lem :
    {m : Message} (xs : List ℕ)
    → StartsWith m xs
    → take_bytes (length xs) m ≡ done xs (skip (length xs) m)
unfolding take_bytes copy_out advance
take_bytes_lem {m} xs s =
    let wide : add_size m.offset (length xs) ≡ m.offset + length xs = omega (arith, s.inside) in
    rw (le→leb _ _ s.inside, s.here, wide)

module _ {m : Message} (tag : ℕ) (payload : List ℕ) (s : StartsWith m (tag ∷ payload)) where
  pub get_data_type_lem : get_data_type m ≡ done tag m
  unfolding get_data_type copy_out
  get_data_type_lem =
      let (first, second) = StartsWith-append (tag ∷ []) payload s in
      let value : tag + 256 * 0 ≡ tag = omega arith in
      rw (le→leb _ _ first.inside, first.here, value)

  pub get_value_lem :
      get_value tag (length payload) m ≡ done (le_value payload) (skip (suc (length payload)) m)
  unfolding get_value
  get_value_lem =
      let (first, second) = StartsWith-append (tag ∷ []) payload s in
      let same : (tag + 256 * 0 == tag) ≡ true = ground arith in
      rw (take_bytes_lem (tag ∷ []) first, same, take_bytes_lem payload second)
        (ap (done (le_value payload)) (skip-skip m 1 (length payload) _ (omega arith)))
