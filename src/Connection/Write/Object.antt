-- ===== src/Connection/Write/Object.antt =====
-- `WriteMessage` of src/Connection.cpp: what it sends is the object, not the block of the message.
use kcmsg.Prelude.{
  ℕ, ◌+◌, ◌-◌, ◌^◌, ◌≤◌, ◌<◌, ◌≡◌, sym, ◌∙◌, ap, ◌⊎◌, inl, inr, List, [], ◌++◌, arith, length,
}
use kcmsg.Prelude.Bytes.{le_bytes}
use kcmsg.Buffer.{Buffer, load, load-add, length-load, load-store_part, load-store_disjoint}
use kcmsg.Message.{Message}
use kcmsg.Connection.Calls.{Writer, minus_one}
use kcmsg.Connection.Read.{IoOutcome, returned}
use kcmsg.Connection.Write.{object_memory, write_message}
use kcmsg.Connection.Write.Complete.{Writes, Refused, write_loop-Writes}

-- The first three members of an object.
abbrev pub three_members : ℕ → ℕ → ℕ → List ℕ
three_members vtable address offset = le_bytes 8 vtable ++ (le_bytes 8 address ++ le_bytes 8 offset)

object_memory-begins :
    (vtable address : ℕ) (around : Buffer) (m : Message)
    → load (object_memory vtable address around m) 0 24 ≡ three_members vtable address m.offset
unfolding object_memory
object_memory-begins vtable address around m =
    load-store_disjoint _ 40 _ 0 24 (inl (omega arith))
    ∙ load-store_disjoint _ 32 _ 0 24 (inl (omega arith))
    ∙ load-store_part around 0 [] (three_members vtable address m.offset) (le_bytes 8 m.data_length)

module _ (wr : Writer) where
  open wr use {World, sent, interrupts}

  -- The result is the length, and what has gone out begins with the first three members; or a call
  -- was refused after the first `c` bytes of the object, and the result is -1.
  abbrev pub SendsObject : World → ℕ → ℕ → Buffer → Message → IoOutcome World → Type 0
  SendsObject w vtable address around m o =
      let object = object_memory vtable address around m in
      ((w' : World) × (rest : List ℕ) × (o ≡ returned m.data_length object w')
        × (length rest ≡ m.data_length - 24)
        × (sent w' ≡ sent w ++ (three_members vtable address m.offset ++ rest)))
      ⊎ ((c : ℕ) × (w₁ : World) × (w' : World) × (bs : List ℕ) × (c < m.data_length)
          × (o ≡ returned minus_one object w')
          × (sent w' ≡ sent w ++ load object 0 c)
          × Refused wr w₁ bs w')

  Writes-SendsObject :
      (w : World) (vtable address : ℕ) (around : Buffer) (m : Message) (o : IoOutcome World)
      → 24 ≤ m.data_length
      → Writes wr w (object_memory vtable address around m) 0 m.data_length m.data_length o
      → SendsObject w vtable address around m o
  Writes-SendsObject w vtable address around m o lo (inl (w', e, s)) =
      let object = object_memory vtable address around m in
      let count : 24 + (m.data_length - 24) ≡ m.data_length = omega arith in
      let first : load object 0 m.data_length
          ≡ three_members vtable address m.offset ++ load object 24 (m.data_length - 24) =
        ap (λ (n : ℕ). load object 0 n) (sym count)
        ∙ load-add object 0 24 (m.data_length - 24)
        ∙ ap (λ xs. xs ++ load object 24 (m.data_length - 24))
            (object_memory-begins vtable address around m) in
      inl (
        w',
        load object 24 (m.data_length - 24),
        e,
        length-load object 24 (m.data_length - 24),
        s ∙ ap (λ xs. sent w ++ xs) first,
      )
  Writes-SendsObject w vtable address around m o lo (inr refused) = inr refused

  -- `WriteMessage` ends, with one turn more than the message's bytes and the signals. Where it
  -- returns the length of a message, of 24 bytes or more, as many bytes have gone out, but the first
  -- of them are the object's pointers to its virtual functions and to its block and its offset: the
  -- object has been sent, not the message in its block. Otherwise a call was refused after the first
  -- bytes of the object, and it returns -1.
  pub write_message_object :
      (fuel : ℕ) (w : World) (vtable address : ℕ) (around : Buffer) (m : Message)
      → m.data_length + interrupts w < fuel
      → m.data_length < 2 ^ 64
      → 24 ≤ m.data_length
      → SendsObject w vtable address around m (write_message wr fuel w vtable address around m)
  unfolding write_message
  write_message_object fuel w vtable address around m f wide lo =
      Writes-SendsObject w vtable address around m _ lo (
        write_loop-Writes wr fuel m.data_length w (object_memory vtable address around m) 0
          m.data_length f wide)
