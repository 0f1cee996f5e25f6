-- ===== src/Connection/Read.antt =====
-- `Readn` and `ReadMessage` of src/Connection.cpp.
pub mod Ends
pub mod Complete
pub mod Short
pub mod Overwritten
use kcmsg.Prelude.{
  ℕ, zero, suc, ◌+◌, ◌-◌, List, [], ◌∷◌, Option, none, some, ltb, leb, ◌==◌, if◌then◌else◌, length,
}
use kcmsg.Prelude.Bytes.{sub_size, le_bytes, le_value}
use kcmsg.Buffer.{Buffer, load, store}
use kcmsg.Message.{message_length_offset}
use kcmsg.Connection.Calls.{Reader, ReadResult, got, failed, eintr, minus_one}

-- How a loop over system calls ends: it returns a `size_t`, with the memory at the pointer and the
-- world as they then are, or it does what C++ leaves undefined. `unfinished` is cut off by the fuel.
pub data IoOutcome (W : Type 0) : Type 0 where
  returned : ℕ → Buffer → W → IoOutcome W
  undefined : IoOutcome W
  unfinished : IoOutcome W

-- `sizeof(kcmsg::MessageHeader)`: the fields with their alignment.
abbrev pub message_header_size : ℕ
message_header_size = 28

-- An object of class `Message`: a pointer to the table of its virtual functions, `data`, `offset`,
-- `data_length` and the header.
abbrev pub data_member : ℕ
data_member = 8

abbrev pub data_length_member : ℕ
data_length_member = 24

abbrev pub message_size : ℕ
message_size = 64

abbrev pub go_on : {W : Type 0} → Option (Buffer × ℕ) → (Buffer → ℕ → IoOutcome W) → IoOutcome W
go_on none f = undefined
go_on (some (msg, nleft)) f = f msg nleft

module _ (r : Reader) where
  open r use {World, read}

  -- The loop of `Readn`: `ptr` counts from `msg`.
  unfoldable pub readn_loop : ℕ → ℕ → World → Buffer → ℕ → ℕ → IoOutcome World
  readn_loop zero nbytes w msg ptr nleft = unfinished
  readn_loop (suc fuel) nbytes w msg ptr nleft =
      if ltb 0 nleft
      then elim (read w nleft) [
        | failed e w' ↦
            let again = readn_loop fuel nbytes w' msg ptr nleft in
            if e == eintr then again else returned minus_one msg w'
        | got [] w' ↦ returned (sub_size nbytes nleft) msg w'
        | got (b ∷ bs) w' ↦
            readn_loop fuel nbytes w' (store msg ptr (b ∷ bs)) (ptr + length (b ∷ bs))
              (sub_size nleft (length (b ∷ bs)))
      ]
      else returned (sub_size nbytes nleft) msg w

  unfoldable pub readn : ℕ → World → Buffer → ℕ → IoOutcome World
  unfolding readn_loop
  readn fuel w msg nbytes = readn_loop fuel nbytes w msg 0 nbytes

  -- `memory` gives the memory from an address on, with that of the object as it stands, or none
  -- where the address leads to no memory.
  module _ (memory : Buffer → ℕ → Option Buffer) where
    -- The last part of the loop of `ReadMessage`, where `msg` is the memory of the object. Once as
    -- many bytes have come in as a header and the length field have, `readMessageLength` follows the
    -- pointer `data` of the object and sets its `data_length`; `msgsize` stays 0, so that all of
    -- `nbytes` is taken from the number of bytes left.
    abbrev pub read_length : ℕ → Buffer → ℕ → Option (Buffer × ℕ)
    read_length nbytes msg nleft =
        if leb (message_header_size + 2) (sub_size nbytes nleft)
        then elim (memory msg (le_value (load msg data_member 8))) [
          | none ↦ none
          | some block ↦ some (
            store msg data_length_member
                (le_bytes 8 (le_value (load block message_length_offset 2))),
            sub_size nleft nbytes,
          )
        ]
        else some (msg, nleft)

    -- The loop of `ReadMessage`: `ptr` counts from `msg`. Bytes behind the object are not its own.
    unfoldable pub read_message_loop : ℕ → ℕ → World → Buffer → ℕ → ℕ → IoOutcome World
    read_message_loop zero nbytes w msg ptr nleft = unfinished
    read_message_loop (suc fuel) nbytes w msg ptr nleft =
        if ltb 0 nleft
        then elim (read w nleft) [
          | failed e w' ↦
              let again =
                go_on (read_length nbytes msg nleft)
                  (λ msg' left. read_message_loop fuel nbytes w' msg' ptr left) in
              if e == eintr then again else returned minus_one msg w'
          | got [] w' ↦ returned nleft msg w'
          | got (b ∷ bs) w' ↦
              let ptr' = ptr + length (b ∷ bs) in
              let next =
                go_on
                  (read_length nbytes (store msg ptr (b ∷ bs)) (sub_size nleft (length (b ∷ bs))))
                  (λ msg' left. read_message_loop fuel nbytes w' msg' ptr' left) in
              if ltb message_size ptr' then undefined else next
        ]
        else returned nleft msg w

    unfoldable pub read_message : ℕ → World → Buffer → ℕ → IoOutcome World
    unfolding read_message_loop
    read_message fuel w msg nbytes = read_message_loop fuel nbytes w msg 0 nbytes
