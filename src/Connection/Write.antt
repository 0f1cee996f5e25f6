-- ===== src/Connection/Write.antt =====
-- `Writen` and `WriteMessage` of src/Connection.cpp.
pub mod Complete
pub mod Object
use kcmsg.Prelude.{ℕ, zero, suc, ◌+◌, ◌++◌, ltb, ◌==◌, if◌then◌else◌}
use kcmsg.Prelude.Bytes.{sub_size, le_bytes}
use kcmsg.Buffer.{Buffer, load, store}
use kcmsg.Message.{Message}
use kcmsg.Connection.Calls.{Writer, WriteResult, wrote, write_failed, eintr, minus_one}
use kcmsg.Connection.Read.{IoOutcome, returned, unfinished}

-- The memory from an object of class `Message` on: the pointer `vtable` to the table of its virtual
-- functions, the pointer `address` to its block, the offset, the length and the header, whose two
-- parts have an alignment of four bytes. `around` is the memory between them and behind the object.
unfoldable pub object_memory : ℕ → ℕ → Buffer → Message → Buffer
object_memory vtable address around m =
    let members = store around 0 (
      (le_bytes 8 vtable ++ (le_bytes 8 address ++ le_bytes 8 m.offset))
      ++ le_bytes 8 m.data_length) in
    let source =
      store members 32 (le_bytes 4 m.hdr.source_ident ++ le_bytes 2 m.hdr.source_organization) in
    store source 40 (
      le_bytes 4 m.hdr.target_ident
      ++ (le_bytes 2 m.hdr.target_organization
          ++ (le_bytes 2 m.hdr.transaction_ident
              ++ (le_bytes 2 m.hdr.transaction_application
                  ++ (le_bytes 2 m.hdr.transaction_organization
                      ++ (le_bytes 4 m.hdr.ttl ++ le_bytes 2 m.hdr.flags))))))

module _ (wr : Writer) where
  open wr use {World, write}

  -- The loop of both functions: `ptr` counts from `msg`, and `result` is returned at the end.
  unfoldable pub write_loop : ℕ → ℕ → World → Buffer → ℕ → ℕ → IoOutcome World
  write_loop zero result w msg ptr nleft = unfinished
  write_loop (suc fuel) result w msg ptr nleft =
      if ltb 0 nleft
      then elim (write w (load msg ptr nleft)) [
        | write_failed e w' ↦
            let again = write_loop fuel result w' msg ptr nleft in
            if e == eintr then again else returned minus_one msg w'
        | wrote zero w' ↦ returned minus_one msg w'
        | wrote (suc n) w' ↦ write_loop fuel result w' msg (ptr + suc n) (sub_size nleft (suc n))
      ]
      else returned result msg w

  unfoldable pub writen : ℕ → World → Buffer → ℕ → IoOutcome World
  writen fuel w msg nbytes = write_loop fuel nbytes w msg 0 nbytes

  -- `(const char *) msg` points to the object.
  unfoldable pub write_message : ℕ → World → ℕ → ℕ → Buffer → Message → IoOutcome World
  write_message fuel w vtable address around m =
      write_loop fuel m.data_length w (object_memory vtable address around m) 0 m.data_length
