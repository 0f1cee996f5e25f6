-- ===== src/Connection/Tests.antt =====
-- Runs of the functions of src/Connection.cpp over a socket that moves two bytes with each call,
-- and the theorems at such runs.
use kcmsg.Prelude.{
  ℕ, Option, none, ltb, if◌then◌else◌, ◌-◌, ◌^◌, ◌≡◌, refl, ◌⊎◌, inr, true, [], ◌∷◌, arith,
  replicate, some,
}
use kcmsg.Buffer.{Buffer, store}
use kcmsg.Message.{Message}
use kcmsg.Connection.Read.{returned, undefined, readn, readn_loop, read_message, read_message_loop}
use kcmsg.Connection.Read.Ends.{Ends, GaveUp}
use kcmsg.Connection.Read.Complete.{readn_complete}
use kcmsg.Connection.Read.Overwritten.{read_message_undefined}
use kcmsg.Connection.Read.Short.{Misses, read_message_short}
use kcmsg.Connection.Socket.{
  Connection, gives, af_inet, open_connection, connect, accept, get_descriptor,
}
use kcmsg.Connection.Socket.Reach.{
  left_by, IsValid, opened, next, connecting, Reach-IsValid, accept-true, connect_descriptor,
}
use kcmsg.Connection.Write.{writen, write_message}
use kcmsg.Connection.Write.Complete.{Writes, writen_complete}
use kcmsg.Connection.Write.Object.{SendsObject, write_message_object}
use kcmsg.Connection.Samples.{reader, writer, memory}

run_readn :
    readn reader 10 (1, 5 ∷ 6 ∷ 7 ∷ 8 ∷ []) (λ _. 0) 3
    ≡ returned 3 (store (store (λ _. 0) 0 (5 ∷ 6 ∷ [])) 2 (7 ∷ [])) (0, 8 ∷ [])
unfolding readn readn_loop
run_readn = refl

readn_complete_example :
    Ends reader
      (1, 5 ∷ 6 ∷ 7 ∷ 8 ∷ [])
      (λ _. 0)
      0
      3
      (readn reader 10 (1, 5 ∷ 6 ∷ 7 ∷ 8 ∷ []) (λ _. 0) 3)
readn_complete_example =
    readn_complete reader 10 3 (1, 5 ∷ 6 ∷ 7 ∷ 8 ∷ []) (λ _. 0) (omega arith) (omega arith)

-- User space ends below 2 ^ 47; all of it is cleared.
abbrev user_space : Buffer → ℕ → Option Buffer
user_space msg a = if ltb a (2 ^ 47) then some (λ i. 0) else none

-- The address is 0x4141414141414141.
read_message_undefined_example :
    (read_message reader user_space 50 (1, replicate 40 65) (λ _. 0) 35 ≡ undefined)
    ⊎ GaveUp reader (read_message reader user_space 50 (1, replicate 40 65) (λ _. 0) 35)
read_message_undefined_example =
    read_message_undefined reader user_space (replicate 8 65) (replicate 8 65) (replicate 24 65) 50
      35 (1, replicate 40 65) (λ _. 0) refl refl (omega arith) refl (λ m. refl) (omega arith)
      (omega arith) (omega arith)

-- Two bytes of forty come, and the result is 38.
run_read_message :
    read_message reader user_space 50 (1, 5 ∷ 6 ∷ []) (λ _. 0) 40
    ≡ returned 38 (store (λ _. 0) 0 (5 ∷ 6 ∷ [])) (0, [])
unfolding read_message read_message_loop
run_read_message = refl

read_message_short_example :
    Misses reader
      (1, 5 ∷ 6 ∷ [])
      (λ _. 0)
      0
      40
      (read_message reader user_space 50 (1, 5 ∷ 6 ∷ []) (λ _. 0) 40)
read_message_short_example =
    read_message_short reader user_space 50 40 (1, 5 ∷ 6 ∷ []) (λ _. 0) (omega arith) (omega arith)
      (inr (omega arith))

writen_complete_example : Writes writer (1, []) memory 0 3 3 (writen writer 10 (1, []) memory 3)
writen_complete_example = writen_complete writer 10 3 (1, []) memory (omega arith) (omega arith)

abbrev short_message : Message
short_message = record {
  bytes = λ _. 0;
  offset = 26;
  data_length = 26;
  hdr = record {
    source_ident = 0;
    source_organization = 0;
    target_ident = 0;
    target_organization = 0;
    transaction_ident = 0;
    transaction_application = 0;
    transaction_organization = 0;
    ttl = 0;
    flags = 0;
  };
}

write_message_object_example :
    SendsObject writer
      (1, [])
      0x1000
      0x2000
      memory
      short_message
      (write_message writer 30 (1, []) 0x1000 0x2000 memory short_message)
write_message_object_example =
    write_message_object writer 30 (1, []) 0x1000 0x2000 memory short_message (omega arith)
      (omega arith) (omega arith)

abbrev client : Connection
client = record {
  listen_max = 5;
  family = af_inet;
  protocol_type = 1;
  protocol = 6;
  conn = record { fd = 3; addr = record { length = 16; addr = λ _. 0; port = 0 } };
  clients = [];
}

client-opened : left_by (open_connection (λ f t p. 3) af_inet 1 6 5) ≡ some client
unfolding open_connection
client-opened = refl

client-connecting :
    left_by (connect 0 client) ≡ some (record client { conn = record client.conn { fd = 0 } })
unfolding connect
client-connecting = refl

Reach-IsValid_example : IsValid (record client { conn = record client.conn { fd = 0 } })
Reach-IsValid_example =
    Reach-IsValid {c = record client { conn = record client.conn { fd = 0 } }} (
      next (opened (λ f t p. 3) af_inet 1 6 5 client client-opened)
        (connecting 0 client-connecting))

accept_failure : accept (2 ^ 32 - 1) 24 client ≡ gives true client
accept_failure = accept-true (2 ^ 32 - 1) 24 client (inr (omega arith))

connect_result : get_descriptor (record client { conn = record client.conn { fd = 0 } }) ≡ 0
connect_result =
    connect_descriptor 0 client (record client { conn = record client.conn { fd = 0 } })
      client-connecting
