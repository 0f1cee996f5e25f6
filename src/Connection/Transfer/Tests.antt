-- ===== src/Connection/Transfer/Tests.antt =====
-- Bytes and a message that cross a connection whose sockets move two bytes with each call.
use kcmsg.Prelude.{ℕ, ◌≡◌, refl, List, [], ◌∷◌, arith}
use kcmsg.Buffer.{load, store}
use kcmsg.Message.{Message}
use kcmsg.Message.Header.RoundTrip.{written, write_header_runs}
use kcmsg.Prelude.Bytes.{le_bytes}
use kcmsg.Buffer.{Buffer}
use kcmsg.Message.Samples.{host, holding, one_short, one_short-Holds, blank, blank-FitsTypes}
use kcmsg.Message.Value.{short}
use kcmsg.Connection.Read.{returned, readn}
use kcmsg.Connection.Write.{writen, write_loop}
use kcmsg.Connection.Samples.{reader, writer, memory}
use kcmsg.Connection.Transfer.{Gets, readn-writen}
use kcmsg.Connection.Transfer.Stream.{Packet, ends, sends, Comes, Sends-Comes}
use kcmsg.Connection.Transfer.Whole.{Arrives, transfer}

three_sent : writen writer 10 (1, []) memory 3 ≡ returned 3 memory (0, 5 ∷ 6 ∷ 7 ∷ [])
unfolding writen write_loop load store
three_sent = refl

three_received :
    Gets writer reader 3 memory (8 ∷ []) (readn reader 10 (2, 5 ∷ 6 ∷ 7 ∷ 8 ∷ []) (λ _. 0) 3)
three_received =
    readn-writen writer reader 10 10 3 (1, []) (0, 5 ∷ 6 ∷ 7 ∷ []) (2, 5 ∷ 6 ∷ 7 ∷ 8 ∷ []) memory
      (λ _. 0) (8 ∷ []) (omega arith) (omega arith) (omega arith) three_sent refl

-- The message of one short, after `writeHeader`.
abbrev sealed_short : Message
sealed_short = record one_short { bytes = written blank one_short.bytes }

abbrev sealed_bytes : List ℕ
sealed_bytes = load sealed_short.bytes 0 29

short_sent :
    writen writer 50 (1, []) sealed_short.bytes 29
    ≡ returned 29 sealed_short.bytes (0, sealed_bytes)
unfolding writen write_loop load store
short_sent = refl

short-Arrives :
    Arrives writer reader host 2 blank 29
      (short 513 ∷ [])
      (holding [])
      []
      (readn reader 50 (3, sealed_bytes) ((holding []).bytes) 29)
unfolding load
short-Arrives =
    transfer writer reader host 2 50 50 (short 513 ∷ []) one_short sealed_short (holding []) (1, [])
      (0, sealed_bytes) (3, sealed_bytes) [] one_short-Holds refl blank-FitsTypes (omega arith, tt)
      (omega arith) (write_header_runs one_short) (omega arith) (omega arith) short_sent refl refl

-- The bytes after the constructor and the put of a short, before `writeHeader`.
abbrev short_put : Buffer
short_put =
    store
      (store (store (store (store (λ _. 0) 24 (le_bytes 2 26)) 26 (3 ∷ [])) 24 (le_bytes 2 27)) 27
        (1 ∷ 2 ∷ []))
      24 (le_bytes 2 29)

abbrev composed : Message
composed = record { bytes = written blank short_put; offset = 26; data_length = 29; hdr = blank }

abbrev composed_bytes : List ℕ
composed_bytes = load composed.bytes 0 29

two_sent :
    writen writer 10 (0, 5 ∷ 6 ∷ 7 ∷ []) memory 2 ≡ returned 2 memory (0, 5 ∷ 6 ∷ 7 ∷ 5 ∷ 6 ∷ [])
unfolding writen write_loop load store
two_sent = refl

-- Three bytes and then two.
abbrev packets : List Packet
packets = (memory, 3) ∷ (memory, 2) ∷ []

Sends-Comes_example : Comes reader 10 packets (2, 5 ∷ 6 ∷ 7 ∷ 5 ∷ 6 ∷ 8 ∷ []) (8 ∷ [])
Sends-Comes_example =
    Sends-Comes writer reader 10 10 (1, []) (0, 5 ∷ 6 ∷ 7 ∷ 5 ∷ 6 ∷ [])
      (2, 5 ∷ 6 ∷ 7 ∷ 5 ∷ 6 ∷ 8 ∷ []) packets (8 ∷ [])
      (sends (omega arith) (omega arith) three_sent
        (sends (omega arith) (omega arith) two_sent ends))
      ((omega arith, omega arith), ((omega arith, omega arith), tt)) refl
