-- ===== src/Connection/Transfer/Whole.antt =====
-- A message of src/Message.cpp sent by `Writen` and received by `Readn` of src/Connection.cpp.
use kcmsg.Prelude.{ℕ, ◌+◌, ◌<◌, ◌≡◌, ◌∙◌, ap, ◌⊎◌, inl, inr, List, arith, length, All}
use kcmsg.Message.Host.{Host}
use kcmsg.Buffer.{Buffer}
use kcmsg.Message.{Message, MessageHeader, done, user_data_offset}
use kcmsg.Message.Header.{write_header}
use kcmsg.Message.Header.RoundTrip.{FitsTypes}
use kcmsg.Message.Print.{print_loop}
use kcmsg.Message.Queue.{Holds}
use kcmsg.Message.Transport.{receive, receive_lem, write_header_length}
use kcmsg.Message.Value.{Value}
use kcmsg.Message.Value.Get.{IsPrintable}
use kcmsg.Connection.Calls.{Reader, Writer}
use kcmsg.Connection.Read.{IoOutcome, returned, readn}
use kcmsg.Connection.Read.Ends.{GaveUp}
use kcmsg.Connection.Transfer.{Joined, readn-writen}
use kcmsg.Connection.Write.{writen}

module _ (wr : Writer) (rd : Reader) (host : Host) (turns : ℕ) where
  open rd use {pending}

  -- The receiver has a length, a header and values, and what was sent later is still to
  -- come; or a call of its side has failed for another reason than a signal.
  abbrev pub Arrives :
      MessageHeader → ℕ → List Value → Message → List ℕ → IoOutcome rd.World → Type 0
  Arrives h n vs r later o =
      ((c : Buffer) × (v' : rd.World) × (r' : Message) × (o ≡ returned n c v')
        × (pending v' ≡ later)
        × (receive (record r { bytes = c }) ≡ done tt r')
        × (r'.hdr ≡ h)
        × (r'.data_length ≡ n)
        × (print_loop host turns r' ≡ (vs, done tt (record r' { offset = n }))))
      ⊎ GaveUp rd o

  -- The message of a sender that holds printable values, sealed by `writeHeader` and sent by
  -- `Writen` in full.
  pub transfer :
      (fuel fuel' : ℕ) (vs : List Value) (m m' r : Message) (w w' : wr.World) (v : rd.World)
      (later : List ℕ)
      → Holds m vs
      → m.offset ≡ user_data_offset
      → FitsTypes m.hdr
      → All (IsPrintable host) vs
      → length vs < turns
      → write_header m ≡ done tt m'
      → m'.data_length + wr.interrupts w < fuel
      → m'.data_length + rd.interrupts v < fuel'
      → writen wr fuel w m'.bytes m'.data_length ≡ returned m'.data_length m'.bytes w'
      → Joined wr rd w w' v later
      → r.offset ≡ user_data_offset
      → Arrives m.hdr m.data_length vs r later (readn rd fuel' v r.bytes m'.data_length)
  transfer fuel fuel' vs m m' r w w' v later h fresh fits good enough wrote f f' sent joined new =
      let as_long = write_header_length m m' wrote in
      elim (readn-writen wr rd fuel fuel' m'.data_length w w' v m'.bytes r.bytes later f f'
        (omega (arith, h.valid.within)) sent joined) [
          | inl (c, v', e, same, rest) ↦
              let (r', got, hdr, len, found) =
                receive_lem host turns vs m m' r c h fresh fits good enough wrote new same in
              inl
                (c, v', r', e ∙ ap (λ (k : ℕ). returned k c v') as_long, rest, got, hdr, len, found)
          | inr gave_up ↦ inr gave_up
        ]
