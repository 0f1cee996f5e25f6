-- ===== src/Message/Transport.antt =====
-- A message of src/Message.cpp whose bytes have come to the block of another one.
use kcmsg.Prelude.{ℕ, ◌+◌, ◌≤◌, ◌<◌, ◌≡◌, refl, sym, ◌∙◌, ap, List, arith, length, All}
use mathlib.Core.Path.{subst}
use kcmsg.Prelude.Bytes.{le_bytes, le_value, le_value-le_bytes}
use kcmsg.Message.Host.{Host}
use kcmsg.Buffer.{Buffer, load, load_ext, load-part}
use kcmsg.Message.{
  Message, MessageHeader, left_by, M, done, copy_out, read_message_length, user_data_offset,
  message_length_offset, max_msg_data, ◌>>◌,
}
use kcmsg.Message.Header.{write_header, read_header}
use kcmsg.Message.Header.RoundTrip.{
  FitsTypes, written, write_header_runs, read_header_runs, written_outside,
}
use kcmsg.Message.Print.{print_loop}
use kcmsg.Message.Queue.{Holds, encode_all}
use kcmsg.Message.Queue.Print.{print_loop-Holds}
use kcmsg.Message.Value.{Value}
use kcmsg.Message.Value.Get.{IsPrintable}

-- The header that stands in a block.
abbrev header_at : Buffer → MessageHeader
header_at b = record {
  source_ident = le_value (load b 0 4);
  source_organization = le_value (load b 4 2);
  target_ident = le_value (load b 6 4);
  target_organization = le_value (load b 10 2);
  transaction_ident = le_value (load b 12 2);
  transaction_application = le_value (load b 14 2);
  transaction_organization = le_value (load b 16 2);
  ttl = le_value (load b 18 4);
  flags = le_value (load b 22 2);
}

read_header_loads : (m : Message) → read_header m ≡ done tt (record m { hdr = header_at m.bytes })
unfolding read_header copy_out
read_header_loads m = refl

module _ (b c : Buffer) (n : ℕ) (e : load c 0 n ≡ load b 0 n) (long : 24 ≤ n) where
  part : (p k : ℕ) → p + k ≤ 24 → le_value (load c p k) ≡ le_value (load b p k)
  part p k hi = ap le_value (load-part c b 0 n p k e (omega arith) (omega arith))

  header_at-load : header_at c ≡ header_at b
  header_at-load = λ i. record {
    source_ident = part 0 4 (omega arith) i;
    source_organization = part 4 2 (omega arith) i;
    target_ident = part 6 4 (omega arith) i;
    target_organization = part 10 2 (omega arith) i;
    transaction_ident = part 12 2 (omega arith) i;
    transaction_application = part 14 2 (omega arith) i;
    transaction_organization = part 16 2 (omega arith) i;
    ttl = part 18 4 (omega arith) i;
    flags = part 22 2 (omega arith) i;
  }

header_at-written :
    (m : Message) (h : MessageHeader) → FitsTypes h → header_at (written h m.bytes) ≡ h
header_at-written m h f =
    let both : done tt (record m { bytes = written h m.bytes; hdr = header_at (written h m.bytes) })
        ≡ done tt (record m { bytes = written h m.bytes; hdr = h }) =
      sym (read_header_loads (record m { bytes = written h m.bytes })) ∙ read_header_runs m h f in
    ap (λ o. (left_by m o).hdr) both

read_message_length_lem :
    (m : Message) (n : ℕ)
    → load m.bytes message_length_offset 2 ≡ le_bytes 2 n
    → n ≤ max_msg_data
    → read_message_length m ≡ done tt (record m { data_length = n })
unfolding read_message_length copy_out
read_message_length_lem m n e hi =
    rw e
      (ap (λ (l : ℕ). done tt (record m { data_length = l })) (le_value-le_bytes 2 n (omega arith)))

-- The values that the bytes of a message stand for are those of each block with the same bytes.
Holds-copy :
    {m r : Message} {vs : List Value} (v : Holds m vs)
    → load r.bytes 0 m.data_length ≡ load m.bytes 0 m.data_length
    → r.offset ≡ m.offset
    → r.data_length ≡ m.data_length
    → Holds r vs
Holds-copy {m} {r} {vs} v e off len =
    let hi = v.valid.ordered in
    let lo = v.valid.begins in
    record {
      valid = record {
        begins = omega arith;
        ordered = omega arith;
        within = omega (arith, v.valid.within);
        field = rw len (
            load-part r.bytes m.bytes 0 m.data_length message_length_offset 2 e (omega arith)
              (omega arith)
            ∙ v.valid.field);
      };
      content = rw off (
          load-part r.bytes m.bytes 0 m.data_length m.offset (length (encode_all vs)) e
            (omega arith) (omega (arith, v.exact))
          ∙ v.content);
      exact = omega (arith, v.exact);
    }

-- The message after `writeHeader`.
abbrev sealed : Message → Message
sealed m = record m { bytes = written m.hdr m.bytes }

sealed-Holds : (m : Message) (vs : List Value) → Holds m vs → Holds (sealed m) vs
sealed-Holds m vs h =
    let kept : (p n : ℕ) → 24 ≤ p → load (written m.hdr m.bytes) p n ≡ load m.bytes p n = λ p n lo.
      load_ext (written m.hdr m.bytes) m.bytes p n
        (λ i le hi. written_outside m.hdr m.bytes i (omega arith)) in
    record {
      valid = record {
        begins = h.valid.begins;
        ordered = h.valid.ordered;
        within = h.valid.within;
        field = kept message_length_offset 2 (omega arith) ∙ h.valid.field;
      };
      content = kept m.offset (length (encode_all vs)) (omega (arith, h.valid.begins)) ∙ h.content;
      exact = h.exact;
    }

write_header-sealed : (m m' : Message) → write_header m ≡ done tt m' → m' ≡ sealed m
write_header-sealed m m' e = ap (left_by m) (sym e ∙ write_header_runs m)

pub write_header_length :
    (m m' : Message) → write_header m ≡ done tt m' → m'.data_length ≡ m.data_length
write_header_length m m' e = ap (λ (s : Message). s.data_length) (write_header-sealed m m' e)

-- What the receiver makes of its block: `readMessageLength`, then `readHeader`.
unfoldable pub receive : M (Unit {0})
receive = read_message_length >> read_header

-- The first bytes of the block `c`, as many as the message has, are those of a message `m'` that
-- `writeHeader` has left. A new message `r` with that block then gets the length and the header
-- of the sender's, and the loop of `debugMessagePrint` finds the sender's values in it, in order,
-- and ends; no call fails. The sender has put printable values into its message and has not yet
-- read from it; each field of its header fits its type.
pub receive_lem :
    (host : Host) (fuel : ℕ) (vs : List Value) (m m' r : Message) (c : Buffer)
    → Holds m vs
    → m.offset ≡ user_data_offset
    → FitsTypes m.hdr
    → All (IsPrintable host) vs
    → length vs < fuel
    → write_header m ≡ done tt m'
    → r.offset ≡ user_data_offset
    → load c 0 m'.data_length ≡ load m'.bytes 0 m'.data_length
    → (r' : Message) × (receive (record r { bytes = c }) ≡ done tt r')
      × (r'.hdr ≡ m.hdr)
      × (r'.data_length ≡ m.data_length)
      × (print_loop host fuel r' ≡ (vs, done tt (record r' { offset = m.data_length })))
unfolding receive
receive_lem host fuel vs m m' r c h fresh fits good enough sent new same =
    let is : m' ≡ sealed m = write_header-sealed m m' sent in
    let same' : load c 0 m.data_length ≡ load (written m.hdr m.bytes) 0 m.data_length =
      subst (λ (s : Message). load c 0 s.data_length ≡ load s.bytes 0 s.data_length) is same in
    let before : Message = record r { bytes = c } in
    let lengthy : Message = record before { data_length = m.data_length } in
    let got : Message = record lengthy { hdr = m.hdr } in
    let sealed_h = sealed-Holds m vs h in
    let held : Holds got vs =
      Holds-copy {m = sealed m} {r = got} sealed_h same' (new ∙ sym fresh) refl in
    let field = read_message_length_lem before m.data_length (held.valid.field) h.valid.within in
    let same_hdr : header_at c ≡ m.hdr =
      header_at-load (written m.hdr m.bytes) c m.data_length same'
        (omega (arith, h.valid.begins, h.valid.ordered))
      ∙ header_at-written m m.hdr fits in
    (
      got,
      rw field (
          read_header_loads lengthy
          ∙ ap (λ (g : MessageHeader). done tt (record lengthy { hdr = g })) same_hdr),
      refl,
      refl,
      print_loop-Holds host fuel got vs held good enough,
    )
