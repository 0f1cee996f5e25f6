-- ===== src/Message/Invariant.antt =====
-- The invariant of a message, and what keeps it.
use kcmsg.Prelude.{ℕ, ◌≤◌, ◌≡◌, refl, ap, arith, true, List}
use kcmsg.Prelude.Bytes.{le_bytes, le_value-le_bytes}
use kcmsg.Buffer.{load, load-store}
use kcmsg.Message.{
  Message, MessageHeader, done, construct, copy_out, read_message_length, max_msg_data,
  user_data_offset, message_length_offset,
}
use kcmsg.Message.Append.{Appended}

-- The offset stands in the user data, the length fits the block, and the length field of the
-- header holds it.
pub record IsValid (m : Message) : Type 0 where
  pub begins : user_data_offset ≤ m.offset
  pub ordered : m.offset ≤ m.data_length
  pub within : m.data_length ≤ max_msg_data
  pub field : load m.bytes message_length_offset 2 ≡ le_bytes 2 m.data_length

-- What is appended to a valid message leaves it valid.
pub Appended-IsValid : {m m' : Message} {xs : List ℕ} → IsValid m → Appended m xs m' → IsValid m'
Appended-IsValid v a = record {
  begins = omega (arith, a.same_offset, v.begins);
  ordered = omega (arith, a.same_offset, a.longer, v.ordered);
  within = a.within;
  field = a.field;
}

-- The constructor ends in a valid message without user data.
pub construct-IsValid :
    (hdr : MessageHeader)
    → (m : Message) × (construct true hdr ≡ done tt m)
      × IsValid m
      × (m.offset ≡ user_data_offset)
      × (m.data_length ≡ user_data_offset)
      × (m.hdr ≡ hdr)
unfolding construct
construct-IsValid hdr = (
  _,
  refl,
  record {
    begins = omega arith;
    ordered = omega arith;
    within = omega arith;
    field = load-store _ message_length_offset (le_bytes 2 user_data_offset);
  },
  refl,
  refl,
  refl,
)

-- Where the field holds the length that the message has, `readMessageLength` finds that length.
pub read_message_length_lem :
    (m : Message)
    → m.data_length ≤ max_msg_data
    → load m.bytes message_length_offset 2 ≡ le_bytes 2 m.data_length
    → read_message_length m ≡ done tt m
unfolding read_message_length copy_out
read_message_length_lem m within field = rw field (
    ap (λ (l : ℕ). done tt (record m { data_length = l }))
      (le_value-le_bytes 2 m.data_length (omega (arith, within))))

-- On a valid message `readMessageLength` finds the length that the message has.
pub read_message_length-IsValid : (m : Message) → IsValid m → read_message_length m ≡ done tt m
read_message_length-IsValid m v = read_message_length_lem m v.within v.field
