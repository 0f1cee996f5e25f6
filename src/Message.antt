-- ===== src/Message.antt =====
-- The class `Message` (src/Message.h, src/Message.cpp): its state, what a call can end in, the
-- copies between the message and its heap block, the length field, and the constructor.
-- A call is a function of the message, composed by do blocks.
pub mod Tag
pub mod Host
pub mod Put
pub mod Append
pub mod Get
pub mod Invariant
pub mod Read
pub mod Bounds
pub mod Value
pub mod Print
pub mod Arrays
pub mod Serialize
pub mod Queue
pub mod Header
pub mod Flags
pub mod Transport
pub mod Compose
pub mod Client
pub mod Samples
mod Tests
use kcmsg.Prelude.{ℕ, ◌+◌, Bool, List, leb, if◌then◌else◌, length}
use kcmsg.Prelude.Bytes.{add_size, le_bytes, le_value}
use kcmsg.Buffer.{Buffer, load, store}

pub record MessageHeader : Type 0 where
  pub source_ident : ℕ
  pub source_organization : ℕ
  pub target_ident : ℕ
  pub target_organization : ℕ
  pub transaction_ident : ℕ
  pub transaction_application : ℕ
  pub transaction_organization : ℕ
  pub ttl : ℕ
  pub flags : ℕ

-- `bytes` is the heap block that the field `data` points to.
pub record Message : Type 0 where
  pub bytes : Buffer
  pub offset : ℕ
  pub data_length : ℕ
  pub hdr : MessageHeader

abbrev pub max_msg_data : ℕ
max_msg_data = 0xFFFF

abbrev pub message_length_offset : ℕ
message_length_offset = 0x18

-- The end of the header and of the length field, where the user data begins.
abbrev pub user_data_offset : ℕ
user_data_offset = message_length_offset + 2

-- The texts that the code passes to `std::domain_error`.
pub data DomainError : Type 0 where
  exceeded_maximum : DomainError
  unknown_data_type : DomainError

-- How a call ends: it returns, throws a `std::domain_error`, fails an `assert`, or does what C++
-- leaves undefined (a copy outside of a block). `running` is a loop that the fuel has cut off.
pub data Outcome {ℓ} (A : Type ℓ) : Type ℓ where
  done : A → Message → Outcome A
  throws : DomainError → Message → Outcome A
  aborts : Outcome A
  faults : Outcome A
  running : Outcome A

abbrev pub M {ℓ} : Type ℓ → Type ℓ
M A = Message → Outcome A

abbrev pub pure {ℓ} : {A : Type ℓ} → A → M A
pure a m = done a m

abbrev pub bind_outcome {ℓ κ} : {A : Type ℓ} {B : Type κ} → Outcome A → (A → M B) → Outcome B
bind_outcome (done a m) f = f a m
bind_outcome (throws e m) f = throws e m
bind_outcome aborts f = aborts
bind_outcome faults f = faults
bind_outcome running f = running

-- The message that a call leaves, or another one.
abbrev pub left_by : Message → Outcome (Unit {0}) → Message
left_by o (done t m) = m
left_by o _ = o

infixl 5 ◌>>=◌ ◌>>◌
abbrev pub ◌>>=◌ {ℓ κ} : {A : Type ℓ} {B : Type κ} → M A → (A → M B) → M B
◌>>=◌ c f m = bind_outcome (c m) f

abbrev pub ◌>>◌ {ℓ} : {B : Type ℓ} → M (Unit {0}) → M B → M B
c >> k = c >>= λ _. k

abbrev pub assert : Bool → M (Unit {0})
assert b m = if b then done tt m else aborts

-- `memcpy(&data[p], xs, n)`, undefined past the end of the block.
unfoldable pub copy_in : ℕ → List ℕ → M (Unit {0})
copy_in p xs m =
    if leb (p + length xs) max_msg_data
    then done tt (record m { bytes = store m.bytes p xs })
    else faults

-- `memcpy(x, &data[p], n)`
unfoldable pub copy_out : ℕ → ℕ → M (List ℕ)
copy_out p n m = if leb (p + n) max_msg_data then done (load m.bytes p n) m else faults

-- `offset += n`
unfoldable pub advance : ℕ → M (Unit {0})
advance n m = done tt (record m { offset = add_size m.offset n })

unfoldable pub update_data_length : ℕ → M (Unit {0})
update_data_length delta m =
    let data_length = add_size m.data_length delta in
    copy_in message_length_offset (le_bytes 2 data_length) (record m { data_length = data_length })

unfoldable pub read_message_length : M (Unit {0})
read_message_length = do
  field ← copy_out message_length_offset 2
  λ m. done tt (record m { data_length = le_value field })

-- The constructor. `allocated` says whether `malloc` returned a block, `hdr` is what the memory of
-- the field held before: the constructor leaves it as it is.
unfoldable pub construct : Bool → MessageHeader → Outcome (Unit {0})
unfolding copy_in
construct allocated hdr =
    if allocated
    then copy_in message_length_offset (le_bytes 2 user_data_offset) (record {
      bytes = λ _. 0;
      offset = user_data_offset;
      data_length = user_data_offset;
      hdr = hdr;
    })
    else aborts

-- `memcpy(&data[data_length], xs, n); updateDataLength(n)`
unfoldable pub append : List ℕ → M (Unit {0})
append xs m = (do copy_in m.data_length xs; update_data_length (length xs)) m

unfoldable pub get_message_length : Message → ℕ
get_message_length m = m.data_length
