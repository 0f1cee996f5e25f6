-- ===== src/Message/Client/Sound.antt =====
-- What a client of a message (src/Message.cpp) can rely on after any of its calls.
use kcmsg.Prelude.{
  ℕ, ◌+◌, ◌≤◌, ◌<◌, ◌≡◌, refl, ◌∙◌, sym, ap, inl, inr, lt_or_le, Bool, true, false, List, [], ◌∷◌,
  arith, length, All,
}
use kcmsg.Prelude.Bytes.{le_bytes}
use kcmsg.Message.Host.{Host}
use kcmsg.Buffer.{load}
use kcmsg.Message.{
  Message, MessageHeader, Outcome, done, throws, aborts, faults, running, bind_outcome,
  max_msg_data, user_data_offset, message_length_offset,
}
use kcmsg.Message.Append.{Appended}
use kcmsg.Message.Header.{
  set_source_identifier, set_source_organization, set_target_identifier, set_target_organization,
  set_transaction_identifier, set_transaction_application, set_transaction_organization, set_ttl,
}
use kcmsg.Message.Flags.{set_once_and_only_once, set_quick_death, set_message_fragment}
use kcmsg.Message.Invariant.{IsValid, read_message_length_lem}
use kcmsg.Message.Print.{print_loop}
use kcmsg.Message.Value.{Value, put, encode, IsPlain, HasSize}
use kcmsg.Message.Value.Put.{put_fits, put_full}
use kcmsg.Message.Value.Wrong.{get_like}
use kcmsg.Message.Bounds.{Moved, Reads}
use kcmsg.Message.Client.{
  Field, source_identifier, source_organization, target_identifier, target_organization,
  transaction_identifier, transaction_application, transaction_organization, time_to_live, Flag,
  once_and_only_once, quick_death, message_fragment, Call, puts, gets, prints, sets, marks,
  reads_length, set_field, set_flag, Ran, runs, stops, continue, perform, run,
}
use kcmsg.Message.Client.Reading.{Moves, get_like-Reads, print_loop-Moves}

-- The offset and the length stand in the block, behind the header, and the length field of the
-- header holds the length.
pub record IsSound (m : Message) : Type 0 where
  pub begins : user_data_offset ≤ m.offset
  pub inside : m.offset ≤ max_msg_data
  pub after_header : user_data_offset ≤ m.data_length
  pub within : m.data_length ≤ max_msg_data
  pub field : load m.bytes message_length_offset 2 ≡ le_bytes 2 m.data_length

-- Nothing that was written is written over or taken back.
pub record Grows (m m' : Message) : Type 0 where
  pub longer : m.data_length ≤ m'.data_length
  pub forward : m.offset ≤ m'.offset
  pub kept : (i : ℕ) → user_data_offset ≤ i → i < m.data_length → m'.bytes i ≡ m.bytes i

-- Only the calls that read the message's bytes can fail an assertion, be undefined or not end.
abbrev pub IsReading : Call → Type 0
IsReading (gets v) = Unit
IsReading (prints fuel) = Unit
IsReading c = ⊥

abbrev pub Keeps : Message → Ran → Type 0
Keeps m (runs m') = IsSound m' × Grows m m'
Keeps m (stops c) = IsReading c

-- No put of a wide string of more than 255 characters, or of a string too large for any memory.
abbrev pub IsAllowed : Call → Type 0
IsAllowed (puts v) = IsPlain v × HasSize v
IsAllowed c = Unit

Grows-refl : (m : Message) → Grows m m
Grows-refl m = record { longer = omega arith; forward = omega arith; kept = λ i lo hi. refl }

Grows-trans : {a b c : Message} → Grows a b → Grows b c → Grows a c
Grows-trans f g = record {
  longer = omega (arith, f.longer, g.longer);
  forward = omega (arith, f.forward, g.forward);
  kept = λ i lo hi. g.kept i lo (omega (arith, f.longer)) ∙ f.kept i lo hi;
}

Keeps-trans : {m m1 : Message} (r : Ran) → Grows m m1 → Keeps m1 r → Keeps m r
Keeps-trans (runs m') f (s, g) = (s, Grows-trans f g)
Keeps-trans (stops c) f k = k

-- The outcome of one call.
abbrev Leaves : Call → Message → Outcome (Unit {0}) → Type 0
Leaves c m (done t m') = IsSound m' × Grows m m'
Leaves c m (throws e m') = IsSound m' × Grows m m'
Leaves c m aborts = IsReading c
Leaves c m faults = IsReading c
Leaves c m running = IsReading c

continue-Keeps :
    (c : Call) (m : Message) (o : Outcome (Unit {0})) (f : Message → Ran)
    → Leaves c m o
    → ((m' : Message) → IsSound m' → Keeps m' (f m'))
    → Keeps m (continue c o f)
continue-Keeps c m (done t m') f (s, g) k = Keeps-trans (f m') g (k m' s)
continue-Keeps c m (throws e m') f (s, g) k = Keeps-trans (f m') g (k m' s)
continue-Keeps c m aborts f l k = l
continue-Keeps c m faults f l k = l
continue-Keeps c m running f l k = l

Moved-Leaves : {d : ℕ} {m m' : Message} → IsSound m → Moved d m m' → IsSound m' × Grows m m'
Moved-Leaves {d} {m} {m'} s f = (
  record {
    begins = omega (arith, s.begins, f.forward);
    inside = f.inside s.inside;
    after_header = omega (arith, s.after_header, f.data_length);
    within = omega (arith, s.within, f.data_length);
    field =
        ap (λ b. load b message_length_offset 2) f.bytes
        ∙ s.field
        ∙ ap (λ (n : ℕ). le_bytes 2 n) (sym f.data_length);
  },
  record {
    longer = omega (arith, f.data_length);
    forward = omega (arith, f.forward);
    kept = λ i lo hi. ap (λ b. b i) f.bytes;
  },
)

Appended-Leaves :
    {m m' : Message} {xs : List ℕ} → IsSound m → Appended m xs m' → IsSound m' × Grows m m'
Appended-Leaves s a = (
  record {
    begins = omega (arith, a.same_offset, s.begins);
    inside = omega (arith, a.same_offset, s.inside);
    after_header = omega (arith, a.longer, s.after_header);
    within = a.within;
    field = a.field;
  },
  record {
    longer = omega (arith, a.longer);
    forward = omega (arith, a.same_offset);
    kept = λ i lo hi. a.below i hi (inr lo);
  },
)

-- A call that only changes the header.
header-Leaves :
    (m : Message) (h : MessageHeader)
    → IsSound m
    → IsSound (record m { hdr = h }) × Grows m (record m { hdr = h })
header-Leaves m h s = (
  record {
    begins = s.begins;
    inside = s.inside;
    after_header = s.after_header;
    within = s.within;
    field = s.field;
  },
  record { longer = omega arith; forward = omega arith; kept = λ i lo hi. refl },
)

put-Leaves :
    (v : Value) (m : Message) → IsSound m → IsPlain v → HasSize v → Leaves (puts v) m (put v m)
put-Leaves v m s plain size = elim (lt_or_le max_msg_data (m.data_length + length (encode v))) [
  | inl full ↦ rw (put_full m v s.within size full) (s, Grows-refl m)
  | inr fits ↦ let (m', e, a) = put_fits m v s.after_header plain fits in rw e (Appended-Leaves s a)
]

get-Leaves :
    (v : Value) (m : Message) (o : Outcome Value)
    → IsSound m
    → Reads 1 m o
    → Leaves (gets v) m (bind_outcome o (λ w m'. done tt m'))
get-Leaves v m (done w m') s r = Moved-Leaves s r
get-Leaves v m (throws e m') s r = Moved-Leaves s r
get-Leaves v m aborts s r = tt
get-Leaves v m faults s r = tt
get-Leaves v m running s r = tt

print-Leaves :
    (fuel : ℕ) (m : Message) (o : Outcome (Unit {0}))
    → IsSound m
    → Moves m o
    → Leaves (prints fuel) m o
print-Leaves fuel m (done t m') s f = Moved-Leaves s f
print-Leaves fuel m (throws e m') s f = Moved-Leaves s f
print-Leaves fuel m aborts s f = tt
print-Leaves fuel m faults s f = tt
print-Leaves fuel m running s f = tt

set_field-Leaves :
    (f : Field) (id : ℕ) (m : Message)
    → IsSound m
    → IsSound (set_field f id m) × Grows m (set_field f id m)
unfolding set_field set_source_identifier set_source_organization set_target_identifier
    set_target_organization set_transaction_identifier set_transaction_application
    set_transaction_organization set_ttl
set_field-Leaves source_identifier id m s = header-Leaves m _ s
set_field-Leaves source_organization id m s = header-Leaves m _ s
set_field-Leaves target_identifier id m s = header-Leaves m _ s
set_field-Leaves target_organization id m s = header-Leaves m _ s
set_field-Leaves transaction_identifier id m s = header-Leaves m _ s
set_field-Leaves transaction_application id m s = header-Leaves m _ s
set_field-Leaves transaction_organization id m s = header-Leaves m _ s
set_field-Leaves time_to_live id m s = header-Leaves m _ s

set_flag-Leaves :
    (f : Flag) (val : Bool) (m : Message)
    → IsSound m
    → IsSound (set_flag f val m) × Grows m (set_flag f val m)
unfolding set_flag set_once_and_only_once set_quick_death set_message_fragment
set_flag-Leaves once_and_only_once true m s = header-Leaves m _ s
set_flag-Leaves once_and_only_once false m s = header-Leaves m _ s
set_flag-Leaves quick_death true m s = header-Leaves m _ s
set_flag-Leaves quick_death false m s = header-Leaves m _ s
set_flag-Leaves message_fragment true m s = header-Leaves m _ s
set_flag-Leaves message_fragment false m s = header-Leaves m _ s

module _ (host : Host) where
  perform-Leaves :
      (c : Call) (m : Message) → IsSound m → IsAllowed c → Leaves c m (perform host c m)
  unfolding perform
  perform-Leaves (puts v) m s (plain, size) = put-Leaves v m s plain size
  perform-Leaves (gets v) m s u =
      get-Leaves v m (get_like host.malloc v m) s (get_like-Reads host m v)
  perform-Leaves (prints fuel) m s u =
      print-Leaves fuel m (print_loop host fuel m).1 s (print_loop-Moves host fuel m)
  perform-Leaves (sets f id) m s u = set_field-Leaves f id m s
  perform-Leaves (marks f val) m s u = set_flag-Leaves f val m s
  perform-Leaves reads_length m s u =
      rw (read_message_length_lem m s.within s.field) (s, Grows-refl m)

  -- Whatever a client calls of the put functions, the get functions, the setters of the header,
  -- `readMessageLength` and `debugMessagePrint`, in any order, catching the exceptions: the offset
  -- and the length stay in the block and behind the header, the length field holds the length, and
  -- no byte of what was put before is written over or taken back, until a get function or
  -- `debugMessagePrint` fails an assertion, is undefined or does not end; no other call does. The
  -- client does not put a wide string of more than 255 characters, or a string too large for any
  -- memory.
  pub run-Keeps :
      (cs : List Call) (m : Message) → IsSound m → All IsAllowed cs → Keeps m (run host cs m)
  unfolding run
  run-Keeps [] m s u = (s, Grows-refl m)
  run-Keeps (c ∷ cs) m s (allowed, u) =
      continue-Keeps c m (perform host c m) (run host cs) (perform-Leaves c m s allowed)
        (λ m' s'. run-Keeps cs m' s' u)

-- A new message.
pub IsValid-IsSound : {m : Message} → IsValid m → IsSound m
IsValid-IsSound v = record {
  begins = v.begins;
  inside = omega (arith, v.ordered, v.within);
  after_header = omega (arith, v.begins, v.ordered);
  within = v.within;
  field = v.field;
}
