-- ===== src/Message/Compose.antt =====
-- The life of a message at its sender (src/Message.cpp): the constructor, the functions that set
-- the header, the put functions, and `writeHeader`.
use kcmsg.Prelude.{
  ◌+◌, ◌≤◌, ◌≡◌, refl, sym, ap, ◌∙◌, true, List, [], ◌∷◌, ◌++◌, arith, length, length-append, All,
}
use mathlib.Core.List.{append-nil, append_assoc}
use kcmsg.Message.{
  Message, MessageHeader, left_by, Outcome, M, pure, done, bind_outcome, ◌>>◌, construct,
  max_msg_data, user_data_offset,
}
use kcmsg.Buffer.{load}
use kcmsg.Message.Header.{
  write_header, set_source_identifier, set_source_organization, set_target_identifier,
  set_target_organization, set_transaction_identifier, set_transaction_application,
  set_transaction_organization, set_ttl,
}
use kcmsg.Message.Header.RoundTrip.{write_header-IsValid}
use kcmsg.Message.Invariant.{construct-IsValid}
use kcmsg.Message.Queue.{Holds, encode_all, put-Holds}
use kcmsg.Message.Value.{Value, encode, put, IsPlain}
use kcmsg.Message.Value.Put.{put_fits}

-- All fields but the flags.
unfoldable pub address : MessageHeader → Message → Message
unfolding set_source_identifier set_source_organization set_target_identifier
    set_target_organization set_transaction_identifier set_transaction_application
    set_transaction_organization set_ttl
address h m = set_ttl h.ttl (
    set_transaction_organization h.transaction_organization (
      set_transaction_application h.transaction_application (
        set_transaction_identifier h.transaction_ident (
          set_target_organization h.target_organization (
            set_target_identifier h.target_ident (
              set_source_organization h.source_organization
                (set_source_identifier h.source_ident m)))))))

unfoldable pub put_all : List Value → M (Unit {0})
put_all [] = pure tt
put_all (v ∷ vs) = put v >> put_all vs

-- `left` is what the memory of the member `hdr` held before the constructor.
unfoldable pub compose : MessageHeader → MessageHeader → List Value → Outcome (Unit {0})
compose left h vs =
    bind_outcome (construct true left) (λ _ m. (put_all vs >> write_header) (address h m))

put-keeps :
    {m : Message} {vs : List Value} (v : Value)
    → Holds m vs
    → IsPlain v
    → m.data_length + length (encode v) ≤ max_msg_data
    → (m' : Message) × (put v m ≡ done tt m')
      × Holds m' (vs ++ (v ∷ []))
      × (m'.data_length ≡ m.data_length + length (encode v))
      × (m'.offset ≡ m.offset)
      × (m'.hdr ≡ m.hdr)
put-keeps {m} v h plain hi =
    let (m', e, held, longer) = put-Holds v h plain hi in
    let (m₁, e₁, a) = put_fits m v (omega (arith, h.valid.begins, h.valid.ordered)) plain hi in
    let same : m' ≡ m₁ = ap (left_by m) (sym e ∙ e₁) in
    (
      m',
      e,
      held,
      longer,
      ap (λ (x : Message). x.offset) same ∙ a.same_offset,
      ap (λ (x : Message). x.hdr) same ∙ a.same_hdr,
    )

put_all-keeps :
    (ws : List Value) {m : Message} {vs : List Value}
    → Holds m vs
    → All IsPlain ws
    → m.data_length + length (encode_all ws) ≤ max_msg_data
    → (m' : Message) × (put_all ws m ≡ done tt m')
      × Holds m' (vs ++ ws)
      × (m'.data_length ≡ m.data_length + length (encode_all ws))
      × (m'.offset ≡ m.offset)
      × (m'.hdr ≡ m.hdr)
unfolding put_all
put_all-keeps [] {m} {vs} h plain hi = (m, refl, rw (append-nil vs) h, omega arith, refl, refl)
put_all-keeps (w ∷ ws) {m} {vs} h (plain, more) hi =
    let room = length-append (encode w) (encode_all ws) in
    let (m₁, e₁, h₁, longer₁, off₁, hdr₁) = put-keeps w h plain (omega (arith, room)) in
    let (m₂, e₂, h₂, longer₂, off₂, hdr₂) = put_all-keeps ws h₁ more (omega (arith, room)) in
    (m₂, rw e₁ e₂, rw (append_assoc) at h₂, omega (arith, room), off₂ ∙ off₁, hdr₂ ∙ hdr₁)

-- The setters leave the values as they are.
address-Holds :
    (h : MessageHeader) {m : Message} {vs : List Value} → Holds m vs → Holds (address h m) vs
unfolding address
address-Holds h held = record {
  valid = record {
    begins = held.valid.begins;
    ordered = held.valid.ordered;
    within = held.valid.within;
    field = held.valid.field;
  };
  content = held.content;
  exact = held.exact;
}

-- The header that the message has: the fields that were set, and the flags that the constructor
-- left.
abbrev pub sent_header : MessageHeader → MessageHeader → MessageHeader
sent_header left h = record h { flags = left.flags }

-- A sender whose values fit the block composes its message: no call fails. Before `writeHeader`
-- the message holds the values, unread, with the fields of the header that were set.
pub compose_lem :
    (left h : MessageHeader) (vs : List Value)
    → All IsPlain vs
    → user_data_offset + length (encode_all vs) ≤ max_msg_data
    → (m : Message) × (m' : Message) × (compose left h vs ≡ done tt m')
      × (write_header m ≡ done tt m')
      × Holds m vs
      × (m.offset ≡ user_data_offset)
      × (m.data_length ≡ user_data_offset + length (encode_all vs))
      × (m.hdr ≡ sent_header left h)
unfolding compose address
compose_lem left h vs plain hi =
    let (m₀, e₀, valid, off₀, len₀, hdr₀) = construct-IsValid left in
    let held : Holds m₀ [] = record {
      valid = valid;
      content = unfold load in refl;
      exact = omega (arith, off₀, len₀);
    } in
    let (m, e, holds, len, off, hdr) =
      put_all-keeps vs {m = address h m₀} {vs = []} (address-Holds h held) plain
        (omega (arith, len₀)) in
    let (m', e', valid', off', len', kept) = write_header-IsValid m holds.valid in
    (
      m,
      m',
      rw (e₀, e) e',
      e',
      holds,
      off ∙ off₀,
      omega (arith, len, len₀),
      hdr ∙ ap (λ (g : MessageHeader). record h { flags = g.flags }) hdr₀,
    )
