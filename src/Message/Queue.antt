-- ===== src/Message/Queue.antt =====
-- A message as a queue of values: what the put functions append is what the loop of
-- `debugMessagePrint` finds, in the same order.
pub mod Refine
pub mod Print
pub mod Expect
mod Tests
use kcmsg.Prelude.{
  ℕ, ◌+◌, ◌≤◌, ◌<◌, ◌≡◌, refl, sym, ◌∙◌, ap, List, [], ◌∷◌, ◌++◌, Option, some, arith, length, true,
  length-append,
}
use mathlib.Core.Path.{ap₂}
use mathlib.Core.List.{append-nil, append_assoc}
use kcmsg.Message.Host.{Host, Tm}
use kcmsg.Buffer.{Buffer, load, load-add}
use kcmsg.Message.{Message, MessageHeader, done, construct, max_msg_data}
use kcmsg.Message.Append.{Appended, load-Appended}
use kcmsg.Message.Invariant.{IsValid, Appended-IsValid, construct-IsValid}
use kcmsg.Message.Read.{StartsWith, StartsWith-append, skip}
use kcmsg.Message.Print.{print_item}
use kcmsg.Message.Value.{
  Value, string, wstring, encode, encode_string, encode_wstring, put, IsPlain,
}
use kcmsg.Message.Value.Put.{put_fits}
use kcmsg.Message.Value.Get.{IsPrintable}
use kcmsg.Message.Value.Get.{print_item_lem}

abbrev pub encode_all : List Value → List ℕ
encode_all [] = []
encode_all (v ∷ vs) = encode v ++ encode_all vs

pub encode_all-append :
    (vs ws : List Value) → encode_all (vs ++ ws) ≡ encode_all vs ++ encode_all ws
encode_all-append [] ws = refl
encode_all-append (v ∷ vs) ws =
    ap (λ bs. encode v ++ bs) (encode_all-append vs ws)
    ∙ sym (append_assoc (encode v) (encode_all vs) (encode_all ws))

encode_string-pos : (s : List ℕ) → 0 < length (encode_string s)
encode_string-pos s = ground arith

encode_wstring-pos : (s : List ℕ) → 0 < length (encode_wstring s)
encode_wstring-pos s = ground arith

pub encode-pos : (v : Value) → 0 < length (encode v)
encode-pos (string s) = encode_string-pos s
encode-pos (wstring s) = encode_wstring-pos s
encode-pos _ = omega arith

-- The message is valid, and its bytes from the offset to the end are those of the values.
pub record Holds (m : Message) (vs : List Value) : Type 0 where
  pub valid : IsValid m
  pub content : load m.bytes m.offset (length (encode_all vs)) ≡ encode_all vs
  pub exact : m.offset + length (encode_all vs) ≡ m.data_length

-- A new message is valid and holds no value.
pub construct-Holds :
    (hdr : MessageHeader) → (m : Message) × (construct true hdr ≡ done tt m) × Holds m []
construct-Holds hdr =
    let (m, e, v, off, len, h) = construct-IsValid hdr in
    (m, e, record { valid = v; content = unfold load in refl; exact = omega (arith, off, len) })

length-encode_all-snoc :
    (vs : List Value) (v : Value)
    → length (encode_all (vs ++ (v ∷ []))) ≡ length (encode_all vs) + length (encode v)
length-encode_all-snoc vs v = rw (encode_all-append vs (v ∷ []), append-nil, length-append)

-- A put with room for its value leaves the values and adds its own behind them.
pub put-Holds :
    {m : Message} {vs : List Value} (v : Value)
    → Holds m vs
    → IsPlain v
    → m.data_length + length (encode v) ≤ max_msg_data
    → (m' : Message) × (put v m ≡ done tt m')
      × Holds m' (vs ++ (v ∷ []))
      × (m'.data_length ≡ m.data_length + length (encode v))
put-Holds {m} {vs} v h plain hi =
    let (m', e, a) = put_fits m v (omega (arith, h.valid.begins, h.valid.ordered)) plain hi in
    let content : load m'.bytes m.offset (length (encode_all vs) + length (encode v))
        ≡ encode_all vs ++ encode v =
      load-add m'.bytes m.offset (length (encode_all vs)) (length (encode v))
      ∙ ap₂ ◌++◌
          (load-Appended m.offset (length (encode_all vs)) a h.valid.begins (omega (arith, h.exact))
            ∙ h.content)
          (rw h.exact a.appended) in
    (
      m',
      e,
      record {
        valid = Appended-IsValid h.valid a;
        content =
            rw (a.same_offset, encode_all-append vs (v ∷ []), append-nil, length-append) content;
        exact = omega (arith, length-encode_all-snoc vs v, a.same_offset, a.longer, h.exact);
      },
      a.longer,
    )

-- A turn of the loop takes the first value and leaves the others.
pub print_item-Holds :
    (host : Host) {m : Message} (v : Value) {vs : List Value}
    → Holds m (v ∷ vs)
    → IsPrintable host v
    → (print_item host m ≡ done (some v) (skip (length (encode v)) m))
      × Holds (skip (length (encode v)) m) vs
print_item-Holds host {m} v {vs} h r =
    let all : StartsWith m (encode v ++ encode_all vs) = record {
      here = h.content;
      inside = omega (arith, h.exact, h.valid.within);
    } in
    let (first, second) = StartsWith-append (encode v) (encode_all vs) all in
    (
      print_item_lem host v r first,
      record {
        valid = record {
          begins = omega (arith, h.valid.begins);
          ordered = omega (arith, h.exact, length-append (encode v) (encode_all vs));
          within = h.valid.within;
          field = h.valid.field;
        };
        content = second.here;
        exact = omega (arith, h.exact, length-append (encode v) (encode_all vs));
      },
    )
