-- ===== src/Message/Queue/Refine.antt =====
-- A client that puts and takes values, on a message and on a queue with a budget of bytes.
use kcmsg.Prelude.{ℕ, ◌+◌, List, [], ◌∷◌, ◌++◌, Option, some, length, ltb, leb, if◌then◌else◌}
use kcmsg.Message.Host.{Host}
use kcmsg.Message.{Message, Outcome, done, throws, max_msg_data}
use kcmsg.Message.Print.{print_item}
use kcmsg.Message.Value.{Value, encode, put, IsPlain, HasSize}
use kcmsg.Message.Value.Get.{IsPrintable}

pub data Op : Type 0 where
  putting : Value → Op
  taking : Op

-- `broken` is a failed assertion, undefined behaviour or an endless loop.
pub data Reply : Type 0 where
  accepted : Reply
  refused : Reply
  taken : Value → Reply
  empty : Reply
  broken : Reply

abbrev pub put_reply : Message → Outcome (Unit {0}) → Reply × Message
put_reply m (done _ m') = (accepted, m')
put_reply m (throws e m') = (refused, m')
put_reply m r = (broken, m)

abbrev pub take_reply : Message → Outcome (Option Value) → Reply × Message
take_reply m (done (some v) m') = (taken v, m')
take_reply m r = (broken, m)

-- The client takes a value only where the loop of `debugMessagePrint` would go on.
unfoldable pub run : Host → List Op → Message → List Reply
run host [] m = []
run host (putting v ∷ ops) m = let (r, m') = put_reply m (put v m) in r ∷ run host ops m'
run host (taking ∷ ops) m =
    let (r, m') =
      if ltb m.offset m.data_length then take_reply m (print_item host m) else (empty, m) in
    r ∷ run host ops m'

-- The queue: the values, and the bytes that all puts so far have used, the header among them.
pub record Queue : Type 0 where
  pub items : List Value
  pub used : ℕ

unfoldable pub queue_put : Queue → Value → Reply × Queue
queue_put q v =
    let used = q.used + length (encode v) in
    if leb used max_msg_data
    then (accepted, record { items = q.items ++ (v ∷ []); used = used })
    else (refused, q)

unfoldable pub queue_take : List Value → ℕ → Reply × Queue
queue_take [] used = (empty, record { items = []; used = used })
queue_take (v ∷ vs) used = (taken v, record { items = vs; used = used })

unfoldable pub queue_run : List Op → Queue → List Reply
queue_run [] q = []
queue_run (putting v ∷ ops) q = let (r, q') = queue_put q v in r ∷ queue_run ops q'
queue_run (taking ∷ ops) q = let (r, q') = queue_take q.items q.used in r ∷ queue_run ops q'

-- The values that both sides of a connection can use.
abbrev pub IsUsable : Host → Value → Type 0
IsUsable host v = IsPlain v × HasSize v × IsPrintable host v

abbrev pub AllUsable : Host → List Op → Type 0
AllUsable host [] = Unit
AllUsable host (putting v ∷ ops) = IsUsable host v × AllUsable host ops
AllUsable host (taking ∷ ops) = AllUsable host ops
