-- ===== src/Message/Queue/Tests.antt =====
-- Receivers of small messages (src/Message.cpp) that expect some kinds of values.
use kcmsg.Prelude.{◌≡◌, refl, [], ◌∷◌, arith}
use kcmsg.Buffer.{load, store}
use kcmsg.Message.{Message, done, aborts}
use kcmsg.Message.Read.{skip}
use kcmsg.Message.Samples.{serving, one_short, one_short-Holds}
use kcmsg.Message.Value.{short, byte, int, encode}
use kcmsg.Message.Queue.{Holds}
use kcmsg.Message.Queue.Expect.{get_each, agrees, get_each-Holds, get_each_past_end}

-- One that expects an `int` fails.
expects_int : get_each serving (int 0 ∷ []) one_short ≡ aborts
unfolding agrees
expects_int =
    get_each-Holds serving (int 0 ∷ []) (short 513 ∷ []) one_short one_short-Holds (omega arith, tt)
      (omega arith)

-- A message of one short, in a block that has had a longer message in it.
abbrev used_block : Message
used_block = record one_short { bytes = store one_short.bytes 29 (encode (byte 7)) }

used_block-Holds : Holds used_block (short 513 ∷ [])
unfolding load store
used_block-Holds = record {
  valid = record {
    begins = omega arith;
    ordered = omega arith;
    within = omega arith;
    field = refl;
  };
  content = refl;
  exact = refl;
}

get_each_past_end_example :
    get_each serving (short 513 ∷ byte 7 ∷ []) used_block
    ≡ done (short 513 ∷ byte 7 ∷ []) (skip 5 used_block)
unfolding load store
get_each_past_end_example =
    get_each_past_end serving (short 513 ∷ []) (byte 7) used_block used_block-Holds
      (omega arith, tt) (omega arith) refl (omega arith)
