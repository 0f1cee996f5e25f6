-- ===== src/Message/Samples.antt =====
-- Messages, and a C library, that the runs of `Message` start from.
use kcmsg.Prelude.{
  ℕ, ◌+◌, ◌^◌, refl, false, List, [], ◌∷◌, ◌++◌, Option, none, some, arith, length, ltb,
  if◌then◌else◌, replicate,
}
use kcmsg.Prelude.Bytes.{le_bytes}
use kcmsg.Prelude.Text.{lit}
use kcmsg.Message.Host.{Host, Tm}
use kcmsg.Buffer.{Buffer, load, store}
use kcmsg.Message.{Message, MessageHeader}
use kcmsg.Message.Read.{StartsWith}
use kcmsg.Message.Value.{short, long, string, time, encode}
use kcmsg.Message.Queue.{Holds}
use kcmsg.Message.Header.RoundTrip.{FitsTypes}

abbrev pub blank : MessageHeader
blank = record {
  source_ident = 0x12345678;
  source_organization = 7;
  target_ident = 9;
  target_organization = 65535;
  transaction_ident = 1;
  transaction_application = 2;
  transaction_organization = 3;
  ttl = 60;
  flags = 5;
}

-- A message with the given user data.
abbrev pub holding : List ℕ → Message
holding xs = record {
  bytes = store (store (λ _. 0) 26 xs) 24 (le_bytes 2 (26 + length xs));
  offset = 26;
  data_length = 26 + length xs;
  hdr = blank;
}

-- An allocator that serves every size below 2 ^ 63 with a cleared block.
abbrev pub serving : ℕ → Option Buffer
serving n = if ltb n (2 ^ 63) then some (λ _. 0) else none

-- 1970-01-01.
abbrev epoch : Tm
epoch = record {
  sec = 0;
  min = 0;
  hour = 0;
  mday = 1;
  mon = 0;
  wday = 4;
  yday = 0;
  year = 70;
  zone = lit "GMT";
  dst = false;
}

-- A C library with that allocator, and with fields for times below 2 ^ 55.
abbrev pub host : Host
host = record { malloc = serving; gmtime = λ t. if ltb t (2 ^ 55) then some epoch else none }

pub empty-Holds : Holds (holding []) []
unfolding load store
empty-Holds = record {
  valid = record {
    begins = omega arith;
    ordered = omega arith;
    within = omega arith;
    field = refl;
  };
  content = refl;
  exact = refl;
}

-- The message of one short.
abbrev pub one_short : Message
one_short = holding (3 ∷ 1 ∷ 2 ∷ [])

pub one_short-StartsWith : StartsWith one_short (encode (short 513))
unfolding load store
one_short-StartsWith = record { here = refl; inside = omega arith }

pub one_short-Holds : Holds one_short (short 513 ∷ [])
unfolding load store
one_short-Holds = record {
  valid = record {
    begins = omega arith;
    ordered = omega arith;
    within = omega arith;
    field = refl;
  };
  content = refl;
  exact = refl;
}

-- A message with two bytes left.
abbrev pub nearly_full : Message
nearly_full = record (holding []) { data_length = 65533 }

abbrev pub one_array : Message
one_array = holding (0x12 ∷ [])

pub one_array-StartsWith : StartsWith one_array (0x12 ∷ [])
unfolding load store
one_array-StartsWith = record { here = refl; inside = omega arith }

abbrev pub one_stray : Message
one_stray = holding (0x80 ∷ [])

pub one_stray-StartsWith : StartsWith one_stray (0x80 ∷ [])
unfolding load store
one_stray-StartsWith = record { here = refl; inside = omega arith }

pub blank-FitsTypes : FitsTypes blank
blank-FitsTypes = omega arith

-- A `long` of 32768 is read as -32768.
abbrev pub one_long : Message
one_long = holding (encode (long 32768))

pub one_long-StartsWith : StartsWith one_long (encode (long 32768))
unfolding load store
one_long-StartsWith = record { here = refl; inside = omega arith }

-- A time past the years of an `int`.
abbrev pub one_time : Message
one_time = holding (encode (time (2 ^ 60)))

pub one_time-StartsWith : StartsWith one_time (encode (time (2 ^ 60)))
unfolding load store
one_time-StartsWith = record { here = refl; inside = omega arith }

abbrev pub text : ℕ → List ℕ
text n = replicate n b'a'

abbrev pub one_text : Message
one_text = holding (0x0B ∷ (le_bytes 1 128 ++ text 128))

pub one_text-StartsWith : StartsWith one_text (encode (string (text 128)))
unfolding load store
one_text-StartsWith = record { here = refl; inside = omega arith }
