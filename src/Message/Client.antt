-- ===== src/Message/Client.antt =====
-- A client of the class `Message` (src/Message.cpp): any calls, in any order, of the put functions,
-- the get functions, the setters of the header, `readMessageLength` and `debugMessagePrint`, where
-- the client catches the exceptions. `updateDataLength`, which is public as well, is not among them:
-- it moves the length past bytes that no put has written.
pub mod Reading
pub mod Sound
mod Tests
use kcmsg.Prelude.{ℕ, Bool, List, [], ◌∷◌, Option}
use kcmsg.Message.Host.{Host, Tm}
use kcmsg.Buffer.{Buffer}
use kcmsg.Message.{
  Message, Outcome, M, done, throws, aborts, faults, running, bind_outcome, read_message_length,
}
use kcmsg.Message.Header.{
  set_source_identifier, set_source_organization, set_target_identifier, set_target_organization,
  set_transaction_identifier, set_transaction_application, set_transaction_organization, set_ttl,
}
use kcmsg.Message.Flags.{set_once_and_only_once, set_quick_death, set_message_fragment}
use kcmsg.Message.Print.{print_loop}
use kcmsg.Message.Value.{Value, put}
use kcmsg.Message.Value.Wrong.{get_like}

pub data Field : Type 0 where
  source_identifier : Field
  source_organization : Field
  target_identifier : Field
  target_organization : Field
  transaction_identifier : Field
  transaction_application : Field
  transaction_organization : Field
  time_to_live : Field

pub data Flag : Type 0 where
  once_and_only_once : Flag
  quick_death : Flag
  message_fragment : Flag

-- The get function is that for the kind of the value; the number is the fuel of the loop.
pub data Call : Type 0 where
  puts : Value → Call
  gets : Value → Call
  prints : ℕ → Call
  sets : Field → ℕ → Call
  marks : Flag → Bool → Call
  reads_length : Call

unfoldable pub set_field : Field → ℕ → Message → Message
set_field source_identifier id m = set_source_identifier id m
set_field source_organization id m = set_source_organization id m
set_field target_identifier id m = set_target_identifier id m
set_field target_organization id m = set_target_organization id m
set_field transaction_identifier id m = set_transaction_identifier id m
set_field transaction_application id m = set_transaction_application id m
set_field transaction_organization id m = set_transaction_organization id m
set_field time_to_live val m = set_ttl val m

unfoldable pub set_flag : Flag → Bool → Message → Message
set_flag once_and_only_once val m = set_once_and_only_once val m
set_flag quick_death val m = set_quick_death val m
set_flag message_fragment val m = set_message_fragment val m

-- A client's program goes on to the end, or a call of it fails an assertion, is undefined or
-- is cut off.
pub data Ran : Type 0 where
  runs : Message → Ran
  stops : Call → Ran

abbrev pub continue : Call → Outcome (Unit {0}) → (Message → Ran) → Ran
continue c (done t m) f = f m
continue c (throws e m) f = f m
continue c aborts f = stops c
continue c faults f = stops c
continue c running f = stops c

module _ (host : Host) where
  unfoldable pub perform : Call → M (Unit {0})
  perform (puts v) m = put v m
  perform (gets v) m = bind_outcome (get_like host.malloc v m) (λ w m'. done tt m')
  perform (prints fuel) m = (print_loop host fuel m).1
  perform (sets f id) m = done tt (set_field f id m)
  perform (marks f val) m = done tt (set_flag f val m)
  perform reads_length m = read_message_length m

  unfoldable pub run : List Call → Message → Ran
  run [] m = runs m
  run (c ∷ cs) m = continue c (perform c m) (run cs)
