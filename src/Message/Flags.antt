-- ===== src/Message/Flags.antt =====
-- The flags in the header of src/Message.cpp: one bit each for delivery once and only once, quick
-- death and fragments.
pub mod Laws
use kcmsg.Prelude.{ℕ, ◌+◌, ◌-◌, ◌%◌, ◌^◌, Bool, ltb, if◌then◌else◌, bit_and, bit_or}
use kcmsg.Message.{Message}

abbrev pub msg_flag_once_and_only_once : ℕ
msg_flag_once_and_only_once = 1

abbrev pub msg_flag_quick_death : ℕ
msg_flag_quick_death = 2

abbrev pub msg_flag_fragment : ℕ
msg_flag_fragment = 4

-- `~f` for an `int`.
abbrev pub bit_not : ℕ → ℕ
bit_not f = 2 ^ 32 - 1 - f

abbrev pub with_flags : ℕ → Message → Message
with_flags f m = record m { hdr = record m.hdr { flags = f } }

unfoldable pub set_once_and_only_once : Bool → Message → Message
set_once_and_only_once val m =
    if val
    then with_flags (bit_or m.hdr.flags msg_flag_once_and_only_once % 2 ^ 16) m
    else with_flags (bit_and m.hdr.flags (bit_not msg_flag_once_and_only_once) % 2 ^ 16) m

unfoldable pub is_once_and_only_once : Message → Bool
is_once_and_only_once m = ltb 0 (bit_and m.hdr.flags msg_flag_once_and_only_once)

unfoldable pub set_quick_death : Bool → Message → Message
set_quick_death val m =
    if val
    then with_flags (bit_or m.hdr.flags msg_flag_quick_death % 2 ^ 16) m
    else with_flags (bit_and m.hdr.flags (bit_not msg_flag_quick_death) % 2 ^ 16) m

unfoldable pub is_quick_death : Message → Bool
is_quick_death m = ltb 0 (bit_and m.hdr.flags msg_flag_quick_death)

unfoldable pub set_message_fragment : Bool → Message → Message
set_message_fragment val m =
    if val
    then with_flags (bit_or m.hdr.flags msg_flag_fragment % 2 ^ 16) m
    else with_flags (bit_and m.hdr.flags (bit_not msg_flag_fragment) % 2 ^ 16) m

unfoldable pub is_message_fragment : Message → Bool
is_message_fragment m = ltb 0 (bit_and m.hdr.flags msg_flag_fragment)
