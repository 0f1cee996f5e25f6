-- ===== src/Message/Client/Tests.antt =====
-- A client of a small message (src/Message.cpp).
use kcmsg.Prelude.{ℕ, ◌≡◌, refl, Option, some, none, true, List, [], ◌∷◌, arith}
use kcmsg.Buffer.{load, store}
use kcmsg.Message.{append, copy_in, copy_out, update_data_length, advance, read_message_length}
use kcmsg.Message.Header.{set_ttl}
use kcmsg.Message.Flags.{set_quick_death}
use kcmsg.Message.Put.{put_wstring, has_room, add_data_length}
use kcmsg.Message.Get.{
  get_short, get_wstring, get_string_length, get_value, take_bytes, get_data_type, copy_wstring,
  copy_string, get_length,
}
use kcmsg.Message.Print.{print_loop, print_item, print_case}
use kcmsg.Message.Samples.{host, one_short, one_short-Holds}
use kcmsg.Message.Value.{put, short, wstring}
use kcmsg.Message.Client.{
  runs, stops, Ran, perform, set_field, set_flag, Call, puts, gets, prints, sets, marks,
  reads_length, time_to_live, quick_death, run,
}
use kcmsg.Message.Client.Sound.{Keeps, IsValid-IsSound, run-Keeps}

abbrev calls : List Call
calls =
    sets time_to_live 60
    ∷ puts (wstring (b'a' ∷ []))
    ∷ gets (short 0)
    ∷ marks quick_death true
    ∷ reads_length
    ∷ prints 5
    ∷ []

-- The run goes to the end, and `debugMessagePrint` prints the wide string.
abbrev length_left : Ran → Option (ℕ × ℕ)
length_left (runs m) = some (m.offset, m.data_length)
length_left (stops c) = none

run-calls : length_left (run host calls one_short) ≡ some (35, 35)
unfolding run perform put has_room add_data_length set_field set_flag put_wstring set_ttl
    set_quick_death get_short get_wstring get_string_length get_value take_bytes get_data_type
    copy_wstring copy_string print_loop print_item print_case get_length append copy_in copy_out
    update_data_length advance read_message_length load store
run-calls = refl

run-Keeps_example : Keeps one_short (run host calls one_short)
run-Keeps_example =
    run-Keeps host calls one_short (IsValid-IsSound (one_short-Holds.valid))
      (tt, ((omega arith, omega arith), (tt, (tt, (tt, (tt, tt))))))
