-- ===== src/Message/Tests.antt =====
-- Runs of the functions of `Message` on small inputs, and the theorems at such inputs.
use kcmsg.Prelude.{
  ℕ, ◌+◌, ◌-◌, ◌*◌, ◌^◌, ◌≤◌, ◌≡◌, refl, inl, inr, true, false, List, [], ◌∷◌, some, arith,
  replicate,
}
use kcmsg.Prelude.Bytes.{le_bytes}
use kcmsg.Buffer.{load, store}
use kcmsg.Message.{
  Message, done, throws, aborts, faults, running, exceeded_maximum, unknown_data_type, construct,
  read_message_length, message_length_offset, user_data_offset,
}
use kcmsg.Message.Append.{Appended}
use kcmsg.Message.Invariant.{IsValid, construct-IsValid, read_message_length-IsValid}
use kcmsg.Message.Put.{put_wstring}
use kcmsg.Message.Get.{get_long, get_string}
use kcmsg.Message.Read.{skip}
use kcmsg.Message.Print.{print_item, print_loop}
use kcmsg.Message.Value.{bool, short, int, string, put, encode}
use kcmsg.Message.Value.Put.{put_fits, put_full}
use kcmsg.Message.Value.Signed.{get_long_lem, get_string_negative, RefusesHuge}
use kcmsg.Message.Value.LongWide.{put_wstring_long-not-IsValid}
use kcmsg.Message.Queue.{Holds, put-Holds, print_item-Holds}
use kcmsg.Message.Queue.Refine.{Op, putting, taking}
use kcmsg.Message.Queue.Print.{print_loop_array, print_loop_null_time, print_loop_unknown}
use kcmsg.Message.Header.{write_header, read_header}
use kcmsg.Message.Header.RoundTrip.{read_header-write_header, write_header-IsValid}
use kcmsg.Message.Flags.{
  set_once_and_only_once, is_once_and_only_once, set_quick_death, is_quick_death,
  set_message_fragment, is_message_fragment,
}
use kcmsg.Message.Flags.Laws.{SetsOnly, flags_independent}
use kcmsg.Message.Samples.{
  blank, holding, serving, host, one_short, one_short-Holds, nearly_full, one_array,
  one_array-StartsWith, one_stray, one_stray-StartsWith, blank-FitsTypes, one_long,
  one_long-StartsWith, text, one_text, one_text-StartsWith, one_time, one_time-StartsWith,
}

new_message : construct true blank ≡ done tt (holding [])
unfolding construct store
new_message = refl

abbrev script : List Op
script =
    putting (short 513)
    ∷ putting (string (b'h' ∷ b'i' ∷ []))
    ∷ taking
    ∷ putting (bool true)
    ∷ taking
    ∷ taking
    ∷ taking
    ∷ []

put_fits_example :
    (m' : Message) × (put (int 70000) one_short ≡ done tt m')
    × Appended one_short (encode (int 70000)) m'
put_fits_example = put_fits one_short (int 70000) (omega arith) tt (omega arith)

put_full_example : put (short 1) nearly_full ≡ throws exceeded_maximum nearly_full
put_full_example = put_full nearly_full (short 1) (omega arith) tt (omega arith)

short_put :
    (m' : Message) × (put (bool true) one_short ≡ done tt m')
    × Holds m' (short 513 ∷ bool true ∷ [])
    × (m'.data_length ≡ 29 + 2)
short_put =
    put-Holds {m = one_short} {vs = short 513 ∷ []} (bool true) one_short-Holds tt (omega arith)

short_taken :
    (print_item host one_short ≡ done (some (short 513)) (skip 3 one_short))
    × Holds (skip 3 one_short) []
short_taken =
    print_item-Holds host {m = one_short} (short 513) {vs = []} one_short-Holds (omega arith)

print_loop_array_example : print_loop host 1000 one_array ≡ ([], running)
print_loop_array_example =
    print_loop_array host one_array 0x12 (omega arith) one_array-StartsWith (omega arith)
      (omega arith) 1000

print_loop_null_time_example : print_loop host 3 one_time ≡ ([], faults)
print_loop_null_time_example =
    print_loop_null_time host one_time (omega arith) (2 ^ 60) (omega arith) refl one_time-StartsWith
      2

stray_run : print_loop host 5 one_stray ≡ ([], throws unknown_data_type one_stray)
stray_run =
    print_loop_unknown host one_stray 0x80 (omega arith) one_stray-StartsWith (inr (omega arith)) 4

read_header_again :
    (m' : Message) × (write_header one_short ≡ done tt m')
    × (read_header (record m' { hdr = record blank { ttl = 0 } }) ≡ done tt m')
read_header_again = read_header-write_header one_short (record blank { ttl = 0 }) blank-FitsTypes

header_written :
    (m' : Message) × (write_header one_short ≡ done tt m')
    × IsValid m'
    × (m'.offset ≡ 26)
    × (m'.data_length ≡ 29)
    × ((p n : ℕ) → user_data_offset ≤ p → load m'.bytes p n ≡ load one_short.bytes p n)
header_written = write_header-IsValid one_short (one_short-Holds.valid)

flags_independent_example :
    SetsOnly set_once_and_only_once is_once_and_only_once is_quick_death is_message_fragment false
      one_short
    × SetsOnly set_quick_death is_quick_death is_once_and_only_once is_message_fragment false
        one_short
    × SetsOnly set_message_fragment is_message_fragment is_once_and_only_once is_quick_death false
        one_short
flags_independent_example = flags_independent false one_short (omega arith)

put_wstring_long-not-IsValid_example :
    (m' : Message) × (put_wstring (replicate 256 b'a') (holding []) ≡ done tt m')
    × (load m'.bytes message_length_offset 2 ≡ le_bytes 2 (26 + (3 + 4 * 256)))
    × (m'.data_length ≡ 26 + (3 + 4 * 256) + 1024)
    × ¬ IsValid m'
put_wstring_long-not-IsValid_example =
    put_wstring_long-not-IsValid (holding []) (replicate 256 b'a') (omega arith) (omega arith)
      (omega arith)

long_read_back : get_long one_long ≡ done (2 ^ 32 - 32768) (skip 3 one_long)
long_read_back = get_long_lem {m = one_long} 32768 one_long-StartsWith

serving-RefusesHuge : RefusesHuge serving
serving-RefusesHuge n h = ground arith

get_string_negative_example : get_string serving one_text ≡ aborts
get_string_negative_example =
    get_string_negative serving {m = one_text} (text 128) serving-RefusesHuge
      (inl (omega arith, omega arith)) one_text-StartsWith

message_built :
    (m : Message) × (construct true blank ≡ done tt m)
    × IsValid m
    × (m.offset ≡ user_data_offset)
    × (m.data_length ≡ user_data_offset)
    × (m.hdr ≡ blank)
message_built = construct-IsValid blank

length_read_back : read_message_length one_short ≡ done tt one_short
length_read_back = read_message_length-IsValid one_short (one_short-Holds.valid)
