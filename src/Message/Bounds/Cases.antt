-- ===== src/Message/Bounds/Cases.antt =====
-- A turn of the loop of `debugMessagePrint` (src/Message.cpp): every case but those of the arrays
-- moves the offset forward, and never out of the block.
use kcmsg.Prelude.{
  ℕ, ◌≤◌, ◌<◌, ◌≡◌, ◌∙◌, inl, inr, lt_or_le, refl, sym, ap, Bool, false, Option, none, some, arith,
  ◌==◌, ◌||◌, if◌then◌else◌, ◌*◌, ◌+◌, le→leb, lt→leb,
}
use mathlib.Core.Path.{subst}
use kcmsg.Message.Host.{Host, Tm}
use kcmsg.Buffer.{load}
use kcmsg.Message.{
  Message, M, Outcome, pure, done, throws, aborts, faults, running, unknown_data_type, max_msg_data,
  copy_out,
}
use kcmsg.Message.Tag.{
  data_type_bool, data_type_byte, data_type_short, data_type_int, data_type_long,
  data_type_long_long, data_type_float, data_type_double, data_type_char, data_type_wchar,
  data_type_string_1, data_type_string_2, data_type_wstring_1, data_type_wstring_2, data_type_time,
  data_type_duration, data_type_bool_array, data_type_durration_array, is_array_type,
  is_array_type_lem,
}
use kcmsg.Message.Get.{
  get_data_type, get_value, get_bool, get_byte, get_short, get_int, get_long, get_long_long,
  get_float, get_double, get_char, get_wchar, get_string, get_wstring, get_string_length, get_time,
  get_duration,
}
use kcmsg.Message.Print.{print_case, print_item, shown, shown_time}
use kcmsg.Message.Value.{
  Value, bool, byte, short, int, long, long_long, float, double, char, wchar, string, wstring, time,
  duration,
}
use kcmsg.Message.Bounds.{
  Moved, Moved-none, Reads, Reads-bind, Reads-if, get_value-Reads, get_string_length-Reads,
  copy_string-Reads, copy_wstring-Reads,
}

module _ (host : Host) (m : Message) where
  shown-Reads :
      {A : Type 0} (f : A → Value) (get : M A) → Reads 1 m (get m) → Reads 1 m (shown f get m)
  shown-Reads f get r = Reads-bind 1 m (get m) _ r (λ v m1. Moved-none m1)

  pub get_bool-Reads : Reads 1 m (get_bool m)
  unfolding get_bool
  get_bool-Reads =
      Reads-bind 1 m (get_value data_type_bool 1 m) _ (get_value-Reads data_type_bool 1 m)
        (λ v m1. Moved-none m1)

  pub get_long-Reads : Reads 1 m (get_long m)
  unfolding get_long
  get_long-Reads =
      Reads-bind 1 m (get_value data_type_long 2 m) _ (get_value-Reads data_type_long 2 m)
        (λ v m1. Moved-none m1)

  pub get_string-Reads : Reads 1 m (get_string host.malloc m)
  unfolding get_string
  get_string-Reads =
      Reads-bind 1 m (get_string_length data_type_string_1 data_type_string_2 m) _
        (get_string_length-Reads data_type_string_1 data_type_string_2 m)
        (λ n m1. copy_string-Reads _ n m1)

  pub get_wstring-Reads : Reads 1 m (get_wstring host.malloc m)
  unfolding get_wstring
  get_wstring-Reads =
      Reads-bind 1 m (get_string_length data_type_wstring_1 data_type_wstring_2 m) _
        (get_string_length-Reads data_type_wstring_1 data_type_wstring_2 m)
        (λ n m1. copy_wstring-Reads _ n m1)

abbrev time_case : (ℕ → Option Tm) → ℕ → M (Option Value)
time_case gmtime t m = elim (gmtime t) [ none ↦ faults | some fields ↦ done (some (time t)) m ]

time_case-Reads :
    (gmtime : ℕ → Option Tm) (t : ℕ) (m1 : Message) → Reads 0 m1 (time_case gmtime t m1)
time_case-Reads gmtime t m1 =
    elim (gmtime t)
      as (λ r.
        Reads {A = Option Value} 0 m1
          (elim r [ none ↦ faults | some fields ↦ done (some (time t)) m1 ])) [
            | none ↦ tt
            | some fields ↦ Moved-none m1
          ]

shown_time-Reads : (host : Host) (m : Message) → Reads 1 m (shown_time host.gmtime m)
unfolding shown_time get_time
shown_time-Reads host m =
    Reads-bind 1 m (get_value data_type_time 8 m) _ (get_value-Reads data_type_time 8 m)
      (time_case-Reads host.gmtime)

abbrev pub IsArray : ℕ → Type 0
IsArray dt = (data_type_bool_array ≤ dt) × (dt ≤ data_type_durration_array)

module _ (host : Host) (m : Message) (dt : ℕ) where
  case-Reads :
      {A : Type 0} (b : Bool) (f : A → Value) (get : M A) (y : M (Option Value))
      → Reads 1 m (get m)
      → Reads 1 m (y m)
      → Reads 1 m ((if b then shown f get else y) m)
  case-Reads b f get y r q = Reads-if 1 m b (shown f get) y (shown-Reads host m f get r) q

  last_case-Reads :
      ¬ IsArray dt
      → Reads 1 m
          ((if is_array_type dt then pure {A = Option Value} none else throws unknown_data_type) m)
  last_case-Reads h =
      let no_case : is_array_type dt ≡ false = is_array_type_lem dt ∙ ground (arith, h) in
      rw no_case (Moved-none m)

  print_case-Reads : ¬ IsArray dt → Reads 1 m (print_case host dt m)
  unfolding print_case get_byte get_short get_int get_long_long get_float get_double get_char
      get_wchar get_time get_duration
  print_case-Reads h = case-Reads (dt == data_type_bool) bool get_bool _ (get_bool-Reads host m) (
      case-Reads (dt == data_type_byte) byte get_byte _ (get_value-Reads data_type_byte 1 m) (
        case-Reads (dt == data_type_short) short get_short _ (get_value-Reads data_type_short 2 m) (
          case-Reads (dt == data_type_int) int get_int _ (get_value-Reads data_type_int 4 m) (
            case-Reads (dt == data_type_long) long get_long _ (get_long-Reads host m) (
              case-Reads (dt == data_type_long_long) long_long get_long_long _
                (get_value-Reads data_type_long_long 8 m)
                (case-Reads (dt == data_type_float) float get_float _
                  (get_value-Reads data_type_float 4 m)
                  (case-Reads (dt == data_type_double) double get_double _
                    (get_value-Reads data_type_double 8 m)
                    (case-Reads (dt == data_type_char) char get_char _
                      (get_value-Reads data_type_char 1 m)
                      (case-Reads (dt == data_type_wchar) wchar get_wchar _
                        (get_value-Reads data_type_wchar 4 m)
                        (case-Reads (dt == data_type_string_1 || dt == data_type_string_2) string
                          (get_string host.malloc) _ (get_string-Reads host m)
                          (case-Reads (dt == data_type_wstring_1 || dt == data_type_wstring_2)
                            wstring (get_wstring host.malloc) _ (get_wstring-Reads host m)
                            (Reads-if 1 m (dt == data_type_time) (shown_time host.gmtime) _
                              (shown_time-Reads host m)
                              (case-Reads (dt == data_type_duration) duration get_duration _
                                (get_value-Reads data_type_duration 4 m)
                                (last_case-Reads h))))))))))))))

Reads-done :
    {A : Type 0} (d : ℕ) (m : Message) (o : Outcome A) (a : A) (m' : Message)
    → Reads d m o
    → o ≡ done a m'
    → Moved d m m'
Reads-done d m (done b m1) a m' r e = let same : m1 ≡ m' = cc in subst (Moved d m) same r
Reads-done d m (throws x m1) a m' r e = absurd (cc)
Reads-done d m aborts a m' r e = absurd (cc)
Reads-done d m faults a m' r e = absurd (cc)
Reads-done d m running a m' r e = absurd (cc)

module _ (host : Host) (m : Message) where
  pub print_item_outside : max_msg_data < m.offset + 1 → print_item host m ≡ faults
  unfolding print_item get_data_type copy_out load
  print_item_outside past = rw (lt→leb (m.offset + 1) max_msg_data past) refl

  pub print_item_inside :
      m.offset + 1 ≤ max_msg_data → print_item host m ≡ print_case host (m.bytes m.offset) m
  unfolding print_item get_data_type copy_out load
  print_item_inside fits =
      let value : m.bytes m.offset + 256 * 0 ≡ m.bytes m.offset = omega arith in
      rw (le→leb (m.offset + 1) max_msg_data fits) (ap (λ dt. print_case host dt m) value)

  -- Where no array's identifier stands at the offset.
  pub print_item-Reads : ¬ IsArray (m.bytes m.offset) → Reads 1 m (print_item host m)
  print_item-Reads h = elim (lt_or_le max_msg_data (m.offset + 1)) [
    | inl past ↦ subst (Reads 1 m) (sym (print_item_outside past)) tt
    | inr fits ↦
        subst (Reads 1 m) (sym (print_item_inside fits))
          (print_case-Reads host m (m.bytes m.offset) h)
  ]

-- Whatever bytes the message holds, and whatever length it claims: a turn of the loop that returns,
-- with no array's identifier at the offset, has moved the offset forward and left it in the block of
-- 65535 bytes, and has changed nothing else.
pub print_item-Moved :
    (host : Host) (m m' : Message) (item : Option Value)
    → ¬ IsArray (m.bytes m.offset)
    → print_item host m ≡ done item m'
    → (m.offset < m'.offset)
      × ((m'.offset ≤ max_msg_data) × ((m'.bytes ≡ m.bytes) × (m'.data_length ≡ m.data_length)))
print_item-Moved host m m' item h e =
    let moved = Reads-done 1 m (print_item host m) item m' (print_item-Reads host m h) e in
    elim (lt_or_le max_msg_data (m.offset + 1)) [
      | inl past ↦ let out = print_item_outside host m past in absurd (cc)
      | inr fits ↦ (
        omega (arith, moved.forward),
        (moved.inside (omega arith), (moved.bytes, moved.data_length)),
      )
    ]
