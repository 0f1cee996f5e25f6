-- ===== src/Message/Print.antt =====
-- The loop of `debugMessagePrint` of src/Message.cpp: the values that it prints, in order, and how it
-- ends. The text around them stands in `Elements`.
pub mod Elements
use kcmsg.Prelude.{
  ℕ, zero, suc, List, [], ◌∷◌, Option, none, some, ltb, leb, ◌==◌, ◌&&◌, ◌||◌, if◌then◌else◌,
}
use kcmsg.Message.Host.{Host, Tm}
use kcmsg.Buffer.{Buffer}
use kcmsg.Message.{
  Message, M, Outcome, pure, done, throws, aborts, faults, running, unknown_data_type, ◌>>=◌,
}
use kcmsg.Message.Tag.{
  data_type_bool, data_type_byte, data_type_short, data_type_int, data_type_long,
  data_type_long_long, data_type_float, data_type_double, data_type_char, data_type_wchar,
  data_type_string_1, data_type_string_2, data_type_wstring_1, data_type_wstring_2, data_type_time,
  data_type_duration, is_array_type,
}
use kcmsg.Message.Get.{
  get_data_type, get_bool, get_byte, get_short, get_int, get_long, get_long_long, get_float,
  get_double, get_char, get_wchar, get_string, get_wstring, get_time, get_duration,
}
use kcmsg.Message.Value.{
  Value, bool, byte, short, int, long, long_long, float, double, char, wchar, string, wstring, time,
  duration,
}

-- `std::cout << get...()`
abbrev pub shown {ℓ} : {A : Type ℓ} → (A → Value) → M A → M (Option Value)
shown f get = do v ← get; pure (some (f v))

-- What has been printed, and how the loop ends.
abbrev pub Printout : Type 0
Printout = List Value × Outcome (Unit {0})

abbrev pub also : Option Value → Printout → Printout
also none p = p
also (some v) p = (v ∷ p.0, p.1)

-- The case of a time: the result of `gmtime` is followed without a test.
unfoldable pub shown_time : (ℕ → Option Tm) → M (Option Value)
shown_time gmtime = do
  t ← get_time
  λ m. elim (gmtime t) [ none ↦ faults | some fields ↦ done (some (time t)) m ]

module _ (host : Host) where
  -- The `switch` on the identifier. The case of an array prints and reads nothing.
  unfoldable pub print_case : ℕ → M (Option Value)
  print_case dt =
      if dt == data_type_bool
      then shown bool get_bool
      else if dt == data_type_byte
      then shown byte get_byte
      else if dt == data_type_short
      then shown short get_short
      else if dt == data_type_int
      then shown int get_int
      else if dt == data_type_long
      then shown long get_long
      else if dt == data_type_long_long
      then shown long_long get_long_long
      else if dt == data_type_float
      then shown float get_float
      else if dt == data_type_double
      then shown double get_double
      else if dt == data_type_char
      then shown char get_char
      else if dt == data_type_wchar
      then shown wchar get_wchar
      else if dt == data_type_string_1 || dt == data_type_string_2
      then shown string (get_string host.malloc)
      else if dt == data_type_wstring_1 || dt == data_type_wstring_2
      then shown wstring (get_wstring host.malloc)
      else if dt == data_type_time
      then shown_time host.gmtime
      else if dt == data_type_duration
      then shown duration get_duration
      else if is_array_type dt
      then pure none
      else throws unknown_data_type

  -- The body of the loop.
  unfoldable pub print_item : M (Option Value)
  unfolding print_case
  print_item = do dt ← get_data_type; print_case dt

  -- `while (offset < data_length)`, with fuel.
  unfoldable pub print_loop : ℕ → Message → Printout
  print_loop zero m = ([], running)
  print_loop (suc fuel) m =
      if ltb m.offset m.data_length
      then elim (print_item m) [
        | done item m' ↦ also item (print_loop fuel m')
        | throws e m' ↦ ([], throws e m')
        | aborts ↦ ([], aborts)
        | faults ↦ ([], faults)
        | running ↦ ([], running)
      ]
      else ([], done tt m)
