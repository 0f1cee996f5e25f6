-- ===== src/Message/Client/Reading.antt =====
-- The get functions and the loop of `debugMessagePrint` (src/Message.cpp) only move the offset,
-- whatever bytes the message holds.
use kcmsg.Prelude.{
  ℕ, zero, suc, ◌+◌, ◌∙◌, inl, inr, lt_or_le, sym, ap, Option, none, some, arith, Bool-cases, ltb,
  [],
}
use mathlib.Core.Path.{subst}
use kcmsg.Message.Host.{Host}
use kcmsg.Message.{Message, M, Outcome, done, throws, aborts, faults, running, max_msg_data}
use kcmsg.Message.Tag.{
  data_type_byte, data_type_short, data_type_int, data_type_long_long, data_type_float,
  data_type_double, data_type_char, data_type_wchar, data_type_time, data_type_duration,
  data_type_bool_array, data_type_durration_array,
}
use kcmsg.Message.Get.{
  get_bool, get_byte, get_short, get_int, get_long, get_long_long, get_float, get_double, get_char,
  get_wchar, get_string, get_wstring, get_time, get_duration,
}
use kcmsg.Message.Print.{print_item, print_loop, also, Printout}
use kcmsg.Message.Value.{
  Value, bool, byte, short, int, long, long_long, float, double, char, wchar, string, wstring, time,
  duration,
}
use kcmsg.Message.Value.Wrong.{get_like, as_value}
use kcmsg.Message.Queue.Print.{print_case_array}
use kcmsg.Message.Bounds.{
  Moved, Moved-none, Moved-trans, Reads, Reads-bind, Reads-weaken, get_value-Reads,
}
use kcmsg.Message.Bounds.Cases.{
  IsArray, print_item-Reads, print_item_outside, print_item_inside, get_bool-Reads, get_long-Reads,
  get_string-Reads, get_wstring-Reads,
}

module _ (host : Host) (m : Message) where
  as_value-Reads :
      {A : Type 0} (f : A → Value) (get : M A) → Reads 1 m (get m) → Reads 1 m (as_value f get m)
  as_value-Reads f get r = Reads-bind 1 m (get m) _ r (λ v m1. Moved-none m1)

  pub get_like-Reads : (v : Value) → Reads 1 m (get_like host.malloc v m)
  unfolding get_byte get_short get_int get_long_long get_float get_double get_char get_wchar
      get_time get_duration
  get_like-Reads (bool v) = as_value-Reads bool get_bool (get_bool-Reads host m)
  get_like-Reads (byte v) = as_value-Reads byte get_byte (get_value-Reads data_type_byte 1 m)
  get_like-Reads (short v) = as_value-Reads short get_short (get_value-Reads data_type_short 2 m)
  get_like-Reads (int v) = as_value-Reads int get_int (get_value-Reads data_type_int 4 m)
  get_like-Reads (long v) = as_value-Reads long get_long (get_long-Reads host m)
  get_like-Reads (long_long v) =
      as_value-Reads long_long get_long_long (get_value-Reads data_type_long_long 8 m)
  get_like-Reads (float v) = as_value-Reads float get_float (get_value-Reads data_type_float 4 m)
  get_like-Reads (double v) =
      as_value-Reads double get_double (get_value-Reads data_type_double 8 m)
  get_like-Reads (char v) = as_value-Reads char get_char (get_value-Reads data_type_char 1 m)
  get_like-Reads (wchar v) = as_value-Reads wchar get_wchar (get_value-Reads data_type_wchar 4 m)
  get_like-Reads (string s) =
      as_value-Reads string (get_string host.malloc) (get_string-Reads host m)
  get_like-Reads (wstring s) =
      as_value-Reads wstring (get_wstring host.malloc) (get_wstring-Reads host m)
  get_like-Reads (time v) = as_value-Reads time get_time (get_value-Reads data_type_time 8 m)
  get_like-Reads (duration v) =
      as_value-Reads duration get_duration (get_value-Reads data_type_duration 4 m)

  -- At an array's identifier a turn of the loop changes nothing.
  print_item_array : IsArray (m.bytes m.offset) → Reads 0 m (print_item host m)
  print_item_array (lo, hi) = elim (lt_or_le max_msg_data (m.offset + 1)) [
    | inl past ↦ subst (Reads 0 m) (sym (print_item_outside host m past)) tt
    | inr fits ↦
        subst (Reads 0 m)
          (sym (
            print_item_inside host m fits
            ∙ ap (λ f. f m) (print_case_array host (m.bytes m.offset) lo hi)))
          (Moved-none m)
  ]

  print_item_any : Reads 0 m (print_item host m)
  print_item_any =
      let dt = m.bytes m.offset in
      elim (lt_or_le dt data_type_bool_array) [
        | inl low ↦
            Reads-weaken 1 m (print_item host m)
              (print_item-Reads host m (λ (lo, hi). omega (arith, lo, low)))
        | inr lo ↦ elim (lt_or_le data_type_durration_array dt) [
          | inl high ↦
              Reads-weaken 1 m (print_item host m)
                (print_item-Reads host m (λ (l, hi). omega (arith, hi, high)))
          | inr hi ↦ print_item_array (lo, hi)
        ]
      ]

-- What a call leaves, if it leaves anything, has moved.
abbrev pub Moves : Message → Outcome (Unit {0}) → Type 0
Moves m (done t m') = Moved 0 m m'
Moves m (throws e m') = Moved 0 m m'
Moves m aborts = Unit
Moves m faults = Unit
Moves m running = Unit

Moves-trans : {m m1 : Message} (o : Outcome (Unit {0})) → Moved 0 m m1 → Moves m1 o → Moves m o
Moves-trans (done t m') f g = Moved-trans f g
Moves-trans (throws e m') f g = Moved-trans f g
Moves-trans aborts f g = tt
Moves-trans faults f g = tt
Moves-trans running f g = tt

also-Moves :
    (m : Message) (item : Option Value) (p : Printout) → Moves m p.1 → Moves m (also item p).1
also-Moves m none p h = h
also-Moves m (some v) p h = h

module _ (host : Host) where
  turn-Moves :
      (fuel : ℕ) (m : Message) (o : Outcome (Option Value))
      → Reads 0 m o
      → ((m1 : Message) → Moves m1 (print_loop host fuel m1).1)
      → Moves m
          (elim o as (λ x. Printout) [
            | done item m1 ↦ also item (print_loop host fuel m1)
            | throws e m1 ↦ ([], throws e m1)
            | aborts ↦ ([], aborts)
            | faults ↦ ([], faults)
            | running ↦ ([], running)
          ]).1
  turn-Moves fuel m (done item m1) r rest =
      also-Moves m item (print_loop host fuel m1)
        (Moves-trans (print_loop host fuel m1).1 r (rest m1))
  turn-Moves fuel m (throws x m1) r rest = r
  turn-Moves fuel m aborts r rest = tt
  turn-Moves fuel m faults r rest = tt
  turn-Moves fuel m running r rest = tt

  pub print_loop-Moves : (fuel : ℕ) (m : Message) → Moves m (print_loop host fuel m).1
  unfolding print_loop
  print_loop-Moves zero m = tt
  print_loop-Moves (suc fuel) m = elim (Bool-cases (ltb m.offset m.data_length)) [
    | inl more ↦
        rw more
          (turn-Moves fuel m (print_item host m) (print_item_any host m) (print_loop-Moves fuel))
    | inr over ↦ rw over (Moved-none m)
  ]
