-- ===== src/Message/Queue/Print.antt =====
-- The loop of `debugMessagePrint`: what it prints of a message of printable values, and how it ends
-- at an identifier that is an array's or none at all, or at a time without fields.
use kcmsg.Prelude.{
  ℕ, zero, suc, ◌≤◌, ◌<◌, ◌≡◌, refl, ap, ◌∙◌, ◌^◌, ◌⊎◌, List, [], ◌∷◌, none, some, arith, length,
  All, lt→ltb, le→ltb, length-append,
}
use kcmsg.Prelude.Bytes.{le_bytes, le_value-le_bytes}
use kcmsg.Message.Get.{get_time}
use kcmsg.Message.Host.{Host}
use kcmsg.Message.{Message, pure, done, throws, faults, running, unknown_data_type}
use kcmsg.Message.Tag.{
  data_type_time, data_type_bool_array, data_type_durration_array, is_array_type_lem,
}
use kcmsg.Message.Read.{StartsWith, get_data_type_lem, get_value_lem}
use kcmsg.Message.Print.{print_case, shown_time, print_item, print_loop, also}
use kcmsg.Message.Value.{Value, time, encode}
use kcmsg.Message.Value.Get.{IsPrintable}
use kcmsg.Message.Queue.{Holds, encode_all, encode-pos, print_item-Holds}

pub print_loop-Holds :
    (host : Host) (fuel : ℕ) (m : Message) (vs : List Value)
    → Holds m vs
    → All (IsPrintable host) vs
    → length vs < fuel
    → print_loop host fuel m ≡ (vs, done tt (record m { offset = m.data_length }))
unfolding print_loop
print_loop-Holds host zero m vs h r f = absurd (omega arith)
print_loop-Holds host (suc fuel) m [] h r f =
    let at_end : m.offset ≡ m.data_length = omega (arith, h.exact) in
    rw (le→ltb m.offset m.data_length (omega arith))
      (ap (λ (o : ℕ). ([], done tt (record m { offset = o }))) at_end)
print_loop-Holds host (suc fuel) m (v ∷ vs) h (good, r) f =
    let (e, h') = print_item-Holds host v h good in
    rw
      (
        lt→ltb m.offset m.data_length
            (omega (arith, h.exact, length-append (encode v) (encode_all vs), encode-pos v)),
        e,
      )
      (ap (also (some v)) (print_loop-Holds host fuel _ vs h' r (omega arith)))

pub print_case_array :
    (host : Host) (dt : ℕ)
    → data_type_bool_array ≤ dt
    → dt ≤ data_type_durration_array
    → print_case host dt ≡ pure none
unfolding print_case
print_case_array host dt lo hi = rw (is_array_type_lem dt) (ground arith)

print_case_unknown :
    (host : Host) (dt : ℕ)
    → (dt ≡ 0) ⊎ (data_type_durration_array < dt)
    → print_case host dt ≡ throws unknown_data_type
unfolding print_case
print_case_unknown host dt h = rw (is_array_type_lem dt) (ground arith)

module _ (host : Host) (m : Message) (dt : ℕ) (more : m.offset < m.data_length) where
  -- Before an array's identifier the loop reads nothing: it goes on for ever, whatever the fuel.
  pub print_loop_array :
      StartsWith m (dt ∷ [])
      → data_type_bool_array ≤ dt
      → dt ≤ data_type_durration_array
      → (fuel : ℕ) → print_loop host fuel m ≡ ([], running)
  unfolding print_loop print_item
  print_loop_array s lo hi zero = refl
  print_loop_array s lo hi (suc fuel) =
      rw
        (
          lt→ltb m.offset m.data_length more,
          get_data_type_lem dt [] s,
          print_case_array host dt lo hi,
        )
        (print_loop_array s lo hi fuel)

  -- At a byte that is no identifier the loop throws, with the offset on that byte.
  pub print_loop_unknown :
      StartsWith m (dt ∷ [])
      → (dt ≡ 0) ⊎ (data_type_durration_array < dt)
      → (fuel : ℕ) → print_loop host (suc fuel) m ≡ ([], throws unknown_data_type m)
  unfolding print_loop print_item
  print_loop_unknown s h fuel =
      rw (
        lt→ltb m.offset m.data_length more,
        get_data_type_lem dt [] s,
        print_case_unknown host dt h,
      )

module _ (host : Host) (m : Message) (more : m.offset < m.data_length) where
  -- At a time for which `gmtime` returns a null pointer, the loop follows that pointer: its behaviour
  -- is undefined. Eight bytes of a message are enough for that.
  pub print_loop_null_time :
      (v : ℕ)
      → v < 2 ^ 64
      → host.gmtime v ≡ none
      → StartsWith m (encode (time v))
      → (fuel : ℕ) → print_loop host (suc fuel) m ≡ ([], faults)
  unfolding print_loop print_item print_case shown_time get_time
  print_loop_null_time v small null s fuel = rw (
    lt→ltb m.offset m.data_length more,
    get_data_type_lem data_type_time _ s,
    get_value_lem data_type_time (le_bytes 8 v) s,
    ap host.gmtime (le_value-le_bytes 8 v small) ∙ null,
  )
