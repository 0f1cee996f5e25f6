-- ===== src/Message/Bounds/Ends.antt =====
-- The loop of `debugMessagePrint` (src/Message.cpp) on a message of any bytes.
use kcmsg.Prelude.{
  ℕ, zero, suc, ◌-◌, ◌<◌, ◌≡◌, ◌≢◌, inl, inr, refl, [], Option, none, some, arith, lt→ltb, le→ltb,
  lt_or_le,
}
use kcmsg.Message.Host.{Host}
use kcmsg.Message.{Message, Outcome, done, throws, aborts, faults, running}
use kcmsg.Message.Print.{print_item, print_loop, also, Printout}
use kcmsg.Message.Value.{Value}
use kcmsg.Message.Bounds.{Reads}
use kcmsg.Message.Bounds.Cases.{IsArray, print_item-Reads}

-- The messages that the turns of the loop lead to.
pub data Turns (host : Host) : Message → Message → Type 0 where
  stay : {m : Message} → Turns host m m
  turn :
      {m m1 m2 : Message} (item : Option Value)
      → m.offset < m.data_length
      → print_item host m ≡ done item m1
      → Turns host m1 m2
      → Turns host m m2

-- No identifier that the loop comes to is an array's.
abbrev pub MeetsNoArray : Host → Message → Type 0
MeetsNoArray host m =
    (m' : Message) → Turns host m m' → m'.offset < m'.data_length → ¬ IsArray (m'.bytes m'.offset)

abbrev pub HasEnded : Printout → Type 0
HasEnded p = p.1 ≢ running

also-HasEnded : (item : Option Value) (p : Printout) → HasEnded p → HasEnded (also item p)
also-HasEnded none p h = h
also-HasEnded (some v) p h = h

module _ (host : Host) where
  turn-HasEnded :
      (fuel : ℕ) (m : Message) (o : Outcome (Option Value))
      → m.offset < m.data_length
      → print_item host m ≡ o
      → Reads 1 m o
      → MeetsNoArray host m
      → m.data_length - m.offset < suc fuel
      → ((m1 : Message)
          → MeetsNoArray host m1
          → m1.data_length - m1.offset < fuel
          → HasEnded (print_loop host fuel m1))
      → HasEnded (elim o [
        | done item m1 ↦ also item (print_loop host fuel m1)
        | throws e m1 ↦ ([], throws e m1)
        | aborts ↦ ([], aborts)
        | faults ↦ ([], faults)
        | running ↦ ([], running)
      ])
  turn-HasEnded fuel m (done item m1) more e r h f rest =
      also-HasEnded item (print_loop host fuel m1)
        (rest m1 (λ m2 t. h m2 (turn item more e t)) (omega (arith, r.forward, r.data_length)))
  turn-HasEnded fuel m (throws x m1) more e r h f rest = λ same. absurd (cc)
  turn-HasEnded fuel m aborts more e r h f rest = λ same. absurd (cc)
  turn-HasEnded fuel m faults more e r h f rest = λ same. absurd (cc)
  turn-HasEnded fuel m running more e r h f rest = absurd r

  -- Whatever the bytes are and whatever length the message claims: if no identifier that it comes
  -- to is an array's, the loop ends, by its test, an exception, a failed assertion or undefined
  -- behaviour; one more turn than there are bytes left is enough.
  pub print_loop-HasEnded :
      (fuel : ℕ) (m : Message)
      → MeetsNoArray host m
      → m.data_length - m.offset < fuel
      → HasEnded (print_loop host fuel m)
  unfolding print_loop
  print_loop-HasEnded zero m h f = absurd (omega arith)
  print_loop-HasEnded (suc fuel) m h f = elim (lt_or_le m.offset m.data_length) [
    | inl more ↦ rw (lt→ltb m.offset m.data_length more) (
        turn-HasEnded fuel m (print_item host m) more refl (print_item-Reads host m (h m stay more))
          h f (print_loop-HasEnded fuel))
    | inr over ↦ rw (le→ltb m.offset m.data_length over) (λ same. absurd (cc))
  ]
