-- ===== src/Message/Bounds/Tests.antt =====
-- A message full of ones, in which every value is a `true`: uses of the theorems on any bytes.
use kcmsg.Prelude.{ℕ, ◌≤◌, ◌<◌, ◌≡◌, refl, ap, ◌∙◌, true, none, some, arith}
use kcmsg.Message.Host.{Host}
use kcmsg.Buffer.{load}
use kcmsg.Message.{Message, done, copy_out, advance}
use kcmsg.Message.Get.{take_bytes, get_data_type, get_value, get_bool}
use kcmsg.Message.Print.{print_item, print_loop, print_case}
use kcmsg.Message.Value.{bool}
use kcmsg.Message.Bounds.Cases.{IsArray, print_item-Moved}
use kcmsg.Message.Bounds.Ends.{Turns, stay, turn, MeetsNoArray, HasEnded, print_loop-HasEnded}

abbrev ones : ℕ → Message
ones offset = record {
  bytes = λ i. 1;
  offset = offset;
  data_length = 30;
  hdr = record {
    source_ident = 0;
    source_organization = 0;
    target_ident = 0;
    target_organization = 0;
    transaction_ident = 0;
    transaction_application = 0;
    transaction_organization = 0;
    ttl = 0;
    flags = 0;
  };
}

-- No memory and no fields of a time.
abbrev no_memory : Host
no_memory = record { malloc = λ n. none; gmtime = λ t. none }

ones_printed : print_item no_memory (ones 26) ≡ done (some (bool true)) (ones 28)
unfolding print_item print_case get_data_type get_bool get_value take_bytes copy_out advance load
ones_printed = refl

one_not-IsArray : (n : ℕ) → n ≡ 1 → ¬ IsArray n
one_not-IsArray n e (lo, hi) = absurd (omega arith)

print_item-Moved_example :
    (26 < 28)
    × ((28 ≤ 0xFFFF)
        × (((ones 28).bytes ≡ (ones 26).bytes) × ((ones 28).data_length ≡ (ones 26).data_length)))
print_item-Moved_example =
    print_item-Moved no_memory (ones 26) (ones 28) (some (bool true)) (one_not-IsArray 1 refl)
      ones_printed

Turns-ones :
    {m m' : Message} → Turns no_memory m m' → ((i : ℕ) → m.bytes i ≡ 1) → (i : ℕ) → m'.bytes i ≡ 1
Turns-ones stay h i = h i
Turns-ones (turn {m} {m1} item more e t) h i =
    let (forward, (inside, (same, claimed))) =
      print_item-Moved no_memory m m1 item (one_not-IsArray (m.bytes m.offset) (h m.offset)) e in
    Turns-ones t (λ j. ap (λ b. b j) same ∙ h j) i

ones-MeetsNoArray : MeetsNoArray no_memory (ones 26)
ones-MeetsNoArray m' t more =
    one_not-IsArray (m'.bytes m'.offset) (Turns-ones t (λ i. refl) m'.offset)

print_loop-HasEnded_example : HasEnded (print_loop no_memory 5 (ones 26))
print_loop-HasEnded_example =
    print_loop-HasEnded no_memory 5 (ones 26) ones-MeetsNoArray (omega arith)
