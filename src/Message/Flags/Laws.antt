-- ===== src/Message/Flags/Laws.antt =====
-- Each flag is set and cleared alone. The laws of the bits are tables over all values of 16 bits.
use kcmsg.Prelude.{
  ℕ, zero, suc, ◌+◌, ◌-◌, ◌*◌, ◌%◌, ◌/◌, ◌^◌, ◌<◌, ◌≡◌, refl, Bool, true, false, ◌==◌, bit_and,
  bit_or, arith,
}
use kcmsg.Message.{Message}
use kcmsg.Message.Flags.{
  with_flags, set_once_and_only_once, is_once_and_only_once, set_quick_death, is_quick_death,
  set_message_fragment, is_message_fragment,
}

-- At how many of the numbers below `n` two functions differ.
differences : (ℕ → ℕ) → (ℕ → ℕ) → ℕ → ℕ
differences f g zero = 0
differences f g (suc n) = elim (f n == g n) [
  | true ↦ differences f g n
  | false ↦ suc (differences f g n)
]

agree : (f g : ℕ → ℕ) (n i : ℕ) → differences f g n ≡ 0 → i < n → f i ≡ g i
unfolding differences
agree f g zero i none_differ below = elim below [ ]
agree f g (suc n) i none_differ below = ground (arith, agree f g n i)

test_1_table : differences (λ f. bit_and f 1) (λ f. f % 2) 65536 ≡ 0
unfolding differences
test_1_table = refl

test_2_table : differences (λ f. bit_and f 2) (λ f. f / 2 % 2 * 2) 65536 ≡ 0
unfolding differences
test_2_table = refl

test_4_table : differences (λ f. bit_and f 4) (λ f. f / 4 % 2 * 4) 65536 ≡ 0
unfolding differences
test_4_table = refl

set_1_table : differences (λ f. bit_or f 1 % 65536) (λ f. f - f % 2 + 1) 65536 ≡ 0
unfolding differences
set_1_table = refl

set_2_table : differences (λ f. bit_or f 2 % 65536) (λ f. f - f / 2 % 2 * 2 + 2) 65536 ≡ 0
unfolding differences
set_2_table = refl

set_4_table : differences (λ f. bit_or f 4 % 65536) (λ f. f - f / 4 % 2 * 4 + 4) 65536 ≡ 0
unfolding differences
set_4_table = refl

clear_1_table : differences (λ f. bit_and f 4294967294 % 65536) (λ f. f - f % 2) 65536 ≡ 0
unfolding differences
clear_1_table = refl

clear_2_table : differences (λ f. bit_and f 4294967293 % 65536) (λ f. f - f / 2 % 2 * 2) 65536 ≡ 0
unfolding differences
clear_2_table = refl

clear_4_table : differences (λ f. bit_and f 4294967291 % 65536) (λ f. f - f / 4 % 2 * 4) 65536 ≡ 0
unfolding differences
clear_4_table = refl

module _ (f : ℕ) (small : f < 65536) where
  test_1 : bit_and f 1 ≡ f % 2
  test_1 = agree _ _ 65536 f test_1_table small

  test_2 : bit_and f 2 ≡ f / 2 % 2 * 2
  test_2 = agree _ _ 65536 f test_2_table small

  test_4 : bit_and f 4 ≡ f / 4 % 2 * 4
  test_4 = agree _ _ 65536 f test_4_table small

  set_1 : bit_or f 1 % 65536 ≡ f - f % 2 + 1
  set_1 = agree _ _ 65536 f set_1_table small

  set_2 : bit_or f 2 % 65536 ≡ f - f / 2 % 2 * 2 + 2
  set_2 = agree _ _ 65536 f set_2_table small

  set_4 : bit_or f 4 % 65536 ≡ f - f / 4 % 2 * 4 + 4
  set_4 = agree _ _ 65536 f set_4_table small

  clear_1 : bit_and f 4294967294 % 65536 ≡ f - f % 2
  clear_1 = agree _ _ 65536 f clear_1_table small

  clear_2 : bit_and f 4294967293 % 65536 ≡ f - f / 2 % 2 * 2
  clear_2 = agree _ _ 65536 f clear_2_table small

  clear_4 : bit_and f 4294967291 % 65536 ≡ f - f / 4 % 2 * 4
  clear_4 = agree _ _ 65536 f clear_4_table small

-- What it means that `set` is the function for the flag that `this` reads.
pub record SetsOnly (set : Bool → Message → Message) (this first second : Message → Bool)
    (val : Bool) (m : Message) : Type 0 where
  pub reads_back : this (set val m) ≡ val
  pub first_same : first (set val m) ≡ first m
  pub second_same : second (set val m) ≡ second m
  pub bits_above : (set val m).hdr.flags / 8 ≡ m.hdr.flags / 8
  pub in_range : (set val m).hdr.flags < 2 ^ 16
  pub rest_same : set val m ≡ with_flags (set val m).hdr.flags m

tests :
    (f : ℕ)
    → f < 65536
    → (bit_and f 1 ≡ f % 2) × (bit_and f 2 ≡ f / 2 % 2 * 2) × (bit_and f 4 ≡ f / 4 % 2 * 4)
tests f h = (test_1 f h, test_2 f h, test_4 f h)

module _ (m : Message) (small : m.hdr.flags < 65536) where
  set_once-SetsOnly :
      (val : Bool)
      → SetsOnly set_once_and_only_once is_once_and_only_once is_quick_death is_message_fragment val
          m
  unfolding set_once_and_only_once is_once_and_only_once is_quick_death is_message_fragment
  set_once-SetsOnly true =
      let f = m.hdr.flags in
      ground (arith, set_1 f small, tests (bit_or f 1 % 65536) (omega arith), tests f small)
  set_once-SetsOnly false =
      let f = m.hdr.flags in
      ground
        (arith, clear_1 f small, tests (bit_and f 4294967294 % 65536) (omega arith), tests f small)

  set_death-SetsOnly :
      (val : Bool)
      → SetsOnly set_quick_death is_quick_death is_once_and_only_once is_message_fragment val m
  unfolding set_quick_death is_quick_death is_once_and_only_once is_message_fragment
  set_death-SetsOnly true =
      let f = m.hdr.flags in
      ground (arith, set_2 f small, tests (bit_or f 2 % 65536) (omega arith), tests f small)
  set_death-SetsOnly false =
      let f = m.hdr.flags in
      ground
        (arith, clear_2 f small, tests (bit_and f 4294967293 % 65536) (omega arith), tests f small)

  set_fragment-SetsOnly :
      (val : Bool)
      → SetsOnly set_message_fragment is_message_fragment is_once_and_only_once is_quick_death val m
  unfolding set_message_fragment is_message_fragment is_once_and_only_once is_quick_death
  set_fragment-SetsOnly true =
      let f = m.hdr.flags in
      ground (arith, set_4 f small, tests (bit_or f 4 % 65536) (omega arith), tests f small)
  set_fragment-SetsOnly false =
      let f = m.hdr.flags in
      ground
        (arith, clear_4 f small, tests (bit_and f 4294967291 % 65536) (omega arith), tests f small)

-- Setting or clearing one of the three flags gives it that value, and leaves the other two, the
-- unused bits and the rest of the message as they are.
pub flags_independent :
    (val : Bool) (m : Message)
    → m.hdr.flags < 2 ^ 16
    → SetsOnly set_once_and_only_once is_once_and_only_once is_quick_death is_message_fragment val m
      × SetsOnly set_quick_death is_quick_death is_once_and_only_once is_message_fragment val m
      × SetsOnly set_message_fragment is_message_fragment is_once_and_only_once is_quick_death val m
flags_independent val m h =
    (set_once-SetsOnly m h val, set_death-SetsOnly m h val, set_fragment-SetsOnly m h val)
