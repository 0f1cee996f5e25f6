-- ===== src/Message/Bounds.antt =====
-- How far the functions `get...` of src/Message.cpp move the offset, whatever bytes the message holds.
pub mod Cases
pub mod Ends
mod Tests
use kcmsg.Prelude.{
  ℕ, ◌+◌, ◌*◌, ◌≤◌, ◌≡◌, refl, ◌⊎◌, inl, inr, ◌∙◌, Bool, true, false, List, [], ◌∷◌, ◌++◌, Option,
  none, some, arith, length, ltb, leb, leb→le, lt_or_le, le→leb, lt→leb, Bool-cases, ◌==◌, ◌||◌,
  if◌then◌else◌,
}
use kcmsg.Prelude.Bytes.{add_size, mul_size, le_value}
use kcmsg.Buffer.{Buffer, load}
use kcmsg.Message.{
  Message, Outcome, M, pure, done, throws, aborts, faults, running, bind_outcome, ◌>>=◌, ◌>>◌,
  assert, max_msg_data, copy_out, advance,
}
use kcmsg.Message.Get.{
  take_bytes, get_value, get_length, get_string_length, copy_string, copy_wstring, c_string,
  wide_chars, assign, cleared,
}

-- The offset has moved by `d` bytes at least, and within the block; nothing else has changed.
pub record Moved (d : ℕ) (m m' : Message) : Type 0 where
  pub bytes : m'.bytes ≡ m.bytes
  pub data_length : m'.data_length ≡ m.data_length
  pub forward : m.offset + d ≤ m'.offset
  pub inside : m.offset ≤ max_msg_data → m'.offset ≤ max_msg_data

pub Moved-none : (m : Message) → Moved 0 m m
Moved-none m = record { bytes = refl; data_length = refl; forward = omega arith; inside = λ h. h }

pub Moved-trans : {d e : ℕ} {a b c : Message} → Moved d a b → Moved e b c → Moved d a c
Moved-trans f g = record {
  bytes = g.bytes ∙ f.bytes;
  data_length = g.data_length ∙ f.data_length;
  forward = omega (arith, f.forward, g.forward);
  inside = λ h. g.inside (f.inside h);
}

-- The outcome of a call that only reads: it is not cut off, and what it leaves has moved.
abbrev pub Reads {ℓ} : {A : Type ℓ} → ℕ → Message → Outcome A → Type 0
Reads d m (done a m') = Moved d m m'
Reads d m (throws e m') = Moved 0 m m'
Reads d m aborts = Unit
Reads d m faults = Unit
Reads d m running = ⊥

Moved-weaken : {d : ℕ} {a b : Message} → Moved d a b → Moved 0 a b
Moved-weaken f = record {
  bytes = f.bytes;
  data_length = f.data_length;
  forward = omega (arith, f.forward);
  inside = f.inside;
}

module _ {A : Type 0} (d : ℕ) (m : Message) where
  Moved-Reads : (m' : Message) (o : Outcome A) → Moved d m m' → Reads 0 m' o → Reads d m o
  Moved-Reads m' (done a m2) f r = Moved-trans f r
  Moved-Reads m' (throws e m2) f r = Moved-trans (Moved-weaken f) r
  Moved-Reads m' aborts f r = tt
  Moved-Reads m' faults f r = tt
  Moved-Reads m' running f r = r

  pub Reads-weaken : (o : Outcome A) → Reads d m o → Reads 0 m o
  Reads-weaken (done a m') r = Moved-weaken r
  Reads-weaken (throws e m') r = r
  Reads-weaken aborts r = tt
  Reads-weaken faults r = tt
  Reads-weaken running r = r

  pub Reads-if :
      (b : Bool) (x y : M A)
      → Reads d m (x m)
      → Reads d m (y m)
      → Reads d m ((if b then x else y) m)
  Reads-if true x y p q = p
  Reads-if false x y p q = q

  pub Reads-choice :
      (b : Bool) (x y : Outcome A) → Reads d m x → Reads d m y → Reads d m (if b then x else y)
  Reads-choice true x y p q = p
  Reads-choice false x y p q = q

pub Reads-bind :
    {A B : Type 0} (d : ℕ) (m : Message) (o : Outcome A) (f : A → M B)
    → Reads d m o
    → ((a : A) (m' : Message) → Reads 0 m' (f a m'))
    → Reads d m (bind_outcome o f)
Reads-bind d m (done a m') f r k = Moved-Reads d m m' (f a m') r (k a m')
Reads-bind d m (throws e m') f r k = r
Reads-bind d m aborts f r k = tt
Reads-bind d m faults f r k = tt
Reads-bind d m running f r k = r

take_bytes-Reads : (n : ℕ) (m : Message) → Reads n m (take_bytes n m)
unfolding take_bytes copy_out advance
take_bytes-Reads n m = elim (lt_or_le max_msg_data (m.offset + n)) [
  | inl past ↦ rw (lt→leb (m.offset + n) max_msg_data past) tt
  | inr fits ↦ rw (le→leb (m.offset + n) max_msg_data fits) (record {
    bytes = refl;
    data_length = refl;
    forward = omega arith;
    inside = λ h. omega arith;
  })
]

assert-Reads : (b : Bool) (m : Message) → Reads 0 m (assert b m)
assert-Reads true m = Moved-none m
assert-Reads false m = tt

assign-Reads : (s : Option (List ℕ)) (m : Message) → Reads 0 m (assign s m)
assign-Reads none m = tt
assign-Reads (some s) m = Moved-none m

pub get_value-Reads : (tag size : ℕ) (m : Message) → Reads 1 m (get_value tag size m)
unfolding get_value
get_value-Reads tag size m = Reads-bind 1 m (take_bytes 1 m) _ (take_bytes-Reads 1 m) (λ t m1.
    Reads-bind 0 m1 (assert (le_value t == tag) m1) _ (assert-Reads (le_value t == tag) m1) (λ u m2.
      Reads-bind 0 m2 (take_bytes size m2) _
        (Reads-weaken size m2 (take_bytes size m2) (take_bytes-Reads size m2))
        (λ bs m3. Moved-none m3)))

get_length-Reads : (w : ℕ) (m : Message) → Reads 0 m (get_length w m)
unfolding get_length
get_length-Reads w m =
    Reads-bind 0 m (take_bytes w m) _ (Reads-weaken w m (take_bytes w m) (take_bytes-Reads w m))
      (λ bs m1. Moved-none m1)

pub get_string_length-Reads :
    (tag_1 tag_2 : ℕ) (m : Message) → Reads 1 m (get_string_length tag_1 tag_2 m)
unfolding get_string_length
get_string_length-Reads tag_1 tag_2 m =
    Reads-bind 1 m (take_bytes 1 m) _ (take_bytes-Reads 1 m) (λ t m1.
      Reads-bind 0 m1 (assert (le_value t == tag_1 || le_value t == tag_2) m1) _
        (assert-Reads (le_value t == tag_1 || le_value t == tag_2) m1)
        (λ u m2.
          Reads-if 0 m2 (le_value t == tag_1) (get_length 1) (get_length 2) (get_length-Reads 1 m2)
            (get_length-Reads 2 m2)))

pub copy_string-Reads : (b : Option Buffer) (n : ℕ) (m : Message) → Reads 0 m (copy_string b n m)
unfolding copy_string
copy_string-Reads none n m = tt
copy_string-Reads (some block) n m = Reads-choice 0 m (ltb (add_size n 1) n) faults _ tt (
    Reads-bind 0 m (take_bytes n m) _ (Reads-weaken n m (take_bytes n m) (take_bytes-Reads n m))
      (λ bs m1. assign-Reads _ m1))

pub copy_wstring-Reads : (b : Option Buffer) (n : ℕ) (m : Message) → Reads 0 m (copy_wstring b n m)
unfolding copy_wstring
copy_wstring-Reads none n m = tt
copy_wstring-Reads (some block) n m =
    Reads-choice 0 m
      (ltb (mul_size (add_size n 1) 4) (add_size n 1)
        || ltb (mul_size (add_size n 1) 4) (mul_size n 4))
      faults _ tt
      (Reads-bind 0 m (take_bytes (mul_size n 4) m) _
        (Reads-weaken (mul_size n 4) m (take_bytes (mul_size n 4) m)
          (take_bytes-Reads (mul_size n 4) m))
        (λ bs m1. assign-Reads _ m1))
