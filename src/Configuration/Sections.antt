-- ===== src/Configuration/Sections.antt =====
-- The files that `mapProperties` of src/Configuration.cpp walks without reading outside of its
-- vectors: a top level of sections, and below them values, arrays of values and further sections.
pub mod Visit
pub mod Complete
use kcmsg.Prelude.{
  ℕ, zero, suc, ◌+◌, ◌-◌, ◌≤◌, ◌<◌, ◌%◌, ◌^◌, ◌≡◌, refl, ◌⊎◌, inl, inr, Bool, true, false, List, [],
  ◌∷◌, Option, none, some, arith, ◌==◌, ==_refl, ne→==, if◌then◌else◌, length, All,
}
use kcmsg.Configuration.{
  String, Heap, Outcome, done, undefined, bind_outcome, Run, local, pure, ◌>>=◌, ◌>>◌, text, texts,
}
use kcmsg.Configuration.Property.{destroy, prop_type_string, prop_type_string_array}
use kcmsg.Configuration.Map.{Configuration, assign}
use kcmsg.Configuration.Walk.{
  Tree, node, Children, nil, child, Locals, insert_property, visit, map_children, map_properties,
  count, climb, climb_from, decrement, is_empty, push_unless_empty, is_below_zero, end_array,
  element_leaf, keyed_leaf, leaf, append_keys, from_front, size_of, push_child,
}
use kcmsg.Configuration.Read.{regular, returns, no_locals, read_configuration_file}

-- What stands in a section: values, with a key or as the elements of an array, and sections with a
-- key that are not empty.
pub data Nested : Children → Type 0 where
  end : Nested nil
  value : (key data_ : String) {cs : Children} → Nested cs → Nested (child key (node data_ nil) cs)
  group :
      (key data_ : String) {inner cs : Children}
      → is_empty key ≡ false
      → 1 ≤ count inner
      → count inner < 2 ^ 32
      → Nested inner
      → Nested cs
      → Nested (child key (node data_ inner) cs)

pub data Sections : Children → Type 0 where
  end : Sections nil
  section :
      (key data_ : String) {inner cs : Children}
      → is_empty key ≡ false
      → 1 ≤ count inner
      → count inner < 2 ^ 32
      → Nested inner
      → Sections cs
      → Sections (child key (node data_ inner) cs)

abbrev pub IsCount : ℕ → Type 0
IsCount n = (1 ≤ n) × (n < 2 ^ 32)

abbrev pub spare : List ℕ → ℕ
spare [] = 0
spare (n ∷ num) = n - 1 + spare num

-- How many values can be counted off before the vector is empty.
abbrev pub room : List ℕ → ℕ
room [] = 0
room (n ∷ num) = n + spare num

pub record IsGood (l : Locals) : Type 0 where
  pub level : length l.kp ≡ length l.num
  pub counts : All IsCount l.num

pub decrement_lem : (n : ℕ) → IsCount n → decrement n ≡ n - 1
decrement_lem n (lo, hi) = omega arith

pub climb_from-IsGood :
    (kp vp : List String) (n : ℕ) (num : List ℕ)
    → length kp ≡ suc (length num)
    → n < 2 ^ 32
    → All IsCount num
    → (l : Locals) × (climb_from kp vp n num ≡ some l) × (IsGood l × (room l.num ≡ n + spare num))
climb_from-IsGood [] vp n num e lt h = absurd (omega arith)
climb_from-IsGood (k ∷ kp) vp zero [] e lt h =
    (_, refl, (record { level = omega arith; counts = tt }, refl))
climb_from-IsGood (k ∷ kp) vp zero (m ∷ num) e lt (hm, h) =
    let (l, same, (good, fits)) =
      climb_from-IsGood kp vp (m - 1) num (omega arith) (omega arith) h in
    (l, rw (decrement_lem m hm) same, (good, omega arith))
climb_from-IsGood (k ∷ kp) vp (suc n) [] e lt h =
    let later : (suc n == 0) ≡ false = ground arith in
    (
      record { kp = k ∷ kp; vp = vp; num = suc n ∷ [] },
      rw later refl,
      (record { level = e; counts = ((omega arith, lt), tt) }, refl),
    )
climb_from-IsGood (k ∷ kp) vp (suc n) (m ∷ num) e lt (hm, h) =
    let later : (suc n == 0) ≡ false = ground arith in
    (
      record { kp = k ∷ kp; vp = vp; num = suc n ∷ m ∷ num },
      rw later refl,
      (record { level = e; counts = ((omega arith, lt), (hm, h)) }, refl),
    )
