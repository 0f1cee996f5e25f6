-- ===== src/Configuration/Tidy.antt =====
-- What `insertProperty` and `mapProperties` (src/Configuration.cpp) leave in memory when the map
-- that they are given is empty.
use kcmsg.Prelude.{
  ℕ, ◌+◌, ◌≤◌, ◌<◌, ◌≡◌, refl, Bool, true, false, List, [], ◌∷◌, Option, none, some, arith, ◌==◌,
  ==_refl, ==_next, Bool-cases, inl, inr, lt_or_le, if◌then◌else◌, ◌%◌, ◌^◌, ◌∙◌,
}
use kcmsg.Configuration.{
  String, Cell, freed, text, texts, property_object, Heap, put_cell, Outcome, done, undefined,
  bind_outcome, Run, local,
}
use kcmsg.Configuration.Property.{destroy, prop_type_string, prop_type_string_array}
use kcmsg.Configuration.Walk.{
  Tree, node, Children, nil, child, Locals, insert_property, visit, map_children, map_properties,
  from_front, pop, decrement_below, is_below_zero, size_of, push_child, leaf, keyed_leaf,
  element_leaf, end_array, is_empty, climb, is_below_zero,
}

-- The outcome is undefined or has the property.
abbrev pub Allows {ℓ} : {A : Type ℓ} → (A → Heap → Type 0) → Outcome A → Type 0
Allows P (done a h) = P a h
Allows P undefined = Unit

pub Allows-bind :
    {A B : Type 0} (P : A → Heap → Type 0) (Q : B → Heap → Type 0) (o : Outcome A) (f : A → Run B)
    → Allows P o
    → ((a : A) (h : Heap) → P a h → Allows Q (f a h))
    → Allows Q (bind_outcome o f)
Allows-bind P Q (done a h) f p k = k a h p
Allows-bind P Q undefined f p k = tt

pub Allows-local :
    {A B : Type 0} (Q : B → Heap → Type 0) (o : Option A) (f : A → Run B) (h : Heap)
    → ((a : A) → Allows Q (f a h))
    → Allows Q (bind_outcome (local o h) f)
Allows-local Q none f h k = tt
Allows-local Q (some a) f h k = k a

pub Allows-weaken :
    {A : Type 0} (P Q : A → Heap → Type 0) (o : Outcome A)
    → Allows P o
    → ((a : A) (h : Heap) → P a h → Q a h)
    → Allows Q o
Allows-weaken P Q (done a h) p k = k a h p
Allows-weaken P Q undefined p k = tt

pub Allows-if :
    {A : Type 0} (P : A → Heap → Type 0) (b : Bool) (x y : Run A) (h : Heap)
    → Allows P (x h)
    → Allows P (y h)
    → Allows P ((if b then x else y) h)
Allows-if P true x y h p q = p
Allows-if P false x y h p q = q

-- No string and no vector.
abbrev pub IsLeft : Cell → Type 0
IsLeft freed = Unit
IsLeft (property_object t v) = Unit
IsLeft (text s) = ⊥
IsLeft (texts ss) = ⊥

-- The old cells are as they were, and of all that has been made since only properties stand.
pub record Frees (h h' : Heap) : Type 0 where
  pub grows : h.used ≤ h'.used
  pub keeps : (i : ℕ) → i < h.used → h'.cell i ≡ h.cell i
  pub leaves : (i : ℕ) → h.used ≤ i → i < h'.used → IsLeft (h'.cell i)

pub Frees-refl : (h : Heap) → Frees h h
Frees-refl h = record {
  grows = omega arith;
  keeps = λ i lt. refl;
  leaves = λ i le lt. absurd (omega arith);
}

Frees-trans : {a b c : Heap} → Frees a b → Frees b c → Frees a c
Frees-trans {a} {b} {c} f g = record {
  grows = omega arith;
  keeps = λ i lt. g.keeps i (omega arith) ∙ f.keeps i lt;
  leaves = λ i le lt. elim (lt_or_le i b.used) [
    | inl old ↦ rw (g.keeps i old) (f.leaves i le old)
    | inr later ↦ g.leaves i later lt
  ];
}

-- A string or a vector and a property are made, and the first is deleted.
abbrev new_free : Cell → Cell → Heap → Heap
new_free c d h =
    let first : Heap = record (put_cell h.used c h) { used = h.used + 1 } in
    put_cell h.used freed (record (put_cell (h.used + 1) d first) { used = h.used + 1 + 1 })

new_free-IsLeft :
    (c d : Cell) (h : Heap) (i : ℕ)
    → IsLeft d
    → h.used ≤ i
    → i < h.used + 1 + 1
    → IsLeft ((new_free c d h).cell i)
new_free-IsLeft c d h i left le lt = elim (Bool-cases (i == h.used)) [
  | inl x ↦ rw x tt
  | inr x ↦ let next : (i == h.used + 1) ≡ true = ground arith in rw (x, next) left
]

new_free-Frees : (c d : Cell) (h : Heap) → IsLeft d → Frees h (new_free c d h)
new_free-Frees c d h left = record {
  grows = omega arith;
  keeps = λ i lt. ground arith;
  leaves = λ i le lt. new_free-IsLeft c d h i left le lt;
}

pub insert_property-Frees :
    (kp vp : List String) (num : List ℕ) (h : Heap)
    → Allows (λ t. Frees h) (insert_property kp vp num [] h)
unfolding insert_property destroy
insert_property-Frees [] [] num h = tt
insert_property-Frees (k ∷ kp) [] num h = Frees-refl h
insert_property-Frees kp (v ∷ []) num h =
    rw (==_next h.used, ==_refl h.used)
      (new_free-Frees (text v) (property_object prop_type_string (some h.used)) h tt)
insert_property-Frees kp (v ∷ w ∷ vs) num h =
    rw (==_next h.used, ==_refl h.used)
      (new_free-Frees (texts (from_front (v ∷ w ∷ vs) []))
        (property_object prop_type_string_array (some h.used)) h tt)

keyed_leaf-Frees :
    (l : Locals) (h : Heap) → Allows (λ l'. Frees h) (keyed_leaf insert_property [] l h)
keyed_leaf-Frees l h =
    Allows-bind (λ t. Frees h) (λ l'. Frees h) (insert_property l.kp l.vp l.num [] h) _
      (insert_property-Frees l.kp l.vp l.num h)
      (λ t h1 f.
        Allows-local (λ l'. Frees h) (pop l.kp) _ h1
          (λ kp.
            Allows-local (λ l'. Frees h) (decrement_below l.num) _ h1
              (λ lowered. Allows-local (λ l'. Frees h) (pop lowered) _ h1 (λ num. f))))

end_array-Frees :
    (lowered : List ℕ) (l : Locals) (h : Heap)
    → Allows (λ l'. Frees h) (end_array insert_property [] lowered l h)
end_array-Frees lowered l h =
    Allows-if (λ l'. Frees h) (is_below_zero lowered) _ _ h
      (Allows-bind (λ t. Frees h) (λ l'. Frees h) (insert_property l.kp l.vp lowered [] h) _
        (insert_property-Frees l.kp l.vp lowered h) (λ t h1 f. f))
      (Frees-refl h)

element_leaf-Frees :
    (l : Locals) (h : Heap) → Allows (λ l'. Frees h) (element_leaf insert_property [] l h)
element_leaf-Frees l h =
    Allows-local (λ l'. Frees h) (decrement_below l.num) _ h
      (λ lowered.
        Allows-bind (λ t. Frees h) (λ l'. Frees h) (end_array insert_property [] lowered l h) _
          (end_array-Frees lowered l h)
          (λ vp h1 f. Allows-local (λ l'. Frees h) (pop lowered) _ h1 (λ num. f)))

leaf-Frees :
    (key : String) (l : Locals) (h : Heap)
    → Allows (λ l'. Frees h) (leaf insert_property key [] l h)
leaf-Frees key l h =
    Allows-if (λ l'. Frees h) (is_empty key) _ _ h (element_leaf-Frees l h) (keyed_leaf-Frees l h)

local-Frees :
    {A : Type 0} (o : Option A) {h h1 : Heap} → Frees h h1 → Allows (λ a. Frees h) (local o h1)
local-Frees none f = tt
local-Frees (some a) f = f

visit-Frees :
    (key : String) (t : Tree) (l : Locals) (h : Heap)
    → Allows (λ l'. Frees h) (visit insert_property key t [] l h)
unfolding visit
visit-Frees key t l h =
    Allows-bind (λ t. Frees h) (λ l'. Frees h) _ _
      (Allows-if (λ l'. Frees h) (size_of t % 2 ^ 32 == 0) _ _ h
        (leaf-Frees key (push_child key t l) h) (Frees-refl h))
      (λ l1 h1 f. local-Frees (climb l1.kp l1.vp l1.num) f)

mutual
  unfolding map_children map_properties

  map_children-Frees :
      (cs : Children) (l : Locals) (h : Heap)
      → Allows (λ t. Frees h) (map_children insert_property cs [] l h)
  map_children-Frees nil l h = Frees-refl h
  map_children-Frees (child k t cs) l h =
      Allows-bind (λ l'. Frees h) (λ u. Frees h) (visit insert_property k t [] l h) _
        (visit-Frees k t l h)
        (λ l1 h1 f1.
          Allows-bind (λ u. Frees h1) (λ u. Frees h) (map_properties insert_property t [] l1 h1) _
            (map_properties-Frees t l1 h1)
            (λ u h2 f2.
              Allows-weaken (λ v. Frees h2) (λ v. Frees h)
                (map_children insert_property cs [] l1 h2) (map_children-Frees cs l1 h2)
                (λ v h3 f3. Frees-trans (Frees-trans f1 f2) f3)))

  pub map_properties-Frees :
      (t : Tree) (l : Locals) (h : Heap)
      → Allows (λ u. Frees h) (map_properties insert_property t [] l h)
  map_properties-Frees (node d cs) l h =
      Allows-bind (λ t. Frees h) (λ t. Frees h) (map_children insert_property cs [] l h) _
        (map_children-Frees cs l h) (λ t h1 f. f)
