-- ===== src/Configuration/Copies.antt =====
-- What the copy of the map that `insertProperty` (src/Configuration.cpp) works on does to the values
-- of its caller: the copies share the pointers, and each copy deletes what they lead to.
use kcmsg.Prelude.{
  ℕ, ◌≡◌, refl, ◌∙◌, ◌≢◌, Bool, true, false, List, [], ◌∷◌, Option, none, some, ◌==◌, ==_refl,
  Bool-cases, inl, inr, if◌then◌else◌, arith,
}
use kcmsg.Configuration.{
  String, Cell, freed, text, texts, property_object, Heap, put_cell, Outcome, done, undefined,
}
use kcmsg.Configuration.Property.{
  Property, prop_type_string, prop_type_string_array, destroy, get_value, get_type, delete_text,
  delete_texts, delete_value,
}
use kcmsg.Configuration.Map.{Properties, same, find, destroy_all, get_property}
use kcmsg.Configuration.Walk.{insert_property, with_value, append_keys, from_front}
use kcmsg.Configuration.Tidy.{Allows, Allows-bind}
use kcmsg.Configuration.Values.{of_text, find-assign_ne}

Allows-choice :
    {A : Type 0} (P : A → Heap → Type 0) (b : Bool) (x y : Outcome A)
    → Allows P x
    → Allows P y
    → Allows P (if b then x else y)
Allows-choice P true x y p q = p
Allows-choice P false x y p q = q

Allows-anything : {A : Type 0} (o : Outcome A) → Allows (λ a h. Unit) o
Allows-anything (done a h) = tt
Allows-anything undefined = tt

abbrev IsFreed : ℕ → Heap → Type 0
IsFreed a h = h.cell a ≡ freed

put_freed-IsFreed : (a b : ℕ) (h : Heap) → IsFreed a h → IsFreed a (put_cell b freed h)
put_freed-IsFreed a b h e = ground arith

delete_text-IsFreed :
    (a b : ℕ) (c : Cell) (h : Heap) → IsFreed a h → Allows (λ u. IsFreed a) (delete_text b c h)
delete_text-IsFreed a b (text s) h e = put_freed-IsFreed a b h e
delete_text-IsFreed a b freed h e = tt
delete_text-IsFreed a b (texts ss) h e = tt
delete_text-IsFreed a b (property_object t v) h e = tt

delete_texts-IsFreed :
    (a b : ℕ) (c : Cell) (h : Heap) → IsFreed a h → Allows (λ u. IsFreed a) (delete_texts b c h)
delete_texts-IsFreed a b (texts ss) h e = put_freed-IsFreed a b h e
delete_texts-IsFreed a b freed h e = tt
delete_texts-IsFreed a b (text s) h e = tt
delete_texts-IsFreed a b (property_object t v) h e = tt

delete_value-IsFreed :
    (a t : ℕ) (v : Option ℕ) (h : Heap) → IsFreed a h → Allows (λ u. IsFreed a) (delete_value t v h)
delete_value-IsFreed a t none h e = e
delete_value-IsFreed a t (some b) h e =
    Allows-choice (λ u. IsFreed a) (t == prop_type_string) _ _
      (delete_text-IsFreed a b (h.cell b) h e)
      (Allows-choice (λ u. IsFreed a) (t == prop_type_string_array) _ _
        (delete_texts-IsFreed a b (h.cell b) h e) e)

destroy_all-IsFreed :
    (a : ℕ) (props : Properties) (h : Heap)
    → IsFreed a h
    → Allows (λ u. IsFreed a) (destroy_all props h)
unfolding destroy
destroy_all-IsFreed a [] h e = e
destroy_all-IsFreed a ((k, p) ∷ props) h e =
    Allows-bind (λ u. IsFreed a) (λ u. IsFreed a) (destroy p h) (λ u. destroy_all props)
      (delete_value-IsFreed a p.value_type p.value h e)
      (λ u h1 e1. destroy_all-IsFreed a props h1 e1)

deleted : (a : ℕ) (c : Cell) (h : Heap) → Allows (λ u. IsFreed a) (delete_text a c h)
deleted a (text s) h = rw (==_refl a) refl
deleted a freed h = tt
deleted a (texts ss) h = tt
deleted a (property_object t v) h = tt

destroy-of_text :
    (a : ℕ) (p : Property) (h : Heap) → p ≡ of_text a → Allows (λ u. IsFreed a) (destroy p h)
unfolding destroy
destroy-of_text a p h e = rw e (deleted a (h.cell a) h)

destroy_all-deletes :
    (k : String) (a : ℕ) (props : Properties) (h : Heap)
    → find k props ≡ some (of_text a)
    → Allows (λ u. IsFreed a) (destroy_all props h)
destroy_all-deletes k a [] h e = absurd (cc)
destroy_all-deletes k a ((l, p) ∷ props) h e = elim (Bool-cases (same l k)) [
  | inl x ↦
      let found : some p ≡ some (of_text a) = rw x at e in
      Allows-bind (λ u. IsFreed a) (λ u. IsFreed a) (destroy p h) (λ u. destroy_all props)
        (destroy-of_text a p h (cc)) (λ u h1 e1. destroy_all-IsFreed a props h1 e1)
  | inr x ↦
      let later : find k props ≡ some (of_text a) = rw x at e in
      Allows-bind (λ u h1. Unit) (λ u. IsFreed a) (destroy p h) (λ u. destroy_all props)
        (Allows-anything (destroy p h)) (λ u h1 t. destroy_all-deletes k a props h1 later)
]

-- The map that is destroyed still has the values of the other keys.
with_value-keeps :
    (key k : String) (p : Property) (kp vp : List String) (props : Properties) (h : Heap)
    → k ≢ key
    → find k props ≡ some p
    → Allows (λ ps h'. find k ps ≡ some p) (with_value key kp vp props h)
with_value-keeps key k p [] [] props h ne e = tt
with_value-keeps key k p (x ∷ kp) [] props h ne e = e
with_value-keeps key k p kp (v ∷ []) props h ne e = find-assign_ne key k _ props ne ∙ e
with_value-keeps key k p kp (v ∷ w ∷ vs) props h ne e = find-assign_ne key k _ props ne ∙ e

insert_property-IsFreed :
    (kp vp : List String) (num : List ℕ) (props : Properties) (h : Heap) (k : String) (a : ℕ)
    → k ≢ append_keys [] (from_front kp [])
    → find k props ≡ some (of_text a)
    → Allows (λ u. IsFreed a) (insert_property kp vp num props h)
unfolding insert_property
insert_property-IsFreed kp vp num props h k a ne e =
    Allows-bind (λ ps h'. find k ps ≡ some (of_text a)) (λ u. IsFreed a)
      (with_value (append_keys [] (from_front kp [])) kp vp props h) destroy_all
      (with_value-keeps _ k (of_text a) kp vp props h ne e)
      (λ ps h1 found. destroy_all-deletes k a ps h1 found)

allowed :
    (P : Heap → Type 0) (o : Outcome (Unit {0})) (h : Heap)
    → Allows (λ u. P) o
    → o ≡ done tt h
    → P h
allowed P (done tt h1) h p e = let after : h ≡ h1 = cc in rw after p
allowed P undefined h p e = absurd (cc)

-- An insertion into a map that has a string under another key deletes this string: looked up in
-- the caller's map, the key's value is undefined afterwards.
pub insert_property-undefined :
    (kp vp : List String) (num : List ℕ) (props : Properties) (h h' : Heap) (k : String) (a : ℕ)
    → k ≢ append_keys [] (from_front kp [])
    → find k props ≡ some (of_text a)
    → insert_property kp vp num props h ≡ done tt h'
    → get_property k (record { properties = props }) h' ≡ undefined
unfolding get_property get_type get_value
insert_property-undefined kp vp num props h h' k a ne found e =
    let gone =
      allowed (IsFreed a) (insert_property kp vp num props h) h'
        (insert_property-IsFreed kp vp num props h k a ne found) e in
    rw (found, gone) refl
