-- ===== src/Configuration/Values.antt =====
-- The values of properties: what is written and read through a `Property` (src/Property.cpp), what
-- the map gives for a key, and what a copy of the map does to them (src/Configuration.cpp).
use kcmsg.Prelude.{
  ℕ, ◌≡◌, refl, ◌≢◌, true, false, List, [], ◌∷◌, Option, none, some, ◌+◌, ◌==◌, ==_refl, sym, ◌∙◌,
  ==_iff, Bool-cases, inl, inr,
}
use mathlib.Core.Path.{ap₂}
use kcmsg.Configuration.{
  String, Cell, freed, text, texts, property_object, Heap, put_cell, done, undefined,
}
use kcmsg.Configuration.Property.{
  Property, make_property, prop_type_string, set_value, get_value, set_value_vector,
  get_value_vector, get_type, assign_text, target,
}
use kcmsg.Configuration.Map.{Properties, same, find, assign, get_property}

abbrev pub of_text : ℕ → Property
of_text a = make_property prop_type_string (some a)

assign_text_lem :
    (v : Option ℕ) (c : Cell) (s : String) (h h' : Heap)
    → assign_text v c s h ≡ done tt h'
    → target v h' ≡ text s
assign_text_lem none c s h h' e = absurd (cc)
assign_text_lem (some a) freed s h h' e = absurd (cc)
assign_text_lem (some a) (texts ss) s h h' e = absurd (cc)
assign_text_lem (some a) (property_object t v) s h h' e = absurd (cc)
assign_text_lem (some a) (text old) s h h' e =
    let after : put_cell a (text s) h ≡ h' = cc in rw (sym after, ==_refl a) refl

-- What `setValue` writes, `getValue` reads, when the pointer of the property leads to a string.
pub get_value-set_value :
    (s : String) (p : Property) (h h' : Heap)
    → set_value s p h ≡ done tt h'
    → get_value p h' ≡ done s h'
unfolding set_value get_value
get_value-set_value s p h h' e = rw (assign_text_lem p.value (target p.value h) s h h' e) refl

-- After `setValueVector` the pointer of the property leads nowhere, and `getValueVector` is
-- undefined.
pub set_value_vector-undefined :
    (values : List String) (p p' : Property) (h h' : Heap)
    → set_value_vector values p h ≡ done p' h'
    → get_value_vector p' h' ≡ undefined
unfolding set_value_vector get_value_vector
set_value_vector-undefined values p p' h h' e =
    let property : record p { value = some h.used } ≡ p' = cc in
    let after : put_cell h.used freed
          (record (put_cell h.used (texts values) h) { used = h.used + 1 })
        ≡ h' =
      cc in
    rw (sym property, sym after, ==_refl h.used) refl

same_refl : (k : String) → same k k ≡ true
same_refl [] = refl
same_refl (c ∷ cs) = rw (==_refl c) (same_refl cs)

same→≡ : (k l : String) → same k l ≡ true → k ≡ l
same→≡ [] [] e = refl
same→≡ [] (d ∷ ds) e = absurd (cc)
same→≡ (c ∷ cs) [] e = absurd (cc)
same→≡ (c ∷ cs) (d ∷ ds) e = elim (Bool-cases (c == d)) [
  | inl x ↦ ap₂ ◌∷◌ ((==_iff c d).0 x) (same→≡ cs ds (rw x at e))
  | inr x ↦ let wrong : false ≡ true = rw x at e in absurd (cc)
]

same_ne : (k l : String) → k ≢ l → same k l ≡ false
same_ne k l h = elim (Bool-cases (same k l)) [ inl e ↦ absurd (h (same→≡ k l e)) | inr e ↦ e ]

pub find-assign :
    (key : String) (p : Property) (props : Properties) → find key (assign key p props) ≡ some p
find-assign key p [] = rw (same_refl key) refl
find-assign key p ((k, q) ∷ props) = elim (Bool-cases (same k key)) [
  | inl e ↦ rw (e, e) refl
  | inr e ↦ rw (e, e) (find-assign key p props)
]

pub find-assign_ne :
    (key l : String) (p : Property) (props : Properties)
    → l ≢ key
    → find l (assign key p props) ≡ find l props
find-assign_ne key l p [] h = rw (same_ne key l (λ e. h (sym e))) refl
find-assign_ne key l p ((k, q) ∷ props) h = elim (Bool-cases (same k key)) [
  | inl e ↦ let other = same_ne k l (λ x. h (sym x ∙ same→≡ k key e)) in rw (e, other) refl
  | inr e ↦ rw (e, find-assign_ne key l p props h) refl
]

-- `props[key] = p` with a property that leads to a string: the string is the value of the key, and
-- every other key has the value that it had.
pub get_property-assign :
    (key s : String) (a : ℕ) (props : Properties) (h : Heap)
    → h.cell a ≡ text s
    → (get_property key (record { properties = assign key (of_text a) props }) h ≡ done s h)
      × ((l : String)
          → l ≢ key
          → get_property l (record { properties = assign key (of_text a) props }) h
            ≡ get_property l (record { properties = props }) h)
unfolding get_property get_type get_value
get_property-assign key s a props h e = (
  rw (find-assign key (of_text a) props, e) refl,
  λ l ne. rw (find-assign_ne key l (of_text a) props ne) refl,
)
