-- ===== src/Configuration/Inserted.antt =====
-- What `insertProperty` (src/Configuration.cpp) puts into its map, by the functions that look a key
-- up, before the map goes away with the call.
use kcmsg.Prelude.{ℕ, ◌≡◌, refl, ◌≢◌, List, [], ◌∷◌, some, ==_refl, ==_next, ◌+◌, ne→==, All}
use kcmsg.Configuration.{String, Heap, done, property_object}
use kcmsg.Configuration.Property.{
  make_property, prop_type_string, prop_type_string_array, get_type, get_value, get_value_vector,
}
use kcmsg.Configuration.Map.{Properties, find, get_property, get_property_vector}
use kcmsg.Configuration.Walk.{with_value, append_keys, from_front}
use kcmsg.Configuration.Keys.{IsNonempty, dotted, append_keys-dotted}
use kcmsg.Configuration.Values.{find-assign, find-assign_ne}

-- One value is found by `getProperty` and not by `getPropertyVector`, more than one the other way
-- round, from the front of the vector on.
abbrev pub Gives : List String → String → Properties → Heap → Type 0
Gives [] key props h = ⊥
Gives (v ∷ []) key props h =
    (get_property key (record { properties = props }) h ≡ done v h)
    × (get_property_vector key (record { properties = props }) h ≡ done [] h)
Gives (v ∷ w ∷ vs) key props h =
    (get_property key (record { properties = props }) h ≡ done [] h)
    × (get_property_vector key (record { properties = props }) h
        ≡ done (from_front (v ∷ w ∷ vs) []) h)

-- The map has got the values `vp` at the key. Two objects have been made, the values and a property
-- with a pointer to them; no other key and no other memory has changed.
pub record Inserted (key : String) (vp : List String) (props props' : Properties) (h h' : Heap)
    : Type 0 where
  pub gives : Gives vp key props' h'
  pub others : (l : String) → l ≢ key → find l props' ≡ find l props
  pub made : h'.used ≡ h.used + 1 + 1
  pub behind : (t : ℕ) × (h'.cell (h.used + 1) ≡ property_object t (some h.used))
  pub memory : (i : ℕ) → i ≢ h.used → i ≢ h.used + 1 → h'.cell i ≡ h.cell i

-- For a value or an array, `insertProperty` sets the key that has the keys on the way with dots
-- between them, in its map: one value is then what `getProperty` finds, more than one what
-- `getPropertyVector` finds, in the order of the file. Beside the values it makes a property with a
-- pointer to them, which it leaves behind; no other key and no other memory has changed. The keys
-- are not empty.
pub with_value-Inserted :
    (kp : List String) (v : String) (vs : List String) (props : Properties) (h : Heap)
    → All IsNonempty (from_front kp [])
    → (props' : Properties) × (h' : Heap) × (with_value
          (append_keys [] (from_front kp []))
          kp
          (v ∷ vs)
          props
          h
        ≡ done props' h')
      × Inserted (dotted (from_front kp [])) (v ∷ vs) props props' h h'
unfolding get_property get_property_vector get_type get_value get_value_vector
with_value-Inserted kp v [] props h keyed =
    let key = dotted (from_front kp []) in
    let p = make_property prop_type_string (some h.used) in
    rw (append_keys-dotted (from_front kp []) keyed) (
      _,
      _,
      refl,
      record {
        gives = (
          rw (find-assign key p props, ==_next h.used, ==_refl h.used) refl,
          rw (find-assign key p props) refl,
        );
        others = λ l ne. find-assign_ne key l p props ne;
        made = refl;
        behind = (prop_type_string, rw (==_refl (h.used + 1)) refl);
        memory = λ i ne ne'. rw (ne→== i h.used ne, ne→== i (h.used + 1) ne') refl;
      },
    )
with_value-Inserted kp v (w ∷ vs) props h keyed =
    let key = dotted (from_front kp []) in
    let p = make_property prop_type_string_array (some h.used) in
    rw (append_keys-dotted (from_front kp []) keyed) (
      _,
      _,
      refl,
      record {
        gives = (
          rw (find-assign key p props) refl,
          rw (find-assign key p props, ==_next h.used, ==_refl h.used) refl,
        );
        others = λ l ne. find-assign_ne key l p props ne;
        made = refl;
        behind = (prop_type_string_array, rw (==_refl (h.used + 1)) refl);
        memory = λ i ne ne'. rw (ne→== i h.used ne, ne→== i (h.used + 1) ne') refl;
      },
    )
