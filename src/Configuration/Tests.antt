-- ===== src/Configuration/Tests.antt =====
-- Runs of the code of src/Configuration.cpp and src/Property.cpp on small files, and uses of the
-- theorems.
use kcmsg.Prelude.{ℕ, ◌≡◌, ◌≢◌, refl, false, List, [], ◌∷◌, some, arith}
use kcmsg.Configuration.{Heap, freed, text, texts, property_object, done, undefined, put_cell}
use kcmsg.Configuration.Property.{
  make_property, prop_type_string, prop_type_string_array, set_value, get_value, set_value_vector,
  get_value_vector, destroy,
}
use kcmsg.Configuration.Map.{
  Properties, construct, assign, get_property, get_property_vector, property_exists,
}
use kcmsg.Configuration.Walk.{node, Children, nil, child, insert_property}
use kcmsg.Configuration.Read.{regular, returns, is_undefined, read_configuration_file}
use kcmsg.Configuration.Tidy.{Frees}
use kcmsg.Configuration.Sections.{end, value, group, Sections, section}
use kcmsg.Configuration.Sections.Complete.{read_configuration_file-Sections}
use kcmsg.Configuration.Reach.{
  constructed, read, read_configuration_file-Frees, Reach-finds_nothing,
}
use kcmsg.Configuration.Values.{
  of_text, get_value-set_value, set_value_vector-undefined, get_property-assign,
}
use kcmsg.Configuration.Walk.{append_keys, with_value, from_front}
use kcmsg.Configuration.Keys.{append_keys-dotted, dotted}
use kcmsg.Configuration.Inserted.{Inserted, with_value-Inserted}
use kcmsg.Prelude.Text.{lit, numeral_onto}
use kcmsg.Configuration.Dump.{dump_property}
use kcmsg.Configuration.Flat.{read_configuration_file-undefined}
use kcmsg.Configuration.Copies.{insert_property-undefined}

abbrev empty : Heap
empty = record { used = 1; cell = λ i. freed }

-- { "b": { "x": "1", "l": ["2", "3"] } }, with b for 98, x for 120, l for 108
abbrev list : Children
list = child [] (node (50 ∷ []) nil) (child [] (node (51 ∷ []) nil) nil)

abbrev inner : Children
inner = child (120 ∷ []) (node (49 ∷ []) nil) (child (108 ∷ []) (node [] list) nil)

abbrev file : Children
file = child (98 ∷ []) (node [] inner) nil

-- { "x": "1" }
abbrev flat : Children
flat = child (120 ∷ []) (node (49 ∷ []) nil) nil

read_configuration_file-undefined_example :
    read_configuration_file (regular (some (node [] flat))) construct empty ≡ is_undefined
read_configuration_file-undefined_example =
    read_configuration_file-undefined [] (120 ∷ []) (49 ∷ []) nil construct empty

file-Sections : Sections file
file-Sections =
    section (98 ∷ []) [] refl (omega arith) (omega arith)
      (value (120 ∷ []) (49 ∷ []) (
        group (108 ∷ []) [] refl (omega arith) (omega arith)
          (value [] (50 ∷ []) (value [] (51 ∷ []) end)) end))
      end

read_configuration_file-Sections_example :
    (h : Heap) × (read_configuration_file (regular (some (node [] file))) construct empty
      ≡ returns 0 construct h)
read_configuration_file-Sections_example =
    read_configuration_file-Sections [] file-Sections construct empty

abbrev after : Heap
after = (read_configuration_file-Sections [] file-Sections construct empty).0

file-read :
    read_configuration_file (regular (some (node [] file))) construct empty
    ≡ returns 0 construct after
file-read = (read_configuration_file-Sections [] file-Sections construct empty).1

read_configuration_file-Frees_example : (construct ≡ construct) × Frees empty after
read_configuration_file-Frees_example =
    read_configuration_file-Frees (regular (some (node [] file))) construct construct empty after 0
      file-read

Reach-finds_nothing_example :
    (property_exists (98 ∷ []) construct ≡ false)
    × ((get_property (98 ∷ []) construct after ≡ done [] after)
        × (get_property_vector (98 ∷ []) construct after ≡ done [] after))
Reach-finds_nothing_example =
    Reach-finds_nothing (read (regular (some (node [] file))) empty after 0 constructed file-read)
      (98 ∷ []) after

-- One string, at the address 0.
abbrev one : Heap
one = record { used = 1; cell = λ i. text (55 ∷ []) }

assigned_string :
    (get_property (120 ∷ []) (record { properties = assign (120 ∷ []) (of_text 0) [] }) one
      ≡ done (55 ∷ []) one)
    × ((l : List ℕ)
        → l ≢ 120 ∷ []
        → get_property l (record { properties = assign (120 ∷ []) (of_text 0) [] }) one
          ≡ get_property l (record { properties = [] }) one)
assigned_string = get_property-assign (120 ∷ []) (55 ∷ []) 0 [] one refl

one-set : set_value (56 ∷ []) (of_text 0) one ≡ done tt (put_cell 0 (text (56 ∷ [])) one)
unfolding set_value
one-set = refl

value_read_back :
    get_value (of_text 0) (put_cell 0 (text (56 ∷ [])) one)
    ≡ done (56 ∷ []) (put_cell 0 (text (56 ∷ [])) one)
value_read_back =
    get_value-set_value (56 ∷ []) (of_text 0) one (put_cell 0 (text (56 ∷ [])) one) one-set

abbrev dangling : Heap
dangling = put_cell 1 freed (record (put_cell 1 (texts ((56 ∷ []) ∷ [])) one) { used = 2 })

one-set_vector :
    set_value_vector ((56 ∷ []) ∷ []) (of_text 0) one
    ≡ done (make_property prop_type_string (some 1)) dangling
unfolding set_value_vector
one-set_vector = refl

vector_after_call : get_value_vector (make_property prop_type_string (some 1)) dangling ≡ undefined
vector_after_call =
    set_value_vector-undefined ((56 ∷ []) ∷ []) (of_text 0)
      (make_property prop_type_string (some 1)) one dangling one-set_vector

-- The memory after "y" (121) has been given the value "1" next to "x", whose value is at 0. The
-- property that was made for "1" is left.
abbrev inserted : Heap
inserted = put_cell 1 freed (
    put_cell 0 freed
      (record (put_cell 2 (property_object prop_type_string (some 1))
        (record (put_cell 1 (text (49 ∷ [])) one) { used = 2 })) { used = 3 }))

one-inserted :
    insert_property ((121 ∷ []) ∷ []) ((49 ∷ []) ∷ []) [] ((120 ∷ [], of_text 0) ∷ []) one
    ≡ done tt inserted
unfolding insert_property destroy
one-inserted = refl

abbrev x : List ℕ
x = 120 ∷ []

abbrev y : List ℕ
y = 121 ∷ []

x-y : x ≢ y
x-y e = let heads : ◌≡◌ {A = ℕ} 120 121 = cc in absurd (omega arith)

insert_property-undefined_example :
    get_property (120 ∷ []) (record { properties = (120 ∷ [], of_text 0) ∷ [] }) inserted
    ≡ undefined
insert_property-undefined_example =
    insert_property-undefined ((121 ∷ []) ∷ []) ((49 ∷ []) ∷ []) [] ((120 ∷ [], of_text 0) ∷ []) one
      inserted (120 ∷ []) 0 x-y refl one-inserted

dotted_keys : append_keys [] (x ∷ y ∷ x ∷ []) ≡ 120 ∷ 46 ∷ 121 ∷ 46 ∷ 120 ∷ []
dotted_keys = append_keys-dotted (x ∷ y ∷ x ∷ []) (refl, (refl, (refl, tt)))

-- Both strings of the vector stand under the index 0.
dumped :
    dump_property
      (make_property prop_type_string_array (some 0))
      (record { used = 1; cell = λ i. texts (x ∷ y ∷ []) })
    ≡ done
        (lit "( PROP_TYPE_STRING_ARRAY ) - [0] \"x\"\n- [0] \"y\"\n\n")
        (record { used = 1; cell = λ i. texts (x ∷ y ∷ []) })
unfolding dump_property get_value_vector numeral_onto
dumped = refl

-- The values 2 and 3 of an array under the keys b and l.
with_value-Inserted_example :
    (props' : Properties) × (h' : Heap) × (with_value
        (append_keys [] (from_front ((108 ∷ []) ∷ (98 ∷ []) ∷ []) []))
        ((108 ∷ []) ∷ (98 ∷ []) ∷ [])
        ((51 ∷ []) ∷ (50 ∷ []) ∷ [])
        []
        empty
      ≡ done props' h')
    × Inserted
        (dotted (from_front ((108 ∷ []) ∷ (98 ∷ []) ∷ []) []))
        ((51 ∷ []) ∷ (50 ∷ []) ∷ [])
        []
        props'
        empty
        h'
with_value-Inserted_example =
    with_value-Inserted ((108 ∷ []) ∷ (98 ∷ []) ∷ []) (51 ∷ []) ((50 ∷ []) ∷ []) [] empty
      (refl, (refl, tt))
