-- ===== src/Configuration/Map.antt =====
-- The map of properties, `std::unordered_map<std::string, Property>`, as an association list, and
-- the functions of `Configuration` that look a key up (src/Configuration.cpp).
use kcmsg.Prelude.{
  ℕ, Bool, true, false, List, [], ◌∷◌, Option, none, some, ◌==◌, ◌&&◌, ◌||◌, if◌then◌else◌,
}
use kcmsg.Configuration.{String, done, Run, pure, ◌>>◌}
use kcmsg.Configuration.Property.{
  Property, destroy, get_type, get_value, get_value_vector, prop_type_null, prop_type_boolean,
  prop_type_number, prop_type_string, prop_type_boolean_array, prop_type_number_array,
  prop_type_string_array,
}

abbrev pub same : String → String → Bool
same [] [] = true
same [] (c ∷ cs) = false
same (c ∷ cs) [] = false
same (c ∷ cs) (d ∷ ds) = (c == d) && same cs ds

abbrev pub Properties : Type 0
Properties = List (String × Property)

abbrev pub find : String → Properties → Option Property
find key [] = none
find key ((k, p) ∷ props) = if same k key then some p else find key props

-- `props[key] = p`
abbrev pub assign : String → Property → Properties → Properties
assign key p [] = (key, p) ∷ []
assign key p ((k, q) ∷ props) = if same k key then (k, p) ∷ props else (k, q) ∷ assign key p props

-- The end of a map's lifetime, with the destructor of each value.
abbrev pub destroy_all : Properties → Run (Unit {0})
destroy_all [] = pure tt
destroy_all ((k, p) ∷ props) = do destroy p; destroy_all props

pub record Configuration : Type 0 where
  pub properties : Properties

abbrev pub construct : Configuration
construct = record { properties = [] }

abbrev is_single : ℕ → Bool
is_single t =
    t == prop_type_null
    || (t == prop_type_boolean || (t == prop_type_number || t == prop_type_string))

abbrev is_array : ℕ → Bool
is_array t =
    t == prop_type_boolean_array || (t == prop_type_number_array || t == prop_type_string_array)

abbrev value_of : Option Property → Run String
value_of none h = done [] h
value_of (some p) h = if is_single (get_type p) then get_value p h else done [] h

abbrev vector_of : Option Property → Run (List String)
vector_of none h = done [] h
vector_of (some p) h = if is_array (get_type p) then get_value_vector p h else done [] h

abbrev is_found : Option Property → Bool
is_found none = false
is_found (some p) = true

unfoldable pub get_property : String → Configuration → Run String
get_property key c = value_of (find key c.properties)

unfoldable pub get_property_vector : String → Configuration → Run (List String)
get_property_vector key c = vector_of (find key c.properties)

unfoldable pub property_exists : String → Configuration → Bool
property_exists key c = is_found (find key c.properties)
