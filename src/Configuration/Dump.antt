-- ===== src/Configuration/Dump.antt =====
-- What `dumpProperty` of src/Property.cpp and `dumpProperties` and `debugPrintPropertyTree` of
-- src/Configuration.cpp write. The map is written in the order of its list.
use kcmsg.Prelude.{ℕ, List, [], ◌∷◌, ◌++◌, ◌==◌, if◌then◌else◌}
use kcmsg.Prelude.Text.{Text, lit, decimal}
use kcmsg.Configuration.{String, Run, pure, ◌>>=◌}
use kcmsg.Configuration.Property.{
  Property, prop_type_null, prop_type_string, prop_type_string_array, get_value, get_value_vector,
}
use kcmsg.Configuration.Map.{Properties, Configuration}
use kcmsg.Configuration.Walk.{Children, nil, child, data_of, size_of}

abbrev type_name : ℕ → Text
type_name t =
    if t == prop_type_null
    then lit "PROP_TYPE_NULL"
    else if t == prop_type_string
    then lit "PROP_TYPE_STRING"
    else if t == prop_type_string_array
    then lit "PROP_TYPE_STRING_ARRAY"
    else lit "PROP_TYPE_UNKNOWN"

abbrev item_text : ℕ → String → Text
item_text i s = lit "- [" ++ (decimal i (lit "] \"" ++ (s ++ lit "\"\n")))

-- The loop over a vector. The counter `i` is tested and written, and nowhere incremented.
abbrev items_text : ℕ → List String → Text
items_text i [] = lit "\n"
items_text i (s ∷ ss) =
    let rest = items_text i ss in
    if i == 0
    then item_text i s ++ rest
    else lit "                              " ++ (item_text i s ++ rest)

unfoldable pub dump_property : Property → Run Text
unfolding get_value get_value_vector
dump_property p =
    let front = lit "( " ++ (type_name p.value_type ++ lit " ) ") in
    if p.value_type == prop_type_string
    then (do s ← get_value p; pure (front ++ (lit "\"" ++ (s ++ lit "\"\n\n"))))
    else if p.value_type == prop_type_string_array
    then (do ss ← get_value_vector p; pure (front ++ items_text 0 ss))
    else pure (front ++ lit " ????? \n")

abbrev dump_each : Properties → Run Text
dump_each [] = pure []
dump_each ((key, p) ∷ props) = do
  text ← dump_property p
  rest ← dump_each props
  pure (key ++ (lit ": " ++ (text ++ rest)))

unfoldable pub dump_properties : Configuration → Run Text
unfolding dump_property
dump_properties c = dump_each c.properties

unfoldable pub debug_print_property_tree : Children → Text
debug_print_property_tree nil = []
debug_print_property_tree (child key t cs) =
    lit "first: "
    ++ (key
        ++ (lit "\nsecond: "
            ++ (data_of t
                ++ (lit "\nsecond size: "
                    ++ decimal (size_of t) (lit "\n\n" ++ debug_print_property_tree cs)))))
