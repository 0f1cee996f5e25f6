-- ===== src/Configuration/Property.antt =====
-- The class `Property` of src/Property.h and src/Property.cpp: the identifier of a type and an
-- untyped pointer, which is null or the address of a string or a vector. Copies share the pointer.
use kcmsg.Prelude.{ℕ, List, Option, none, some, ◌==◌, if◌then◌else◌}
use kcmsg.Configuration.{
  String, Cell, freed, text, texts, property_object, Heap, put_cell, done, undefined, Run, pure,
  new, free, ◌>>=◌, ◌>>◌,
}

abbrev pub prop_type_null : ℕ
prop_type_null = 0

abbrev pub prop_type_boolean : ℕ
prop_type_boolean = 1

abbrev pub prop_type_number : ℕ
prop_type_number = 2

abbrev pub prop_type_string : ℕ
prop_type_string = 3

abbrev pub prop_type_boolean_array : ℕ
prop_type_boolean_array = 4

abbrev pub prop_type_number_array : ℕ
prop_type_number_array = 5

abbrev pub prop_type_string_array : ℕ
prop_type_string_array = 6

pub record Property : Type 0 where
  pub value_type : ℕ
  pub value : Option ℕ

-- The two constructors.
abbrev pub null_property : Property
null_property = record { value_type = prop_type_null; value = none }

abbrev pub make_property : ℕ → Option ℕ → Property
make_property ptype v = record { value_type = ptype; value = v }

-- The cell behind a cast pointer.
abbrev pub target : Option ℕ → Heap → Cell
target none h = freed
target (some a) h = h.cell a

abbrev pub delete_text : ℕ → Cell → Run (Unit {0})
delete_text a (text s) h = free a h
delete_text a freed h = undefined
delete_text a (texts ss) h = undefined
delete_text a (property_object t v) h = undefined

abbrev pub delete_texts : ℕ → Cell → Run (Unit {0})
delete_texts a (texts ss) h = free a h
delete_texts a freed h = undefined
delete_texts a (text s) h = undefined
delete_texts a (property_object t v) h = undefined

abbrev pub delete_value : ℕ → Option ℕ → Run (Unit {0})
delete_value t none h = done tt h
delete_value t (some a) h =
    if t == prop_type_string
    then delete_text a (h.cell a) h
    else if t == prop_type_string_array
    then delete_texts a (h.cell a) h
    else done tt h

-- The destructor.
unfoldable pub destroy : Property → Run (Unit {0})
destroy p = delete_value p.value_type p.value

unfoldable pub set_type : ℕ → Property → Property
set_type ptype p = record p { value_type = ptype }

abbrev pub assign_text : Option ℕ → Cell → String → Run (Unit {0})
assign_text (some a) (text old) s h = done tt (put_cell a (text s) h)
assign_text (some a) freed s h = undefined
assign_text (some a) (texts ss) s h = undefined
assign_text (some a) (property_object t v) s h = undefined
assign_text none c s h = undefined

-- The string that the pointer leads to is replaced; the property itself stays.
unfoldable pub set_value : String → Property → Run (Unit {0})
set_value s p h = assign_text p.value (target p.value h) s h

-- The pointer is to the function's own parameter, which is gone when it returns.
unfoldable pub set_value_vector : List String → Property → Run Property
set_value_vector values p = do a ← new (texts values); free a; pure (record p { value = some a })

unfoldable pub get_type : Property → ℕ
get_type p = p.value_type

abbrev pub text_of : Cell → Run String
text_of (text s) h = done s h
text_of freed h = undefined
text_of (texts ss) h = undefined
text_of (property_object t v) h = undefined

abbrev texts_of : Cell → Run (List String)
texts_of (texts ss) h = done ss h
texts_of freed h = undefined
texts_of (text s) h = undefined
texts_of (property_object t v) h = undefined

unfoldable pub get_value : Property → Run String
get_value p h = text_of (target p.value h) h

unfoldable pub get_value_vector : Property → Run (List String)
get_value_vector p h = texts_of (target p.value h) h
