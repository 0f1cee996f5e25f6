-- ===== src/Configuration/Walk.antt =====
-- `insertProperty` and `mapProperties` of src/Configuration.cpp. A property tree is the data of a
-- node and its children by their keys. A vector is kept with its back first. All parameters are
-- copies, and a copy of the map destroys its values when the function returns.
use kcmsg.Prelude.{
  ℕ, ◌+◌, ◌-◌, ◌%◌, ◌^◌, Bool, true, false, List, [], ◌∷◌, ◌++◌, Option, none, some, ◌==◌,
  if◌then◌else◌,
}
use kcmsg.Configuration.{String, text, texts, property_object, Run, pure, local, new, ◌>>=◌, ◌>>◌}
use kcmsg.Configuration.Property.{make_property, prop_type_string, prop_type_string_array}
use kcmsg.Configuration.Map.{Properties, assign, destroy_all}

mutual
  pub data Tree : Type 0 where
    node : String → Children → Tree

  pub data Children : Type 0 where
    nil : Children
    child : String → Tree → Children → Children

abbrev pub count : Children → ℕ
count nil = 0
count (child k t cs) = 1 + count cs

abbrev pub data_of : Tree → String
data_of (node d cs) = d

abbrev pub size_of : Tree → ℕ
size_of (node d cs) = count cs

abbrev pub is_empty {ℓ} : {A : Type ℓ} → List A → Bool
is_empty [] = true
is_empty (x ∷ xs) = false

abbrev pub push_unless_empty : String → List String → List String
push_unless_empty s v = if is_empty s then v else s ∷ v

abbrev pub pop {ℓ} : {A : Type ℓ} → List A → Option (List A)
pop [] = none
pop (x ∷ xs) = some xs

-- The vector from its front on, in front of `acc`.
abbrev pub from_front {ℓ} : {A : Type ℓ} → List A → List A → List A
from_front [] acc = acc
from_front (x ∷ xs) acc = from_front xs (x ∷ acc)

-- `--` on a `uint`.
abbrev pub decrement : ℕ → ℕ
decrement n = (n + (2 ^ 32 - 1)) % 2 ^ 32

-- The loop over `kp`: the keys with dots (46) between them.
abbrev pub append_keys : String → List String → String
append_keys key [] = key
append_keys key (k ∷ ks) = append_keys ((if is_empty key then key else key ++ (46 ∷ [])) ++ k) ks

-- The property behind `p` is copied into the map, and `p` is never deleted.
abbrev pub with_value : String → List String → List String → Properties → Run Properties
with_value key kp [] props = do popped ← local (pop kp); pure props
with_value key kp (v ∷ []) props = do
  ptr ← new (text v)
  p ← new (property_object prop_type_string (some ptr))
  pure (assign key (make_property prop_type_string (some ptr)) props)
with_value key kp (v ∷ w ∷ vs) props = do
  ptr ← new (texts (from_front (v ∷ w ∷ vs) []))
  p ← new (property_object prop_type_string_array (some ptr))
  pure (assign key (make_property prop_type_string_array (some ptr)) props)

unfoldable pub insert_property : List String → List String → List ℕ → Properties → Run (Unit {0})
insert_property kp vp num props = do
  inserted ← with_value (append_keys [] (from_front kp [])) kp vp props
  destroy_all inserted

-- The three vectors of `mapProperties`.
pub record Locals : Type 0 where
  pub kp : List String
  pub vp : List String
  pub num : List ℕ

abbrev pub push_child : String → Tree → Locals → Locals
push_child key t l = record {
  kp = push_unless_empty key l.kp;
  vp = push_unless_empty (data_of t) l.vp;
  num = size_of t % 2 ^ 32 ∷ l.num;
}

-- `num.end()[-2]--`, which reads before the vector when it has one element.
abbrev pub decrement_below : List ℕ → Option (List ℕ)
decrement_below [] = none
decrement_below (n ∷ []) = none
decrement_below (n ∷ m ∷ num) = some (n ∷ decrement m ∷ num)

abbrev pub is_below_zero : List ℕ → Bool
is_below_zero (n ∷ m ∷ num) = m == 0
is_below_zero (n ∷ []) = false
is_below_zero [] = false

-- The `while` loop: `n` is the back of the vector, `num` what is below.
abbrev pub climb_from : List String → List String → ℕ → List ℕ → Option Locals
climb_from [] vp n num = if n == 0 then none else some (record { kp = []; vp = vp; num = n ∷ num })
climb_from (k ∷ kp) vp n [] =
    if n == 0
    then some (record { kp = kp; vp = vp; num = [] })
    else some (record { kp = k ∷ kp; vp = vp; num = n ∷ [] })
climb_from (k ∷ kp) vp n (m ∷ num) =
    if n == 0
    then climb_from kp vp (decrement m) num
    else some (record { kp = k ∷ kp; vp = vp; num = n ∷ m ∷ num })

abbrev pub climb : List String → List String → List ℕ → Option Locals
climb kp vp [] = some (record { kp = kp; vp = vp; num = [] })
climb kp vp (n ∷ num) = climb_from kp vp n num

-- `insertProperty` is a parameter here.
abbrev pub Insert : Type 0
Insert = List String → List String → List ℕ → Properties → Run (Unit {0})

module _ (insert : Insert) where
  -- A property node, with a key and as an element of an array.
  abbrev pub keyed_leaf : Properties → Locals → Run Locals
  keyed_leaf props l = do
    insert l.kp l.vp l.num props
    kp ← local (pop l.kp)
    lowered ← local (decrement_below l.num)
    num ← local (pop lowered)
    pure (record { kp = kp; vp = []; num = num })

  abbrev pub end_array : Properties → List ℕ → Locals → Run (List String)
  end_array props lowered l =
      if is_below_zero lowered then (do insert l.kp l.vp lowered props; pure []) else pure l.vp

  abbrev pub element_leaf : Properties → Locals → Run Locals
  element_leaf props l = do
    lowered ← local (decrement_below l.num)
    vp ← end_array props lowered l
    num ← local (pop lowered)
    pure (record { kp = l.kp; vp = vp; num = num })

  abbrev pub leaf : String → Properties → Locals → Run Locals
  leaf key props l = if is_empty key then element_leaf props l else keyed_leaf props l

  -- The body of the loop up to its call of `mapProperties`.
  unfoldable pub visit : String → Tree → Properties → Locals → Run Locals
  visit key t props l = do
    let pushed = push_child key t l
    l1 ← if size_of t % 2 ^ 32 == 0 then leaf key props pushed else pure pushed
    local (climb l1.kp l1.vp l1.num)

  -- The loop over the children, and `mapProperties` as a whole.
  unfoldable mutual
    pub map_children : Children → Properties → Locals → Run (Unit {0})
    map_children nil props l = pure tt
    map_children (child key t cs) props l = do
      l1 ← visit key t props l
      map_properties t props l1
      map_children cs props l1

    pub map_properties : Tree → Properties → Locals → Run (Unit {0})
    map_properties (node d cs) props l = do map_children cs props l; destroy_all props
