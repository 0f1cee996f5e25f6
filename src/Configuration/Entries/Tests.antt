-- ===== src/Configuration/Entries/Tests.antt =====
-- `mapProperties` (src/Configuration.cpp) on two small files.
use kcmsg.Prelude.{◌≡◌, refl, [], ◌∷◌, arith}
use kcmsg.Configuration.{Heap, freed}
use kcmsg.Configuration.Walk.{Children, node, nil, child, insert_property, map_properties}
use kcmsg.Configuration.Read.{no_locals}
use kcmsg.Configuration.Entries.{
  Chain, end, element, value, section, array, entries, entries_at, stacked,
}
use kcmsg.Configuration.Entries.Calls.{Ignores, insert_each}
use kcmsg.Configuration.Entries.Whole.{map_properties-stacked}

insert_property-Ignores : Ignores insert_property
unfolding insert_property
insert_property-Ignores kp [] num h = refl
insert_property-Ignores kp (v ∷ []) num h = refl
insert_property-Ignores kp (v ∷ w ∷ vp) num h = refl

abbrev no_memory : Heap
no_memory = record { used = 0; cell = λ a. freed }

-- {"net": {"host": "h", "ports": ["1", "2"]}}
abbrev ports : Children
ports = child [] (node (b'1' ∷ []) nil) (child [] (node (b'2' ∷ []) nil) nil)

abbrev net : Children
net = child (b'h' ∷ []) (node (b'x' ∷ []) nil) (child (b'p' ∷ []) (node [] ports) nil)

net-Chain : Chain net
net-Chain = value (b'h' ∷ []) (b'x' ∷ []) refl refl (
    array (b'p' ∷ []) refl (omega arith) (omega arith)
      (element (b'1' ∷ []) refl (element (b'2' ∷ []) refl end)))

-- {"log": {"level": "3"}}
abbrev log : Children
log = child (b'l' ∷ []) (node (b'3' ∷ []) nil) nil

log-Chain : Chain log
log-Chain = value (b'l' ∷ []) (b'3' ∷ []) refl refl end

abbrev two_sections : Children
two_sections = child (b'n' ∷ []) (node [] net) (child (b'g' ∷ []) (node [] log) nil)

map_properties-stacked_example :
    map_properties insert_property (node [] two_sections) [] no_locals no_memory
    ≡ insert_each insert_property (stacked [] two_sections) no_memory
map_properties-stacked_example =
    map_properties-stacked insert_property insert_property-Ignores [] no_memory (
      section (b'n' ∷ []) refl (omega arith) (omega arith) net-Chain
        (section (b'g' ∷ []) refl (omega arith) (omega arith) log-Chain end))

-- The level of the log stands under the net.
two_stacked :
    stacked [] two_sections
    ≡ ((b'h' ∷ []) ∷ (b'n' ∷ []) ∷ [], (b'x' ∷ []) ∷ [])
      ∷ ((b'p' ∷ []) ∷ (b'n' ∷ []) ∷ [], (b'2' ∷ []) ∷ (b'1' ∷ []) ∷ [])
      ∷ ((b'l' ∷ []) ∷ (b'g' ∷ []) ∷ (b'n' ∷ []) ∷ [], (b'3' ∷ []) ∷ [])
      ∷ []
unfolding stacked entries entries_at
two_stacked = refl
