-- ===== src/Configuration/Sections/Complete.antt =====
-- The walk of `mapProperties` through a file of sections, and `readConfigurationFile` on it
-- (src/Configuration.cpp).
use kcmsg.Prelude.{ap, ℕ, ◌+◌, ◌≤◌, ◌≡◌, refl, List, [], ◌∷◌, some, arith}
use kcmsg.Configuration.{String, Heap, Outcome, done, undefined, bind_outcome}
use kcmsg.Configuration.Map.{Configuration, destroy_all}
use kcmsg.Configuration.Walk.{
  insert_property, node, Children, nil, Locals, visit, map_children, map_properties, count,
}
use kcmsg.Configuration.Read.{regular, returns, no_locals, copy_and_return, read_configuration_file}
use kcmsg.Configuration.Sections.{Nested, end, value, group, Sections, section, spare, room, IsGood}
use kcmsg.Configuration.Sections.Visit.{
  Returns, Returns-bind, visit_value-Returns, visit_group-Returns,
}

room-spare : (num : List ℕ) → room num ≤ 1 + spare num
room-spare [] = omega arith
room-spare (n ∷ num) = omega arith

-- The walk through a section ends with a return.
map_children-Returns :
    {cs : Children}
    → Nested cs
    → (l : Locals) (h : Heap) → IsGood l
    → count cs ≤ room l.num
    → Returns (λ t h'. Unit) (map_children insert_property cs [] l h)
unfolding map_children map_properties
map_children-Returns end l h good fits = tt
map_children-Returns (value key d {cs} rest) l h good fits =
    Returns-bind (λ l' h'. IsGood l' × (room l'.num + 1 ≡ room l.num)) (λ t h'. Unit)
      (visit insert_property key (node d nil) [] l h) _
      (visit_value-Returns key d l.kp l.vp l.num h good.level good.counts (omega arith))
      (λ l1 h1 (good1, e). map_children-Returns rest l1 h1 good1 (omega arith))
map_children-Returns (group key d {inner} {cs} keyed lo hi nested rest) l h good fits =
    let low = room-spare l.num in
    Returns-bind (λ l' h'. IsGood l' × (room l'.num ≡ count inner + spare l.num)) (λ t h'. Unit)
      (visit insert_property key (node d inner) [] l h) _
      (visit_group-Returns key d inner l.kp l.vp l.num h keyed (lo, hi) good.level good.counts)
      (λ l1 h1 (good1, e).
        Returns-bind (λ t h'. Unit) (λ t h'. Unit)
          (map_properties insert_property (node d inner) [] l1 h1)
          (λ t. map_children insert_property cs [] l1)
          (Returns-bind (λ t h'. Unit) (λ t h'. Unit) (map_children insert_property inner [] l1 h1)
            _ (map_children-Returns nested l1 h1 good1 (omega arith)) (λ t h2 u. tt))
          (λ t h2 u. map_children-Returns rest l1 h2 good1 (omega arith)))

map_top-Returns :
    {cs : Children}
    → Sections cs
    → (l : Locals) (h : Heap) → IsGood l
    → Returns (λ t h'. Unit) (map_children insert_property cs [] l h)
unfolding map_children map_properties
map_top-Returns end l h good = tt
map_top-Returns (section key d {inner} {cs} keyed lo hi nested rest) l h good =
    Returns-bind (λ l' h'. IsGood l' × (room l'.num ≡ count inner + spare l.num)) (λ t h'. Unit)
      (visit insert_property key (node d inner) [] l h) _
      (visit_group-Returns key d inner l.kp l.vp l.num h keyed (lo, hi) good.level good.counts)
      (λ l1 h1 (good1, e).
        Returns-bind (λ t h'. Unit) (λ t h'. Unit)
          (map_properties insert_property (node d inner) [] l1 h1)
          (λ t. map_children insert_property cs [] l1)
          (Returns-bind (λ t h'. Unit) (λ t h'. Unit) (map_children insert_property inner [] l1 h1)
            _ (map_children-Returns nested l1 h1 good1 (omega arith)) (λ t h2 u. tt))
          (λ t h2 u. map_top-Returns rest l1 h2 good1))

returned : (o : Outcome (Unit {0})) → Returns (λ t h'. Unit) o → (h' : Heap) × (o ≡ done tt h')
returned (done tt h) r = (h, refl)
returned undefined r = absurd r

-- A file whose top level is sections, with values, arrays of values and further sections in them, is
-- read to the end: the walk never reads or pops outside of its vectors, and the function returns 0.
pub read_configuration_file-Sections :
    (data_ : String) {cs : Children}
    → Sections cs
    → (c : Configuration) (h : Heap)
    → (h' : Heap) × (read_configuration_file (regular (some (node data_ cs))) c h ≡ returns 0 c h')
unfolding read_configuration_file map_properties
read_configuration_file-Sections data_ {cs} s c h =
    let good : IsGood no_locals = record { level = refl; counts = tt } in
    let (h', same) =
      returned (map_children insert_property cs [] no_locals h)
        (map_top-Returns s no_locals h good) in
    (h', ap (λ o. copy_and_return [] c (bind_outcome o (λ t. destroy_all []))) same)
