-- ===== src/Configuration/Flat.antt =====
-- `readConfigurationFile` (src/Configuration.cpp) on a file that begins with a value.
use kcmsg.Prelude.{◌≡◌, refl, [], ◌∷◌, some}
use kcmsg.Configuration.{String, Heap, Outcome, done, undefined, bind_outcome, Run}
use kcmsg.Configuration.Map.{Configuration}
use kcmsg.Configuration.Walk.{
  node, Children, nil, child, push_child, leaf, visit, insert_property, map_children,
  map_properties,
}
use kcmsg.Configuration.Read.{regular, is_undefined, no_locals, read_configuration_file}

bind-undefined :
    {A B : Type 0} (o : Outcome A) (f : A → Run B)
    → ((a : A) (h : Heap) → f a h ≡ undefined)
    → bind_outcome o f ≡ undefined
bind-undefined (done a h) f k = k a h
bind-undefined undefined f k = refl

leaf-undefined :
    (key value : String) (h : Heap)
    → leaf insert_property key [] (push_child key (node value nil) no_locals) h ≡ undefined
leaf-undefined [] value h = refl
leaf-undefined (c ∷ cs) value h = bind-undefined (insert_property _ _ _ [] h) _ (λ t h1. refl)

visit-undefined :
    (key value : String) (h : Heap)
    → visit insert_property key (node value nil) [] no_locals h ≡ undefined
unfolding visit
visit-undefined key value h = rw (leaf-undefined key value h) refl

-- A file whose first entry at the top level is a value makes `mapProperties` write in front of its
-- vector `num`: the behaviour is undefined, whatever else stands in the file.
pub read_configuration_file-undefined :
    (data_ key value : String) (cs : Children) (c : Configuration) (h : Heap)
    → read_configuration_file (regular (some (node data_ (child key (node value nil) cs)))) c h
      ≡ is_undefined
unfolding read_configuration_file map_properties map_children
read_configuration_file-undefined data_ key value cs c h = rw (visit-undefined key value h) refl
