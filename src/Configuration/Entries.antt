-- ===== src/Configuration/Entries.antt =====
-- What the values of a section and their keys are, for the files that `mapProperties` of
-- src/Configuration.cpp reads as they are written: each section and array is the last entry of the
-- section that it stands in.
pub mod Calls
pub mod Whole
mod Tests
use kcmsg.Prelude.{ℕ, ◌≤◌, ◌<◌, ◌^◌, ◌≡◌, false, List, [], ◌∷◌, ◌++◌}
use kcmsg.Configuration.{String}
use kcmsg.Configuration.Walk.{Tree, node, Children, nil, child, count, data_of, is_empty}

-- The elements of an array, which have values and no keys.
pub data Elements : Children → Type 0 where
  end : Elements nil
  element :
      (value : String) {cs : Children}
      → is_empty value ≡ false
      → Elements cs
      → Elements (child [] (node value nil) cs)

-- A section with fewer than 2 ^ 32 entries: values, and then a section or an array that is not
-- empty, or nothing.
pub data Chain : Children → Type 0 where
  end : Chain nil
  value :
      (key value : String) {cs : Children}
      → is_empty key ≡ false
      → is_empty value ≡ false
      → Chain cs
      → Chain (child key (node value nil) cs)
  section :
      (key : String) {cs : Children}
      → is_empty key ≡ false
      → 1 ≤ count cs
      → count cs < 2 ^ 32
      → Chain cs
      → Chain (child key (node [] cs) nil)
  array :
      (key : String) {cs : Children}
      → is_empty key ≡ false
      → 1 ≤ count cs
      → count cs < 2 ^ 32
      → Elements cs
      → Chain (child key (node [] cs) nil)

-- The keys on the way to a value, the last one first, and its values.
abbrev pub Entry : Type 0
Entry = List String × List String

-- The values of an array's elements, the last one first, in front of `acc`.
abbrev pub values_of : Children → List String → List String
values_of nil acc = acc
values_of (child key t cs) acc = values_of cs (data_of t ∷ acc)

-- The entries of a section under the keys `kp`: those of its values, its arrays and its sections,
-- in the order of the file.
unfoldable mutual
  pub entries : List String → Children → List Entry
  entries kp nil = []
  entries kp (child key t cs) = entries_at (key ∷ kp) t ++ entries kp cs

  pub entries_at : List String → Tree → List Entry
  entries_at kp (node data_ nil) = (kp, data_ ∷ []) ∷ []
  entries_at kp (node data_ (child [] t cs)) = (kp, values_of cs (data_of t ∷ [])) ∷ []
  entries_at kp (node data_ (child (c ∷ key) t cs)) = entries_at ((c ∷ key) ∷ kp) t ++ entries kp cs

-- What the entries at the top of a file may be.
pub data Top : Children → Type 0 where
  end : Top nil
  section :
      (key : String) {cs rest : Children}
      → is_empty key ≡ false
      → 1 ≤ count cs
      → count cs < 2 ^ 32
      → Chain cs
      → Top rest
      → Top (child key (node [] cs) rest)
  array :
      (key : String) {cs rest : Children}
      → is_empty key ≡ false
      → 1 ≤ count cs
      → count cs < 2 ^ 32
      → Elements cs
      → Top rest
      → Top (child key (node [] cs) rest)

-- The entries of a file where each section or array at the top is read as if it stood in the one
-- before it.
unfoldable pub stacked : List String → Children → List Entry
stacked kp nil = []
stacked kp (child key t cs) = entries_at (key ∷ kp) t ++ stacked (key ∷ kp) cs
