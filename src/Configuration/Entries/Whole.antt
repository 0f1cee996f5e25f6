-- ===== src/Configuration/Entries/Whole.antt =====
-- `mapProperties` (src/Configuration.cpp) on whole files, by the calls of `insertProperty` that it
-- makes.
use kcmsg.Prelude.{
  ℕ, ◌+◌, ◌≤◌, ◌<◌, ◌^◌, ◌%◌, ◌≡◌, refl, sym, ◌∙◌, ap, false, List, [], ◌∷◌, ◌++◌, arith, ◌==◌,
  length,
}
use mathlib.Core.List.{append-nil}
use kcmsg.Configuration.{String, Heap, bind_outcome}
use kcmsg.Configuration.Walk.{
  node, Children, nil, child, count, is_empty, Locals, decrement, Insert, visit, map_children,
  map_properties,
}
use kcmsg.Configuration.Read.{no_locals}
use kcmsg.Configuration.Entries.{
  Elements, Chain, Top, end, element, value, section, array, values_of, entries, entries_at,
  stacked,
}
use kcmsg.Configuration.Entries.Calls.{
  insert_each, Ignores, bind-ext, bind-done, after_three, insert_each-append, climb_from-cases,
  decrement_suc, Elements-calls,
}

-- A section's entries are those of what stands in it.
entries_at-section :
    {cs : Children} (kp : List String)
    → Chain cs
    → 1 ≤ count cs
    → entries_at kp (node [] cs) ≡ entries kp cs
unfolding entries entries_at
entries_at-section kp end lo = absurd (omega arith)
entries_at-section kp (value [] v ek ev c) lo = absurd (cc)
entries_at-section kp (value (k ∷ ks) v ek ev c) lo = refl
entries_at-section kp (section [] ek few many c) lo = absurd (cc)
entries_at-section kp (section (k ∷ ks) ek few many c) lo = refl
entries_at-section kp (array [] ek few many c) lo = absurd (cc)
entries_at-section kp (array (k ∷ ks) ek few many c) lo = refl

entries_at-array :
    {cs : Children} (kp : List String)
    → Elements cs
    → 1 ≤ count cs
    → entries_at kp (node [] cs) ≡ (kp, values_of cs []) ∷ []
unfolding entries entries_at
entries_at-array kp end lo = absurd (omega arith)
entries_at-array kp (element v ev es) lo = refl

module _ (insert : Insert) (ignores : Ignores insert) where
  -- What is neither empty nor a value is entered with its key and its number of entries, which
  -- then stay for the entries behind it.
  enter :
      (key : String) (cs rest : Children) (kp : List String) (num : List ℕ) (l : Locals) (h : Heap)
      → is_empty key ≡ false
      → 1 ≤ count cs
      → count cs < 2 ^ 32
      → length num ≤ length kp
      → l ≡ record { kp = kp; vp = []; num = num }
      → (l1 : Locals) × (l1 ≡ record { kp = key ∷ kp; vp = []; num = count cs ∷ num })
        × (map_children insert (child key (node [] cs) rest) [] l h
            ≡ bind_outcome (map_children insert cs [] l1 h) (λ t. map_children insert rest [] l1))
  unfolding map_children map_properties visit
  enter key cs rest kp num l h ek few many level start =
      let (l1, up, kept) = climb_from-cases (key ∷ kp) [] (count cs) num (omega arith) in
      let small : count cs % 2 ^ 32 ≡ count cs = omega arith in
      let later : (count cs == 0) ≡ false = ground arith in
      (
        l1,
        kept few,
        rw (start, ek, small, later, up)
            (ap (λ o. bind_outcome o (λ t. map_children insert rest [] l1))
              (bind-done (map_children insert cs [] l1 h))),
      )

  -- The walk through a section, under the keys `kp` and with its number of entries on `num`.
  Chain-calls :
      {cs : Children} (kp : List String) (num : List ℕ) (l : Locals) (h : Heap)
      → Chain cs
      → count cs < 2 ^ 32
      → length num < length kp
      → (1 ≤ count cs → l ≡ record { kp = kp; vp = []; num = count cs ∷ num })
      → map_children insert cs [] l h ≡ insert_each insert (entries kp cs) h
  unfolding map_children map_properties visit insert_each entries entries_at
  Chain-calls kp num l h end hi level start = refl
  Chain-calls kp num l h (value key v {cs} ek ev c) hi level start =
      let (l1, up, kept) = climb_from-cases kp [] (count cs) num level in
      let less : decrement (1 + count cs) ≡ count cs = decrement_suc _ hi in
      rw (start (omega arith), ek, ev, ignores (key ∷ kp) (v ∷ []) (0 ∷ (1 + count cs) ∷ num) h)
        (after_three (insert (key ∷ kp) (v ∷ []) [] [] h) _ _ _ _
          (λ t h1. rw (less, up) (Chain-calls kp num l1 h1 c (omega arith) level kept)))
  Chain-calls kp num l h (section key {cs} ek few many c) hi level start =
      let (l1, at_start, entered) =
        enter key cs nil kp (1 ∷ num) l h ek few many (omega arith) (start (omega arith)) in
      entered
      ∙ bind-done (map_children insert cs [] l1 h)
      ∙ rw (entries_at-section (key ∷ kp) c few, append-nil (entries (key ∷ kp) cs))
          (Chain-calls (key ∷ kp) (1 ∷ num) l1 h c many (omega arith) (λ lo. at_start))
  Chain-calls kp num l h (array key {cs} ek few many es) hi level start =
      let (l1, at_start, entered) =
        enter key cs nil kp (1 ∷ num) l h ek few many (omega arith) (start (omega arith)) in
      entered
      ∙ bind-done (map_children insert cs [] l1 h)
      ∙ rw (entries_at-array (key ∷ kp) es few) (
          Elements-calls insert ignores (key ∷ kp) [] (1 ∷ num) l1 h es few many (omega arith)
            at_start
          ∙ sym (bind-done _))

  Top-calls :
      {cs : Children} (kp : List String) (num : List ℕ) (l : Locals) (h : Heap)
      → Top cs
      → length num ≤ length kp
      → l ≡ record { kp = kp; vp = []; num = num }
      → map_children insert cs [] l h ≡ insert_each insert (stacked kp cs) h
  unfolding insert_each stacked
  Top-calls kp num l h end level start = unfold map_children in refl
  Top-calls kp num l h (section key {cs} {rest} ek few many c others) level start =
      let (l1, at_start, entered) = enter key cs rest kp num l h ek few many level start in
      entered
      ∙ rw (Chain-calls (key ∷ kp) num l1 h c many (omega arith) (λ lo. at_start)) (
          bind-ext (insert_each insert (entries (key ∷ kp) cs) h) _ _
            (λ t h1. Top-calls (key ∷ kp) (count cs ∷ num) l1 h1 others (omega arith) at_start)
          ∙ sym (insert_each-append insert (entries (key ∷ kp) cs) (stacked (key ∷ kp) rest) h)
          ∙ ap (λ es. insert_each insert (es ++ stacked (key ∷ kp) rest) h)
              (sym (entries_at-section (key ∷ kp) c few)))
  Top-calls kp num l h (array key {cs} {rest} ek few many es others) level start =
      let (l1, at_start, entered) = enter key cs rest kp num l h ek few many level start in
      entered
      ∙ rw
          (
            Elements-calls insert ignores (key ∷ kp) [] num l1 h es few many (omega arith) at_start,
            entries_at-array (key ∷ kp) es few,
          )
          (bind-ext (insert (key ∷ kp) (values_of cs []) [] [] h) _ _
            (λ t h1. Top-calls (key ∷ kp) (count cs ∷ num) l1 h1 others (omega arith) at_start))

  -- `mapProperties`, as `readConfigurationFile` calls it, on a file whose entries at the top are
  -- sections and arrays: it calls `insertProperty` for each value and each array, in the order of
  -- the file, with its values and the keys on the way to it, behind the keys of all entries at the
  -- top before it, where they do not belong. In a section, another section or an array comes last;
  -- keys and values are not empty, sections and arrays neither, and have fewer than 2 ^ 32 entries.
  -- It holds whatever `insertProperty` does with the keys and the values.
  pub map_properties-stacked :
      (data_ : String) {cs : Children} (h : Heap)
      → Top cs
      → map_properties insert (node data_ cs) [] no_locals h ≡ insert_each insert (stacked [] cs) h
  unfolding map_properties
  map_properties-stacked data_ {cs} h top =
      bind-done (map_children insert cs [] no_locals h)
      ∙ Top-calls [] [] no_locals h top (omega arith) refl
