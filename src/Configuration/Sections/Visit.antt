-- ===== src/Configuration/Sections/Visit.antt =====
-- The body of the loop of `mapProperties` (src/Configuration.cpp) for a value and for a section, as
-- the vectors are before and after.
use kcmsg.Prelude.{
  ℕ, suc, ◌+◌, ◌-◌, ◌≤◌, ◌<◌, ◌%◌, ◌^◌, ◌≡◌, refl, true, false, List, [], ◌∷◌, arith, ◌==◌, ==_refl,
  ==_next, if◌then◌else◌, length, All,
}
use kcmsg.Configuration.{
  String, Heap, Outcome, done, undefined, bind_outcome, Run, local, pure, ◌>>◌,
}
use kcmsg.Configuration.Property.{destroy}
use kcmsg.Configuration.Walk.{
  node, Children, nil, Locals, insert_property, visit, count, climb_from, decrement, is_empty,
  push_unless_empty, is_below_zero, end_array, element_leaf, keyed_leaf, leaf, push_child,
}
use kcmsg.Configuration.Sections.{IsCount, spare, room, IsGood, decrement_lem, climb_from-IsGood}

-- The outcome is a return with the property.
abbrev pub Returns {ℓ} : {A : Type ℓ} → (A → Heap → Type 0) → Outcome A → Type 0
Returns P (done a h) = P a h
Returns P undefined = ⊥

pub Returns-bind :
    {A B : Type 0} (P : A → Heap → Type 0) (Q : B → Heap → Type 0) (o : Outcome A) (f : A → Run B)
    → Returns P o
    → ((a : A) (h : Heap) → P a h → Returns Q (f a h))
    → Returns Q (bind_outcome o f)
Returns-bind P Q (done a h) f p k = k a h p
Returns-bind P Q undefined f p k = absurd p

insert_property-Returns :
    (kp vp : List String) (num : List ℕ) (h : Heap)
    → 1 ≤ length kp
    → Returns (λ t h'. Unit) (insert_property kp vp num [] h)
unfolding insert_property destroy
insert_property-Returns [] [] num h lo = absurd (omega arith)
insert_property-Returns (k ∷ kp) [] num h lo = tt
insert_property-Returns kp (v ∷ []) num h lo = rw (==_next h.used, ==_refl h.used) tt
insert_property-Returns kp (v ∷ w ∷ vs) num h lo = rw (==_next h.used, ==_refl h.used) tt

keyed_leaf-Returns :
    (k : String) (kp vp : List String) (n m : ℕ) (num : List ℕ) (h : Heap)
    → Returns
        (λ l h'. (l.kp ≡ kp) × (l.num ≡ decrement m ∷ num))
        (keyed_leaf insert_property [] (record { kp = k ∷ kp; vp = vp; num = n ∷ m ∷ num }) h)
keyed_leaf-Returns k kp vp n m num h =
    Returns-bind (λ t h'. Unit) (λ l h'. (l.kp ≡ kp) × (l.num ≡ decrement m ∷ num))
      (insert_property (k ∷ kp) vp (n ∷ m ∷ num) [] h) _
      (insert_property-Returns (k ∷ kp) vp (n ∷ m ∷ num) h (omega arith)) (λ t h1 u. (refl, refl))

end_array-Returns :
    (lowered : List ℕ) (l : Locals) (h : Heap)
    → 1 ≤ length l.kp
    → Returns (λ vp h'. Unit) (end_array insert_property [] lowered l h)
end_array-Returns lowered l h lo =
    elim (is_below_zero lowered)
      as (λ b.
        Returns (λ vp h'. Unit)
          ((if b then (do insert_property l.kp l.vp lowered []; pure []) else pure l.vp) h)) [
            | true ↦
                Returns-bind (λ t h'. Unit) (λ vp h'. Unit) (insert_property l.kp l.vp lowered [] h)
                  _ (insert_property-Returns l.kp l.vp lowered h lo) (λ t h1 u. tt)
            | false ↦ tt
          ]

element_leaf-Returns :
    (kp vp : List String) (n m : ℕ) (num : List ℕ) (h : Heap)
    → 1 ≤ length kp
    → Returns
        (λ l h'. (l.kp ≡ kp) × (l.num ≡ decrement m ∷ num))
        (element_leaf insert_property [] (record { kp = kp; vp = vp; num = n ∷ m ∷ num }) h)
element_leaf-Returns kp vp n m num h lo =
    Returns-bind (λ vp h'. Unit) (λ l h'. (l.kp ≡ kp) × (l.num ≡ decrement m ∷ num))
      (end_array insert_property [] (n ∷ decrement m ∷ num)
        (record { kp = kp; vp = vp; num = n ∷ m ∷ num }) h)
      _
      (end_array-Returns (n ∷ decrement m ∷ num) (record { kp = kp; vp = vp; num = n ∷ m ∷ num }) h
        lo)
      (λ vp h1 u. (refl, refl))

leaf-Returns :
    (key d : String) (kp vp : List String) (n : ℕ) (num : List ℕ) (h : Heap)
    → 1 ≤ length kp
    → Returns
        (λ l h'. (l.kp ≡ kp) × (l.num ≡ decrement n ∷ num))
        (leaf insert_property key []
          (push_child key (node d nil) (record { kp = kp; vp = vp; num = n ∷ num }))
          h)
leaf-Returns [] d kp vp n num h lo = element_leaf-Returns kp (push_unless_empty d vp) 0 n num h lo
leaf-Returns (c ∷ cs) d kp vp n num h lo =
    keyed_leaf-Returns (c ∷ cs) kp (push_unless_empty d vp) 0 n num h

Returns-weaken :
    {A : Type 0} (P Q : A → Heap → Type 0) (o : Outcome A)
    → Returns P o
    → ((a : A) (h : Heap) → P a h → Q a h)
    → Returns Q o
Returns-weaken P Q (done a h) p k = k a h p
Returns-weaken P Q undefined p k = absurd p

climb_from-Returns :
    (kp vp : List String) (n : ℕ) (num : List ℕ) (h : Heap)
    → length kp ≡ suc (length num)
    → n < 2 ^ 32
    → All IsCount num
    → Returns (λ l h'. IsGood l × (room l.num ≡ n + spare num)) (local (climb_from kp vp n num) h)
climb_from-Returns kp vp n num h level lt counts =
    let (l, same, good) = climb_from-IsGood kp vp n num level lt counts in rw same good

-- A value is counted off.
pub visit_value-Returns :
    (key d : String) (kp vp : List String) (num : List ℕ) (h : Heap)
    → length kp ≡ length num
    → All IsCount num
    → 1 ≤ room num
    → Returns
        (λ l h'. IsGood l × (room l.num + 1 ≡ room num))
        (visit insert_property key (node d nil) [] (record { kp = kp; vp = vp; num = num }) h)
unfolding visit
visit_value-Returns key d kp vp [] h level counts lo = absurd (omega arith)
visit_value-Returns key d kp vp (n ∷ num) h level (hn, counts) lo =
    Returns-bind (λ l h'. (l.kp ≡ kp) × (l.num ≡ decrement n ∷ num))
      (λ l h'. IsGood l × (room l.num + 1 ≡ n + spare num))
      (leaf insert_property key []
        (push_child key (node d nil) (record { kp = kp; vp = vp; num = n ∷ num })) h)
      _ (leaf-Returns key d kp vp n num h (omega arith))
      (λ l h1 (ek, en).
        rw (ek, en, decrement_lem n hn)
          (Returns-weaken (λ l h'. IsGood l × (room l.num ≡ n - 1 + spare num))
            (λ l h'. IsGood l × (room l.num + 1 ≡ n + spare num)) _
            (climb_from-Returns kp l.vp (n - 1) num h1 level (omega arith) counts)
            (λ l2 h2 (good, e). (good, omega arith))))

-- A section is entered.
pub visit_group-Returns :
    (key d : String) (inner : Children) (kp vp : List String) (num : List ℕ) (h : Heap)
    → is_empty key ≡ false
    → IsCount (count inner)
    → length kp ≡ length num
    → All IsCount num
    → Returns
        (λ l h'. IsGood l × (room l.num ≡ count inner + spare num))
        (visit insert_property key (node d inner) [] (record { kp = kp; vp = vp; num = num }) h)
unfolding visit
visit_group-Returns key d inner kp vp num h keyed (lo, hi) level counts =
    let small : count inner % 2 ^ 32 ≡ count inner = omega arith in
    let later : (count inner == 0) ≡ false = ground arith in
    rw (small, later, keyed)
      (climb_from-Returns (key ∷ kp) (push_unless_empty d vp) (count inner) num h (omega arith) hi
        counts)
