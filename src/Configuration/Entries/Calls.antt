-- ===== src/Configuration/Entries/Calls.antt =====
-- The calls of `insertProperty` that `mapProperties` makes (src/Configuration.cpp), whatever
-- `insertProperty` does with the keys and the values.
use kcmsg.Prelude.{
  ℕ, zero, suc, ◌+◌, ◌≤◌, ◌<◌, ◌^◌, ◌≡◌, refl, sym, ◌∙◌, false, List, [], ◌∷◌, ◌++◌, some, arith,
  ◌==◌, length,
}
use kcmsg.Configuration.{String, Heap, Outcome, done, undefined, bind_outcome, Run, pure, ◌>>◌}
use kcmsg.Configuration.Walk.{
  Children, count, Locals, climb_from, decrement, Insert, visit, map_children, map_properties,
}
use kcmsg.Configuration.Entries.{Elements, end, element, Entry, values_of}

-- One call for each entry, in order.
unfoldable pub insert_each : Insert → List Entry → Run (Unit {0})
insert_each insert [] = pure tt
insert_each insert ((kp, vp) ∷ es) = do insert kp vp [] []; insert_each insert es

pub bind-ext :
    {A B : Type 0} (o : Outcome A) (f g : A → Run B)
    → ((a : A) (h : Heap) → f a h ≡ g a h)
    → bind_outcome o f ≡ bind_outcome o g
bind-ext (done a h) f g same = same a h
bind-ext undefined f g same = refl

pub bind-done : (o : Outcome (Unit {0})) → bind_outcome o (λ t h. done tt h) ≡ o
bind-done (done a h) = refl
bind-done undefined = refl

bind-bind :
    {A B C : Type 0} (o : Outcome A) (f : A → Run B) (g : B → Run C)
    → bind_outcome (bind_outcome o f) g ≡ bind_outcome o (λ a h. bind_outcome (f a h) g)
bind-bind (done a h) f g = refl
bind-bind undefined f g = refl

-- What follows a call inside of three blocks, and of four.
pub after_three :
    {A B C D : Type 0} (o : Outcome A) (f : A → Run B) (g : B → Run C) (k : C → Run D)
    (r : A → Run D)
    → ((a : A) (h : Heap) → bind_outcome (bind_outcome (f a h) g) k ≡ r a h)
    → bind_outcome (bind_outcome (bind_outcome o f) g) k ≡ bind_outcome o r
after_three (done a h) f g k r same = same a h
after_three undefined f g k r same = refl

after_four :
    {A B C D E : Type 0} (o : Outcome A) (e : A → Run B) (f : B → Run C) (g : C → Run D)
    (k : D → Run E) (r : A → Run E)
    → ((a : A) (h : Heap) → bind_outcome (bind_outcome (bind_outcome (e a h) f) g) k ≡ r a h)
    → bind_outcome (bind_outcome (bind_outcome (bind_outcome o e) f) g) k ≡ bind_outcome o r
after_four (done a h) e f g k r same = same a h
after_four undefined e f g k r same = refl

pub insert_each-append :
    (insert : Insert) (xs ys : List Entry) (h : Heap)
    → insert_each insert (xs ++ ys) h
      ≡ bind_outcome (insert_each insert xs h) (λ t. insert_each insert ys)
unfolding insert_each
insert_each-append insert [] ys h = refl
insert_each-append insert ((kp, vp) ∷ xs) ys h =
    bind-ext (insert kp vp [] [] h) _ _ (λ a h1. insert_each-append insert xs ys h1)
    ∙ sym (bind-bind (insert kp vp [] [] h) _ _)

-- The `while` loop ends with the vectors as they are where there is something left to count.
pub climb_from-cases :
    (kp vp : List String) (n : ℕ) (num : List ℕ)
    → length num < length kp
    → (l : Locals) × (climb_from kp vp n num ≡ some l)
      × (1 ≤ n → l ≡ record { kp = kp; vp = vp; num = n ∷ num })
climb_from-cases [] vp n num lt = absurd (omega arith)
climb_from-cases (k ∷ kp) vp zero [] lt = (_, refl, λ lo. absurd (omega arith))
climb_from-cases (k ∷ kp) vp zero (m ∷ num) lt =
    let (l, same, kept) = climb_from-cases kp vp (decrement m) num (omega arith) in
    (l, same, λ lo. absurd (omega arith))
climb_from-cases (k ∷ kp) vp (suc n) [] lt =
    let later : (suc n == 0) ≡ false = ground arith in (_, rw later refl, λ lo. refl)
climb_from-cases (k ∷ kp) vp (suc n) (m ∷ num) lt =
    let later : (suc n == 0) ≡ false = ground arith in (_, rw later refl, λ lo. refl)

pub decrement_suc : (n : ℕ) → 1 + n < 2 ^ 32 → decrement (1 + n) ≡ n
decrement_suc n lt = omega arith

-- The vector `num` does not matter, as it does not to `insertProperty`.
abbrev pub Ignores : Insert → Type 0
Ignores insert =
    (kp vp : List String) (num : List ℕ) (h : Heap) → insert kp vp num [] h ≡ insert kp vp [] [] h

module _ (insert : Insert) (ignores : Ignores insert) where
  pub Elements-calls :
      {cs : Children} (kp vp : List String) (num : List ℕ) (l : Locals) (h : Heap)
      → Elements cs
      → 1 ≤ count cs
      → count cs < 2 ^ 32
      → length num < length kp
      → l ≡ record { kp = kp; vp = vp; num = count cs ∷ num }
      → map_children insert cs [] l h ≡ insert kp (values_of cs vp) [] [] h
  unfolding map_children map_properties visit
  Elements-calls kp vp num l h end lo hi level start = absurd (omega arith)
  Elements-calls kp vp num l h (element v ev end) lo hi level start =
      let (l1, up, kept) = climb_from-cases kp [] 0 num level in
      rw (start, ev, ignores kp (v ∷ vp) (0 ∷ 0 ∷ num) h)
        (after_four (insert kp (v ∷ vp) [] [] h) _ _ _ _ (λ t h1. done tt h1) (λ t h1. rw up refl)
          ∙ bind-done (insert kp (v ∷ vp) [] [] h))
  Elements-calls kp vp num l h (element v ev (element w {cs} ew es)) lo hi level start =
      let (l1, up, kept) = climb_from-cases kp (v ∷ vp) (1 + count cs) num level in
      let less : decrement (1 + (1 + count cs)) ≡ 1 + count cs = decrement_suc _ hi in
      let more : (1 + count cs == 0) ≡ false = ground arith in
      rw (start, ev, less, more, up)
        (Elements-calls kp (v ∷ vp) num l1 h (element w ew es) (omega arith) (omega arith) level
          (kept (omega arith)))
