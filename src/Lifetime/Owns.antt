-- ===== src/Lifetime/Owns.antt =====
-- Each block that stands has one object that owns it, as long as no object of src/Message.cpp or
-- src/NetworkInterface.cpp is copied.
use kcmsg.Prelude.{
  ℕ, zero, suc, ◌+◌, ◌≤◌, ◌≡◌, refl, ◌∙◌, ap, sym, Bool, true, false, List, [], ◌∷◌, Option, none,
  some, ◌==◌, if◌then◌else◌, arith, Bool-cases, inl, inr,
}
use kcmsg.Lifetime.{
  Blocks, Object, message, interface, World, Ran, runs, aborts, undefined, bind_ran, free,
  construct_message, construct_interface_data, destroy_message, destroy_interface, destroy,
  take_out, behind, Op, make_message, make_interface, drop, drop_object, finish_each, perform, run,
}

abbrev pub owned_by : Option ℕ → ℕ → ℕ
owned_by none a = 0
owned_by (some b) a = if a == b then 1 else 0

-- How often the object owns the block.
abbrev pub owns : Object → ℕ → ℕ
owns (message p) a = owned_by p a
owns (interface p) a = owned_by p a

abbrev pub owners : List Object → ℕ → ℕ
owners [] a = 0
owners (o ∷ os) a = owns o a + owners os a

abbrev pub standing : Bool → ℕ
standing b = if b then 1 else 0

abbrev pub Owned : List Object → Blocks → Type 0
Owned os b = (a : ℕ) → owners os a ≡ standing (b a)

-- What the state after a step is held to: the step is never undefined, and where it fails an
-- assertion, `malloc` returned no block.
abbrev pub Keeps : (Blocks → Option ℕ) → Ran → Type 0
Keeps malloc (runs w) = Owned w.objects w.blocks
Keeps malloc aborts = (b : Blocks) × (malloc b ≡ none)
Keeps malloc undefined = ⊥

-- `malloc` returns a block that does not stand yet.
abbrev pub IsFresh : (Blocks → Option ℕ) → Type 0
IsFresh malloc = (b : Blocks) (a : ℕ) → malloc b ≡ some a → b a ≡ false

-- The blocks that the objects own all stand, and no two objects share one.
abbrev pub Separate : List Object → Blocks → Type 0
Separate os b = (a : ℕ) → owners os a ≤ standing (b a)

-- From `b` to `b'`, the blocks of an object have been freed and no others.
abbrev pub Frees : Object → Blocks → Blocks → Type 0
Frees o b b' = (a : ℕ) → standing (b' a) + owns o a ≡ standing (b a)

free-Frees :
    (c : ℕ) (os : List Object) (b : Blocks)
    → ((a : ℕ) → owned_by (some c) a + owners os a ≤ standing (b a))
    → (b' : Blocks) × (free c (record { objects = os; blocks = b })
        ≡ runs (record { objects = os; blocks = b' }))
      × ((a : ℕ) → standing (b' a) + owned_by (some c) a ≡ standing (b a))
unfolding free
free-Frees c os b h = elim (Bool-cases (b c)) [
  | inl e ↦ (λ i. if i == c then false else b i, rw e refl, λ i. ground (arith, h i, h c))
  | inr e ↦ absurd (ground (arith, h c))
]

pub destroy-Frees :
    (o : Object) (os : List Object) (b : Blocks)
    → Separate (o ∷ os) b
    → (b' : Blocks) × (destroy o (record { objects = os; blocks = b })
        ≡ runs (record { objects = os; blocks = b' }))
      × Frees o b b'
unfolding destroy destroy_message destroy_interface
destroy-Frees (message none) os b h = (b, refl, λ i. omega arith)
destroy-Frees (message (some c)) os b h = free-Frees c os b h
destroy-Frees (interface none) os b h = (b, refl, λ i. omega arith)
destroy-Frees (interface (some c)) os b h = free-Frees c os b h

destroy-Owned :
    (o : Object) (os : List Object) (b : Blocks)
    → Owned (o ∷ os) b
    → (b1 : Blocks) × (destroy o (record { objects = os; blocks = b })
        ≡ runs (record { objects = os; blocks = b1 }))
      × Owned os b1
destroy-Owned o os b h =
    let (b1, e, freed) = destroy-Frees o os b (λ a. omega (arith, h a)) in
    (b1, e, λ a. omega (arith, freed a, h a))

destroy-Keeps :
    (malloc : Blocks → Option ℕ) (o : Object) (os : List Object) (b : Blocks)
    → Owned (o ∷ os) b
    → Keeps malloc (destroy o (record { objects = os; blocks = b }))
destroy-Keeps malloc o os b h = let (b1, e, k) = destroy-Owned o os b h in rw e k

first_same : {o p q : Object} {rs qs : List Object} → behind o (some (q, rs)) ≡ some (p, qs) → q ≡ p
first_same e = cc

behind-owners :
    (a : ℕ) (o p : Object) (rest : Option (Object × List Object)) (qs os : List Object)
    → behind o rest ≡ some (p, qs)
    → ((rs : List Object) → rest ≡ some (p, rs) → owners (p ∷ rs) a ≡ owners os a)
    → owners (p ∷ qs) a ≡ owners (o ∷ os) a
behind-owners a o p none qs os e k = absurd (cc)
behind-owners a o p (some (q, rs)) qs os e k =
    let same : ◌≡◌ {A = Option (Object × List Object)} (some (q, rs)) (some (p, rs)) =
      ap (λ x. some (x, rs)) (first_same e) in
    let tail : o ∷ rs ≡ qs = cc in rw (← tail) (omega (arith, k rs same))

pub take_out-owners :
    (a n : ℕ) (os : List Object) (o : Object) (rest : List Object)
    → take_out n os ≡ some (o, rest)
    → owners (o ∷ rest) a ≡ owners os a
unfolding take_out
take_out-owners a n [] o rest e = absurd (cc)
take_out-owners a zero (p ∷ os) o rest e =
    let same : p ∷ os ≡ o ∷ rest = cc in ap (λ l. owners l a) (sym same)
take_out-owners a (suc n) (p ∷ os) o rest e =
    behind-owners a p o (take_out n os) rest os e (λ rs x. take_out-owners a n os o rs x)

drop_object-Keeps :
    (malloc : Blocks → Option ℕ) (taken : Option (Object × List Object)) (w : World)
    → Owned w.objects w.blocks
    → ((o : Object) (rest : List Object) (a : ℕ)
        → taken ≡ some (o, rest)
        → owners (o ∷ rest) a ≡ owners w.objects a)
    → Keeps malloc (drop_object taken w)
unfolding drop_object
drop_object-Keeps malloc none w h k = h
drop_object-Keeps malloc (some (o, rest)) w h k =
    destroy-Keeps malloc o rest w.blocks (λ a. k o rest a refl ∙ h a)

allocate-Owned :
    (a : ℕ) (os : List Object) (b : Blocks)
    → b a ≡ false
    → Owned os b
    → (i : ℕ) → owned_by (some a) i + owners os i ≡ standing (if i == a then true else b i)
allocate-Owned a os b e h i = ground (arith, h i, h a)

message-Keeps :
    (malloc : Blocks → Option ℕ) (r : Option ℕ) (w : World)
    → ((a : ℕ) → r ≡ some a → w.blocks a ≡ false)
    → malloc w.blocks ≡ r
    → Owned w.objects w.blocks
    → Keeps malloc (construct_message r w)
unfolding construct_message
message-Keeps malloc none w f e h = (w.blocks, e)
message-Keeps malloc (some a) w f e h = allocate-Owned a w.objects w.blocks (f a refl) h

interface-Keeps :
    (malloc : Blocks → Option ℕ) (has_data : Bool) (r : Option ℕ) (w : World)
    → ((a : ℕ) → r ≡ some a → w.blocks a ≡ false)
    → Owned w.objects w.blocks
    → Keeps malloc (construct_interface_data has_data r w)
unfolding construct_interface_data
interface-Keeps malloc true (some a) w f h = allocate-Owned a w.objects w.blocks (f a refl) h
interface-Keeps malloc true none w f h = λ i. omega (arith, h i)
interface-Keeps malloc false r w f h = λ i. omega (arith, h i)

Keeps-bind :
    (malloc : Blocks → Option ℕ) (r : Ran) (f : World → Ran)
    → Keeps malloc r
    → ((w : World) → Owned w.objects w.blocks → Keeps malloc (f w))
    → Keeps malloc (bind_ran r f)
Keeps-bind malloc (runs w) f k g = g w k
Keeps-bind malloc aborts f k g = k
Keeps-bind malloc undefined f k g = k

-- No object is left and no block stands, or an assertion fails as `malloc` returned no block.
abbrev pub IsClean : (Blocks → Option ℕ) → Ran → Type 0
IsClean malloc (runs w) = (w.objects ≡ []) × ((a : ℕ) → w.blocks a ≡ false)
IsClean malloc aborts = (b : Blocks) × (malloc b ≡ none)
IsClean malloc undefined = ⊥

none_standing : (b : Bool) → 0 ≡ standing b → b ≡ false
none_standing true e = absurd (omega arith)
none_standing false e = refl

pub finish_each-IsClean :
    (malloc : Blocks → Option ℕ) (os : List Object) (b : Blocks)
    → Owned os b
    → IsClean malloc (finish_each os b)
unfolding finish_each
finish_each-IsClean malloc [] b h = (refl, λ a. none_standing (b a) (h a))
finish_each-IsClean malloc (o ∷ os) b h =
    let (b1, e, k) = destroy-Owned o os b h in rw e (finish_each-IsClean malloc os b1 k)

module _ (malloc : Blocks → Option ℕ) (fresh : IsFresh malloc) where
  perform-Keeps :
      (op : Op) (w : World) → Owned w.objects w.blocks → Keeps malloc (perform malloc op w)
  unfolding perform
  perform-Keeps make_message w h = message-Keeps malloc (malloc w.blocks) w (fresh w.blocks) refl h
  perform-Keeps (make_interface d) w h =
      interface-Keeps malloc d (malloc w.blocks) w (fresh w.blocks) h
  perform-Keeps (drop n) w h =
      drop_object-Keeps malloc (take_out n w.objects) w h
        (λ o rest a e. take_out-owners a n w.objects o rest e)

  pub run-Keeps :
      (ops : List Op) (w : World) → Owned w.objects w.blocks → Keeps malloc (run malloc ops w)
  unfolding run
  run-Keeps [] w h = h
  run-Keeps (op ∷ ops) w h =
      Keeps-bind malloc (perform malloc op w) (λ w1. run malloc ops w1) (perform-Keeps op w h)
        (λ w1 h1. run-Keeps ops w1 h1)
