-- ===== src/Lifetime/Ends.antt =====
-- How programs end that construct, destroy and copy objects of src/Message.cpp and
-- src/NetworkInterface.cpp.
use kcmsg.Prelude.{
  ℕ, ◌+◌, ◌<◌, ◌≡◌, ◌≢◌, refl, sym, ap, false, List, [], ◌∷◌, Option, none, some, ◌==◌,
  if◌then◌else◌, arith, Bool-cases, inl, inr,
}
use kcmsg.Lifetime.{
  Blocks, Object, message, interface, World, Ran, runs, aborts, undefined, bind_ran, free,
  destroy_message, destroy_interface, destroy, take_out, Op, Copy, constructs, assigns,
  assign_object, copy_object, finish_each, finish, run, start,
}
use kcmsg.Lifetime.Owns.{
  owned_by, owns, owners, standing, Owned, Keeps, IsFresh, IsClean, finish_each-IsClean, run-Keeps,
}
use kcmsg.Lifetime.Shared.{assign_object-shared, assign_object-balance}
use kcmsg.Lifetime.Leak.{finish_each-Separate}

finish-IsClean :
    (malloc : Blocks → Option ℕ) (r : Ran) → Keeps malloc r → IsClean malloc (bind_ran r finish)
unfolding finish
finish-IsClean malloc (runs w) k = finish_each-IsClean malloc w.objects w.blocks k
finish-IsClean malloc aborts k = k
finish-IsClean malloc undefined k = absurd k

start-Owned : Owned (start.objects) (start.blocks)
start-Owned a = refl

kept :
    (malloc : Blocks → Option ℕ) (r : Ran) (w : World)
    → Keeps malloc r
    → r ≡ runs w
    → Owned w.objects w.blocks
kept malloc (runs v) w k e = let same : v ≡ w = cc in rw (← same) k
kept malloc aborts w k e = absurd (cc)
kept malloc undefined w k e = absurd (cc)

module _ (a : ℕ) where
  free-again :
      (c : ℕ) (os : List Object) (b : Blocks)
      → standing (b a) < owned_by (some c) a + owners os a
      → ((b1 : Blocks) → standing (b1 a) < owners os a → finish_each os b1 ≡ undefined)
      → bind_ran (free c (record { objects = os; blocks = b })) (λ w. finish_each os w.blocks)
        ≡ undefined
  unfolding free
  free-again c os b lt ih = elim (Bool-cases (b c)) [
    | inl e ↦ rw e (ih (λ i. if i == c then false else b i) (ground arith))
    | inr e ↦ rw e refl
  ]

  -- Where more objects own a block than stand there, a destructor frees it again.
  finish_each-undefined :
      (os : List Object) (b : Blocks) → standing (b a) < owners os a → finish_each os b ≡ undefined
  unfolding finish_each destroy destroy_message destroy_interface
  finish_each-undefined [] b lt = absurd (omega arith)
  finish_each-undefined (message none ∷ os) b lt = finish_each-undefined os b (omega arith)
  finish_each-undefined (interface none ∷ os) b lt = finish_each-undefined os b (omega arith)
  finish_each-undefined (message (some c) ∷ os) b lt =
      free-again c os b lt (λ b1 less. finish_each-undefined os b1 less)
  finish_each-undefined (interface (some c) ∷ os) b lt =
      free-again c os b lt (λ b1 less. finish_each-undefined os b1 less)

module _ (malloc : Blocks → Option ℕ) (fresh : IsFresh malloc) where
  ran-Owned : (ops : List Op) (w : World) → run malloc ops start ≡ runs w → Owned w.objects w.blocks
  ran-Owned ops w ran =
      kept malloc (run malloc ops start) w (run-Keeps malloc fresh ops start start-Owned) ran

  -- A program that constructs and destroys messages and network interfaces in any order, and
  -- copies none, ends with every block freed once: no free is undefined, and at the end no block
  -- is left, or an assertion has failed and `malloc` has then returned no block. `malloc` returns
  -- blocks that do not stand yet.
  pub run-IsClean : (ops : List Op) → IsClean malloc (bind_ran (run malloc ops start) finish)
  run-IsClean ops =
      finish-IsClean malloc (run malloc ops start) (run-Keeps malloc fresh ops start start-Owned)

  -- A program has constructed and destroyed messages and network interfaces in any order. Where it
  -- now copies an object that owns a block, into a new object or into another of its class, and
  -- then ends, it frees the block twice, which is undefined. `malloc` returns blocks that do not
  -- stand yet.
  pub copy_object-undefined :
      (ops : List Op) (w : World) (how : Copy) (n : ℕ) (o : Object) (rest os : List Object) (a : ℕ)
      → run malloc ops start ≡ runs w
      → take_out n w.objects ≡ some (o, rest)
      → copy_object how o w.objects ≡ some os
      → how ≢ assigns n
      → owns o a ≡ 1
      → finish (record w { objects = os }) ≡ undefined
  unfolding finish copy_object
  copy_object-undefined ops w constructs n o rest os a ran found copied other owner =
      let owned = ran-Owned ops w ran in
      let same : os ≡ o ∷ w.objects = cc in
      rw same (finish_each-undefined a (o ∷ w.objects) w.blocks (omega (arith, owned a)))
  copy_object-undefined ops w (assigns j) n o rest os a ran found copied other owner =
      let twice =
        assign_object-shared a n j o w.objects rest os found copied
          (λ e. other (ap assigns (sym e))) in
      finish_each-undefined a os w.blocks (ground arith)

  -- A program has constructed and destroyed messages and network interfaces in any order. Where it
  -- now assigns an object that owns no block to one of its class that owns the block `a`, and then
  -- ends, its destructors leave that block and free all others. `malloc` returns blocks that do
  -- not stand yet.
  pub assign_object-leaks :
      (ops : List Op) (w : World) (n : ℕ) (o p : Object) (rest os : List Object) (a : ℕ)
      → run malloc ops start ≡ runs w
      → take_out n w.objects ≡ some (p, rest)
      → assign_object n o w.objects ≡ some os
      → ((c : ℕ) → owns o c ≡ 0)
      → owns p a ≡ 1
      → (v : World) × (finish (record w { objects = os }) ≡ runs v)
        × (v.objects ≡ [])
        × ((c : ℕ) → standing (v.blocks c) ≡ owns p c)
  unfolding finish
  assign_object-leaks ops w n o p rest os a ran found set empty owner =
      let owned = ran-Owned ops w ran in
      let balance : (c : ℕ) → owners os c + owns p c ≡ owners w.objects c + owns o c =
        λ c. assign_object-balance c n o p w.objects rest os found set in
      let (b, ended, freed) =
        finish_each-Separate os w.blocks (λ c. omega (arith, owned c, balance c, empty c)) in
      (
        record { objects = []; blocks = b },
        ended,
        refl,
        λ c. omega (arith, owned c, balance c, empty c, freed c),
      )
