-- ===== src/Lifetime/Leak.antt =====
-- Which blocks stand at the end of a program over objects of src/Message.cpp and
-- src/NetworkInterface.cpp.
use kcmsg.Prelude.{ℕ, ◌+◌, ◌≡◌, refl, List, [], ◌∷◌, arith}
use kcmsg.Lifetime.{Blocks, Object, runs, finish_each}
use kcmsg.Lifetime.Owns.{owners, standing, Separate, destroy-Frees}

-- The blocks of the objects are freed and no others.
pub finish_each-Separate :
    (os : List Object) (b : Blocks)
    → Separate os b
    → (b' : Blocks) × (finish_each os b ≡ runs (record { objects = []; blocks = b' }))
      × ((a : ℕ) → standing (b' a) + owners os a ≡ standing (b a))
unfolding finish_each
finish_each-Separate [] b h = (b, refl, λ a. omega arith)
finish_each-Separate (o ∷ os) b h =
    let (b1, e, freed) = destroy-Frees o os b h in
    let (b2, ended, others) = finish_each-Separate os b1 (λ a. omega (arith, freed a, h a)) in
    (b2, rw e ended, λ a. omega (arith, freed a, others a))
