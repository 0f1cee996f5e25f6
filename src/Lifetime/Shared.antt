-- ===== src/Lifetime/Shared.antt =====
-- One object of src/Message.cpp or src/NetworkInterface.cpp assigned to another: both then own its
-- block.
use kcmsg.Prelude.{
  ℕ, zero, suc, ◌+◌, ◌≤◌, ◌≡◌, ◌≢◌, refl, ap, List, [], ◌∷◌, Option, none, some, arith,
}
use kcmsg.Lifetime.{
  Object, message, interface, take_out, behind, assigned, in_front, after, assign_object,
}
use kcmsg.Lifetime.Owns.{owns, owners, take_out-owners}

-- What is assigned is the object itself.
in_front-cases :
    (o p : Object) (os os' : List Object) → in_front (assigned o p) os ≡ some os' → os' ≡ o ∷ os
unfolding assigned
in_front-cases (message p) (message q) os os' e = cc
in_front-cases (interface p) (interface q) os os' e = cc
in_front-cases (message p) (interface q) os os' e = absurd (cc)
in_front-cases (interface p) (message q) os os' e = absurd (cc)

after-cases :
    (p : Object) (r : Option (List Object)) (os' : List Object)
    → after p r ≡ some os'
    → (os : List Object) × (r ≡ some os) × (os' ≡ p ∷ os)
after-cases p none os' e = absurd (cc)
after-cases p (some os) os' e = (os, refl, cc)

behind-cases :
    (p o : Object) (r : Option (Object × List Object)) (rest : List Object)
    → behind p r ≡ some (o, rest)
    → (tail : List Object) × (r ≡ some (o, tail))
behind-cases p o none rest e = absurd (cc)
behind-cases p o (some (q, tail)) rest e =
    let same : q ≡ o = cc in (tail, ap (λ x. some (x, tail)) same)

assign_object-owners :
    (a n : ℕ) (o : Object) (os os' : List Object)
    → assign_object n o os ≡ some os'
    → owns o a ≤ owners os' a
unfolding assign_object
assign_object-owners a n o [] os' e = absurd (cc)
assign_object-owners a zero o (p ∷ os) os' e = rw (in_front-cases o p os os' e) (omega arith)
assign_object-owners a (suc n) o (p ∷ os) os' e =
    let (tail, found, same) = after-cases p (assign_object n o os) os' e in
    rw same (omega (arith, assign_object-owners a n o os tail found))

-- Of two places of the list, one holds the object and the other becomes the same.
pub assign_object-shared :
    (a i j : ℕ) (o : Object) (os rest os' : List Object)
    → take_out i os ≡ some (o, rest)
    → assign_object j o os ≡ some os'
    → i ≢ j
    → owns o a + owns o a ≤ owners os' a
unfolding take_out assign_object
assign_object-shared a i j o [] rest os' found set other = absurd (cc)
assign_object-shared a zero zero o (p ∷ os) rest os' found set other = absurd (other refl)
assign_object-shared a zero (suc j) o (p ∷ os) rest os' found set other =
    let (tail, placed, same) = after-cases p (assign_object j o os) os' set in
    let first : p ≡ o = cc in
    rw (same, first) (omega (arith, assign_object-owners a j o os tail placed))
assign_object-shared a (suc i) zero o (p ∷ os) rest os' found set other =
    let (tail, later) = behind-cases p o (take_out i os) rest found in
    rw (in_front-cases o p os os' set) (omega (arith, take_out-owners a i os o tail later))
assign_object-shared a (suc i) (suc j) o (p ∷ os) rest os' found set other =
    let (later, still) = behind-cases p o (take_out i os) rest found in
    let (tail, placed, same) = after-cases p (assign_object j o os) os' set in
    rw same (
      omega
        (arith, assign_object-shared a i j o os later tail still placed (λ e. other (ap suc e))))

-- The pointer of the object that is assigned to is given up.
pub assign_object-balance :
    (a n : ℕ) (o p : Object) (os rest os' : List Object)
    → take_out n os ≡ some (p, rest)
    → assign_object n o os ≡ some os'
    → owners os' a + owns p a ≡ owners os a + owns o a
unfolding take_out assign_object
assign_object-balance a n o p [] rest os' found set = absurd (cc)
assign_object-balance a zero o p (q ∷ os) rest os' found set =
    let first : q ≡ p = cc in rw (in_front-cases o q os os' set, first) (omega arith)
assign_object-balance a (suc n) o p (q ∷ os) rest os' found set =
    let (later, still) = behind-cases q p (take_out n os) rest found in
    let (tail, placed, same) = after-cases q (assign_object n o os) os' set in
    rw same (omega (arith, assign_object-balance a n o p os later tail still placed))
