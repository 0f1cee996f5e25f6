-- ===== src/Lifetime.antt =====
-- The heap blocks that objects of the classes `Message` and `NetworkInterface` own: the parts of
-- the constructors that allocate, the destructors, and the copies that the compiler supplies, of
-- src/Message.cpp and src/NetworkInterface.cpp. An object is what its pointer `data` or `m_Data`
-- holds, and a program a sequence of constructions, destructions and copies. `malloc` stands for
-- the C library's: the address of a block that it returns, or none.
pub mod Owns
pub mod Shared
pub mod Leak
pub mod Ends
mod Tests
use kcmsg.Prelude.{
  ℕ, zero, suc, ◌≡◌, Bool, true, false, List, [], ◌∷◌, Option, none, some, ◌==◌, if◌then◌else◌,
}

-- Whether a block stands at an address that has not been freed.
abbrev pub Blocks : Type 0
Blocks = ℕ → Bool

pub data Object : Type 0 where
  message : Option ℕ → Object
  interface : Option ℕ → Object

-- The objects that exist, the last constructed first.
pub record World : Type 0 where
  pub objects : List Object
  pub blocks : Blocks

-- A program runs on, fails an assertion, or frees a block that does not stand.
pub data Ran : Type 0 where
  runs : World → Ran
  aborts : Ran
  undefined : Ran

abbrev pub bind_ran : Ran → (World → Ran) → Ran
bind_ran (runs w) f = f w
bind_ran aborts f = aborts
bind_ran undefined f = undefined

unfoldable pub free : ℕ → World → Ran
free a w =
    if w.blocks a
    then runs (record w { blocks = λ i. if i == a then false else w.blocks i })
    else undefined

abbrev pub allocate : ℕ → Object → World → World
allocate a o w = record {
  objects = o ∷ w.objects;
  blocks = λ i. if i == a then true else w.blocks i;
}

-- `data = (char *) malloc(maxdata); assert(data);`
unfoldable pub construct_message : Option ℕ → World → Ran
construct_message none w = aborts
construct_message (some a) w = runs (allocate a (message (some a)) w)

-- `m_Data` stays null where the entry has no data, or where `malloc` returns none.
unfoldable pub construct_interface_data : Bool → Option ℕ → World → Ran
construct_interface_data true (some a) w = runs (allocate a (interface (some a)) w)
construct_interface_data true none w = runs (record w { objects = interface none ∷ w.objects })
construct_interface_data false r w = runs (record w { objects = interface none ∷ w.objects })

-- `Message::~Message`
unfoldable pub destroy_message : Option ℕ → World → Ran
destroy_message none w = runs w
destroy_message (some a) w = free a w

-- `NetworkInterface::~NetworkInterface`
unfoldable pub destroy_interface : Option ℕ → World → Ran
destroy_interface none w = runs w
destroy_interface (some a) w = free a w

unfoldable pub destroy : Object → World → Ran
destroy (message p) w = destroy_message p w
destroy (interface p) w = destroy_interface p w

abbrev pub behind : Object → Option (Object × List Object) → Option (Object × List Object)
behind o none = none
behind o (some (p, os)) = some (p, o ∷ os)

-- The object at a place of the list, and the others.
unfoldable pub take_out : ℕ → List Object → Option (Object × List Object)
take_out n [] = none
take_out zero (o ∷ os) = some (o, os)
take_out (suc n) (o ∷ os) = behind o (take_out n os)

pub data Op : Type 0 where
  make_message : Op
  make_interface : Bool → Op
  drop : ℕ → Op

-- The destructor of an object that ends.
unfoldable pub drop_object : Option (Object × List Object) → World → Ran
drop_object none w = runs w
drop_object (some (o, os)) w = destroy o (record w { objects = os })

-- One object assigned to another of its class: neither class declares the operator `=`, so the
-- pointer is overwritten and the block that it held stays where it is.
unfoldable pub assigned : Object → Object → Option Object
assigned (message p) (message q) = some (message p)
assigned (interface p) (interface q) = some (interface p)
assigned (message p) (interface q) = none
assigned (interface p) (message q) = none

abbrev pub in_front : Option Object → List Object → Option (List Object)
in_front none os = none
in_front (some o) os = some (o ∷ os)

abbrev pub after : Object → Option (List Object) → Option (List Object)
after o none = none
after o (some os) = some (o ∷ os)

-- The object is assigned to the one at a place of the list, if there is one of its class.
unfoldable pub assign_object : ℕ → Object → List Object → Option (List Object)
assign_object n o [] = none
assign_object zero o (p ∷ os) = in_front (assigned o p) os
assign_object (suc n) o (p ∷ os) = after p (assign_object n o os)

-- An object is copied into a new one, or assigned to the one at a place.
pub data Copy : Type 0 where
  constructs : Copy
  assigns : ℕ → Copy

-- The objects after a copy: neither class declares a copy constructor, so each member is copied.
unfoldable pub copy_object : Copy → Object → List Object → Option (List Object)
copy_object constructs o os = some (o ∷ os)
copy_object (assigns n) o os = assign_object n o os

-- The end of all objects, one after the other.
unfoldable pub finish_each : List Object → Blocks → Ran
finish_each [] b = runs (record { objects = []; blocks = b })
finish_each (o ∷ os) b =
    bind_ran (destroy o (record { objects = os; blocks = b })) (λ w. finish_each os w.blocks)

unfoldable pub finish : World → Ran
finish w = finish_each w.objects w.blocks

module _ (malloc : Blocks → Option ℕ) where
  unfoldable pub perform : Op → World → Ran
  perform make_message w = construct_message (malloc w.blocks) w
  perform (make_interface has_data) w = construct_interface_data has_data (malloc w.blocks) w
  perform (drop n) w = drop_object (take_out n w.objects) w

  unfoldable pub run : List Op → World → Ran
  run [] w = runs w
  run (op ∷ ops) w = bind_ran (perform op w) (λ w1. run ops w1)

-- The program before its first object.
abbrev pub start : World
start = record { objects = []; blocks = λ _. false }
