-- ===== src/Lifetime/Tests.antt =====
-- Small programs over objects of src/Message.cpp and src/NetworkInterface.cpp, and the theorems at
-- them.
use kcmsg.Prelude.{
  ℕ, ◌≡◌, refl, true, false, List, [], ◌∷◌, Option, none, some, ◌==◌, if◌then◌else◌, Bool-cases,
  inl, inr,
}
use kcmsg.Lifetime.{
  Blocks, message, interface, World, runs, undefined, bind_ran, free, construct_message,
  construct_interface_data, destroy_message, destroy, take_out, drop_object, assigned,
  assign_object, constructs, copy_object, finish, Op, make_message, make_interface, drop, perform,
  run, start,
}
use kcmsg.Lifetime.Owns.{IsFresh, IsClean, standing, owns}
use kcmsg.Lifetime.Ends.{run-IsClean, copy_object-undefined, assign_object-leaks}

-- An allocator of two blocks.
abbrev two_blocks : Blocks → Option ℕ
two_blocks b = if b 16 then if b 32 then none else some 32 else some 16

one_block-IsFresh : (b : Blocks) (a : ℕ) → (if b 32 then none else some 32) ≡ some a → b a ≡ false
one_block-IsFresh b a e = elim (Bool-cases (b 32)) [
  | inl x ↦ let no : ◌≡◌ {A = Option ℕ} none (some a) = rw x at e in absurd (cc)
  | inr x ↦
      let at_32 : ◌≡◌ {A = Option ℕ} (some 32) (some a) = rw x at e in
      let same : 32 ≡ a = cc in rw (← same) x
]

two_blocks-IsFresh : IsFresh two_blocks
two_blocks-IsFresh b a e = elim (Bool-cases (b 16)) [
  | inl x ↦ one_block-IsFresh b a (rw x at e)
  | inr x ↦
      let at_16 : ◌≡◌ {A = Option ℕ} (some 16) (some a) = rw x at e in
      let same : 16 ≡ a = cc in rw (← same) x
]

abbrev script : List Op
script = make_message ∷ make_interface true ∷ drop 1 ∷ make_message ∷ make_interface false ∷ []

run-IsClean_example : IsClean two_blocks (bind_ran (run two_blocks script start) finish)
run-IsClean_example = run-IsClean two_blocks two_blocks-IsFresh script

-- After the script the first block belongs to a message and the second to an interface.
abbrev after_script : World
after_script = record {
  objects = interface none ∷ message (some 16) ∷ interface (some 32) ∷ [];
  blocks = λ i.
      if i == 16
      then true
      else if i == 16
      then false
      else if i == 32
      then true
      else if i == 16
      then true
      else false;
}

script-runs : run two_blocks script start ≡ runs after_script
unfolding run perform construct_message construct_interface_data drop_object take_out destroy
    destroy_message free
script-runs = refl

after_script-take_out :
    take_out 1 after_script.objects
    ≡ some (message (some 16), interface none ∷ interface (some 32) ∷ [])
unfolding take_out
after_script-take_out = refl

-- The message is copied.
copied_pointer :
    copy_object constructs (message (some 16)) after_script.objects
    ≡ some (message (some 16) ∷ after_script.objects)
unfolding copy_object
copied_pointer = refl

copy_object-undefined_example :
    finish (record after_script { objects = message (some 16) ∷ after_script.objects }) ≡ undefined
copy_object-undefined_example =
    copy_object-undefined two_blocks two_blocks-IsFresh script after_script constructs 1
      (message (some 16)) (interface none ∷ interface (some 32) ∷ [])
      (message (some 16) ∷ after_script.objects) 16 script-runs after_script-take_out copied_pointer
      (λ e. absurd (cc)) refl

-- The first interface, which owns nothing, is assigned to the second.
third_taken :
    take_out 2 after_script.objects
    ≡ some (interface (some 32), interface none ∷ message (some 16) ∷ [])
unfolding take_out
third_taken = refl

third_assigned :
    assign_object 2 (interface none) after_script.objects
    ≡ some (interface none ∷ message (some 16) ∷ interface none ∷ [])
unfolding assign_object assigned
third_assigned = refl

third_leaks :
    (v : World) × (finish
        (record after_script { objects = interface none ∷ message (some 16) ∷ interface none ∷ [] })
      ≡ runs v)
    × (v.objects ≡ [])
    × ((c : ℕ) → standing (v.blocks c) ≡ owns (interface (some 32)) c)
third_leaks =
    assign_object-leaks two_blocks two_blocks-IsFresh script after_script 2 (interface none)
      (interface (some 32)) (interface none ∷ message (some 16) ∷ [])
      (interface none ∷ message (some 16) ∷ interface none ∷ []) 32 script-runs third_taken
      third_assigned (λ c. refl) refl
