-- ===== src/Configuration.antt =====
-- The memory that the values of properties stand in (src/Property.cpp, src/Configuration.cpp): the
-- strings, vectors of strings and properties that `new` makes and `delete` frees, by their address.
-- A call is a function of the memory, composed by do blocks. A string is the list of its bytes.
pub mod Property
pub mod Map
pub mod Walk
pub mod Read
pub mod Tidy
pub mod Sections
pub mod Reach
pub mod Values
pub mod Copies
pub mod Flat
pub mod Keys
pub mod Inserted
pub mod Entries
pub mod Dump
mod Tests
use kcmsg.Prelude.{ℕ, ◌+◌, List, Option, none, some, ◌==◌, if◌then◌else◌}

abbrev pub String : Type 0
String = List ℕ

-- An object of class `std::string`, one of `std::vector<std::string>`, one of `Property`, by its type
-- and its pointer, or none (any more).
pub data Cell : Type 0 where
  freed : Cell
  text : String → Cell
  texts : List String → Cell
  property_object : ℕ → Option ℕ → Cell

-- The addresses from `used` on have not been given out.
pub record Heap : Type 0 where
  pub used : ℕ
  pub cell : ℕ → Cell

abbrev pub put_cell : ℕ → Cell → Heap → Heap
put_cell a c h = record h { cell = λ i. if i == a then c else h.cell i }

-- How a call ends: it returns, or does what C++ leaves undefined.
pub data Outcome {ℓ} (A : Type ℓ) : Type ℓ where
  done : A → Heap → Outcome A
  undefined : Outcome A

abbrev pub Run {ℓ} : Type ℓ → Type ℓ
Run A = Heap → Outcome A

abbrev pub pure {ℓ} : {A : Type ℓ} → A → Run A
pure a h = done a h

abbrev pub bind_outcome {ℓ κ} : {A : Type ℓ} {B : Type κ} → Outcome A → (A → Run B) → Outcome B
bind_outcome (done a h) f = f a h
bind_outcome undefined f = undefined

infixl 5 ◌>>=◌ ◌>>◌
abbrev pub ◌>>=◌ {ℓ κ} : {A : Type ℓ} {B : Type κ} → Run A → (A → Run B) → Run B
◌>>=◌ c f h = bind_outcome (c h) f

abbrev pub ◌>>◌ {ℓ} : {B : Type ℓ} → Run (Unit {0}) → Run B → Run B
c >> k = c >>= λ _. k

-- A step that touches no memory; `none` is undefined behaviour.
abbrev pub local {ℓ} : {A : Type ℓ} → Option A → Run A
local none h = undefined
local (some a) h = done a h

-- `new`, with the address.
abbrev pub new : Cell → Run ℕ
new c h = done h.used (record (put_cell h.used c h) { used = h.used + 1 })

abbrev pub free : ℕ → Run (Unit {0})
free a h = done tt (put_cell a freed h)
