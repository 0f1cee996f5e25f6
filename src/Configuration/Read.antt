-- ===== src/Configuration/Read.antt =====
-- `readConfigurationFile` of src/Configuration.cpp. What Boost finds under the name is an argument.
use kcmsg.Prelude.{ℕ, [], ◌∷◌, Option, none, some}
use kcmsg.Configuration.{Heap, Outcome, done, undefined}
use kcmsg.Configuration.Map.{Properties, assign, destroy_all, Configuration}
use kcmsg.Configuration.Walk.{insert_property, Tree, Locals, map_properties}

-- Nothing, something that is not a regular file, or a regular file with the tree that `read_json`
-- makes of it, if it does not throw.
pub data File : Type 0 where
  missing : File
  irregular : File
  regular : Option Tree → File

pub data ReadResult : Type 0 where
  returns : ℕ → Configuration → Heap → ReadResult
  throws : Configuration → Heap → ReadResult
  is_undefined : ReadResult

abbrev pub enoent : ℕ
enoent = 2

-- The loop over `props`, into the properties of the object.
abbrev pub copy_all : Properties → Configuration → Configuration
copy_all [] c = c
copy_all ((k, p) ∷ props) c = copy_all props (record { properties = assign k p c.properties })

abbrev pub return_from : Outcome (Unit {0}) → ℕ → Configuration → ReadResult
return_from (done t h) code c = returns code c h
return_from undefined code c = is_undefined

-- The rest of the function after `props` has been filled, and the end of its lifetime.
abbrev pub copy_and_return : Properties → Configuration → Outcome (Unit {0}) → ReadResult
copy_and_return props c (done t h) = return_from (destroy_all props h) 0 (copy_all props c)
copy_and_return props c undefined = is_undefined

abbrev pub no_locals : Locals
no_locals = record { kp = []; vp = []; num = [] }

unfoldable pub read_configuration_file : File → Configuration → Heap → ReadResult
read_configuration_file missing c h = returns enoent c h
read_configuration_file irregular c h = copy_and_return [] c (done tt h)
read_configuration_file (regular none) c h = throws c h
read_configuration_file (regular (some pt)) c h =
    copy_and_return [] c (map_properties insert_property pt [] no_locals h)
