-- ===== src/Configuration/Reach.antt =====
-- The configurations that a program can come to by reading files (src/Configuration.cpp).
use kcmsg.Prelude.{ℕ, ◌≡◌, refl, false, [], none, some, sym}
use kcmsg.Configuration.{String, Heap, Outcome, done, undefined}
use kcmsg.Configuration.Map.{
  Configuration, construct, get_property, get_property_vector, property_exists,
}
use kcmsg.Configuration.Walk.{insert_property, map_properties}
use kcmsg.Configuration.Read.{
  File, missing, irregular, regular, returns, copy_and_return, no_locals, read_configuration_file,
}
use kcmsg.Configuration.Tidy.{Allows, Frees, Frees-refl, map_properties-Frees}

Frees-along : {h h1 h' : Heap} → h1 ≡ h' → Frees h h1 → Frees h h'
Frees-along {h} e f = rw (sym e) f

copy_and_return-Frees :
    (o : Outcome (Unit {0})) (c c' : Configuration) (h h' : Heap) (code : ℕ)
    → Allows (λ u. Frees h) o
    → copy_and_return [] c o ≡ returns code c' h'
    → (c' ≡ c) × Frees h h'
copy_and_return-Frees (done t h1) c c' h h' code f e = (cc, Frees-along (cc) f)
copy_and_return-Frees undefined c c' h h' code f e = absurd (cc)

-- When `readConfigurationFile` returns, whatever the file is, the properties are what they were:
-- none has been loaded. Every string and vector made on the way has been deleted, and all older
-- memory is as it was. Of what was made on the way only objects of class `Property` can be left.
pub read_configuration_file-Frees :
    (file : File) (c c' : Configuration) (h h' : Heap) (code : ℕ)
    → read_configuration_file file c h ≡ returns code c' h'
    → (c' ≡ c) × Frees h h'
unfolding read_configuration_file
read_configuration_file-Frees missing c c' h h' code e = (cc, Frees-along (cc) (Frees-refl h))
read_configuration_file-Frees irregular c c' h h' code e = (cc, Frees-along (cc) (Frees-refl h))
read_configuration_file-Frees (regular none) c c' h h' code e = absurd (cc)
read_configuration_file-Frees (regular (some t)) c c' h h' code e =
    copy_and_return-Frees (map_properties insert_property t [] no_locals h) c c' h h' code
      (map_properties-Frees t no_locals h) e

-- From the constructor on, with any number of files read.
pub data Reach : Configuration → Type 0 where
  constructed : Reach construct
  read :
      {c c' : Configuration} (file : File) (h h' : Heap) (code : ℕ)
      → Reach c
      → read_configuration_file file c h ≡ returns code c' h'
      → Reach c'

Reach-empty : {c : Configuration} → Reach c → c ≡ construct
Reach-empty constructed = refl
Reach-empty (read {c} {c'} file h h' code r e) =
    let (same, freed) = read_configuration_file-Frees file c c' h h' code e in
    let before = Reach-empty r in cc

-- Whatever files have been read, no key exists, and each has the empty string and the empty vector
-- for its value.
pub Reach-finds_nothing :
    {c : Configuration}
    → Reach c
    → (key : String) (h : Heap)
    → (property_exists key c ≡ false)
      × ((get_property key c h ≡ done [] h) × (get_property_vector key c h ≡ done [] h))
unfolding property_exists get_property get_property_vector
Reach-finds_nothing {c} r key h = rw (Reach-empty r) (refl, (refl, refl))
