-- ===== src/Configuration/Keys.antt =====
-- The key that `insertProperty` (src/Configuration.cpp) makes of the keys on the way to a value.
use kcmsg.Prelude.{ℕ, ◌≡◌, refl, ◌∙◌, false, List, [], ◌∷◌, ◌++◌, All}
use mathlib.Core.List.{append_assoc}
use kcmsg.Configuration.{String}
use kcmsg.Configuration.Walk.{append_keys, is_empty}

abbrev pub IsNonempty : String → Type 0
IsNonempty k = is_empty k ≡ false

-- The keys with a dot (46) between each two.
abbrev pub dotted : List String → String
dotted [] = []
dotted (k ∷ []) = k
dotted (k ∷ l ∷ ks) = k ++ (46 ∷ dotted (l ∷ ks))

append_keys-dotted_behind :
    (c : ℕ) (key k : String) (ks : List String)
    → All IsNonempty (k ∷ ks)
    → append_keys (c ∷ key) (k ∷ ks) ≡ (c ∷ key) ++ (46 ∷ dotted (k ∷ ks))
append_keys-dotted_behind c key k [] h = append_assoc (c ∷ key) (46 ∷ []) k
append_keys-dotted_behind c key k (l ∷ ks) (hk, h) =
    append_keys-dotted_behind c ((key ++ (46 ∷ [])) ++ k) l ks h
    ∙ append_assoc (c ∷ (key ++ (46 ∷ []))) k (46 ∷ dotted (l ∷ ks))
    ∙ append_assoc (c ∷ key) (46 ∷ []) (k ++ (46 ∷ dotted (l ∷ ks)))

-- The loop over the keys, which adds a dot when there is text before it, puts one between each two
-- keys, when no key is empty: `mapProperties` pushes no empty one.
pub append_keys-dotted : (ks : List String) → All IsNonempty ks → append_keys [] ks ≡ dotted ks
append_keys-dotted [] h = refl
append_keys-dotted (k ∷ []) h = refl
append_keys-dotted ([] ∷ l ∷ ks) (hk, h) = absurd (cc)
append_keys-dotted ((c ∷ cs) ∷ l ∷ ks) (hk, h) = append_keys-dotted_behind c cs l ks h
