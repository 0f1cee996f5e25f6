-- ===== src/Buffer.antt =====
-- A block of memory as a function from addresses to bytes, with the copies that `memcpy` makes
-- out of it and into it. The size of a block is checked by the code that uses it.
use kcmsg.Prelude.{
  ℕ, zero, suc, ◌+◌, ◌≤◌, ◌<◌, ◌≡◌, refl, ◌∙◌, ◌⊎◌, inl, inr, List, [], ◌∷◌, ◌++◌, arith, ap, ◌==◌,
  if◌then◌else◌, length, length-append, append-injective, sym,
}
use mathlib.Core.Path.{ap₂}

abbrev pub Buffer : Type 0
Buffer = ℕ → ℕ

-- The `n` bytes from `p` on.
unfoldable pub load : Buffer → ℕ → ℕ → List ℕ
load b p zero = []
load b p (suc n) = b p ∷ load b (p + 1) n

abbrev pub write : Buffer → ℕ → ℕ → Buffer
write b p x i = if i == p then x else b i

-- The block after the bytes `xs` have been copied to `p`.
unfoldable pub store : Buffer → ℕ → List ℕ → Buffer
store b p [] = b
store b p (x ∷ xs) = write (store b (p + 1) xs) p x

pub length-load : (b : Buffer) (p n : ℕ) → length (load b p n) ≡ n
unfolding load
length-load b p zero = refl
length-load b p (suc n) = ap suc (length-load b (p + 1) n)

-- A copy changes nothing outside its range.
pub store_outside :
    (b : Buffer) (p : ℕ) (xs : List ℕ) (i : ℕ)
    → (i < p) ⊎ (p + length xs ≤ i)
    → store b p xs i ≡ b i
unfolding store
store_outside b p [] i h = refl
store_outside b p (x ∷ xs) i h = ground (arith, store_outside b (p + 1) xs i)

pub load_ext :
    (b c : Buffer) (p n : ℕ) → ((i : ℕ) → p ≤ i → i < p + n → b i ≡ c i) → load b p n ≡ load c p n
unfolding load
load_ext b c p zero h = refl
load_ext b c p (suc n) h =
    ap₂ ◌∷◌ (h p (omega arith) (omega arith))
      (load_ext b c (p + 1) n (λ i lo hi. h i (omega arith) (omega arith)))

-- What a copy has written is read back.
pub load-store : (b : Buffer) (p : ℕ) (xs : List ℕ) → load (store b p xs) p (length xs) ≡ xs
unfolding load store
load-store b p [] = refl
load-store b p (x ∷ xs) = ap₂ ◌∷◌ (ground arith) (
    load_ext (store b p (x ∷ xs)) (store b (p + 1) xs) (p + 1) (length xs) (λ i lo hi. ground arith)
    ∙ load-store b (p + 1) xs)

-- A copy to another place leaves a range as it is.
pub load-store_disjoint :
    (b : Buffer) (q : ℕ) (xs : List ℕ) (p n : ℕ)
    → (p + n ≤ q) ⊎ (q + length xs ≤ p)
    → load (store b q xs) p n ≡ load b p n
load-store_disjoint b q xs p n h =
    load_ext (store b q xs) b p n (λ i lo hi. store_outside b q xs i (omega arith))

pub load-add : (b : Buffer) (p n m : ℕ) → load b p (n + m) ≡ load b p n ++ load b (p + n) m
unfolding load
load-add b p zero m =
    let left : 0 + m ≡ m = omega arith in let right : p + 0 ≡ p = omega arith in rw (left, right)
load-add b p (suc n) m =
    let left : suc n + m ≡ suc (n + m) = omega arith in
    let right : p + suc n ≡ p + 1 + n = omega arith in rw (left, right, load-add b (p + 1) n m)

-- A part of what a copy has written is read back.
pub load-store_part :
    (b : Buffer) (p : ℕ) (xs ys zs : List ℕ)
    → load (store b p (xs ++ (ys ++ zs))) (p + length xs) (length ys) ≡ ys
load-store_part b p xs ys zs =
    let written = store b p (xs ++ (ys ++ zs)) in
    let all : load written p (length xs + (length ys + length zs)) ≡ xs ++ (ys ++ zs) =
      rw (← length-append, ← length-append) (load-store b p (xs ++ (ys ++ zs))) in
    let (_, rest) =
      append-injective (load written p (length xs))
        (load written (p + length xs) (length ys + length zs)) xs (ys ++ zs)
        (length-load written p (length xs))
        (sym (load-add written p (length xs) (length ys + length zs)) ∙ all) in
    let (part, _) =
      append-injective (load written (p + length xs) (length ys))
        (load written (p + length xs + length ys) (length zs)) ys zs
        (length-load written (p + length xs) (length ys))
        (sym (load-add written (p + length xs) (length ys) (length zs)) ∙ rest) in
    part

cons-injective :
    (x y : ℕ) (xs ys : List ℕ) → ◌≡◌ {A = List ℕ} (x ∷ xs) (y ∷ ys) → (x ≡ y) × (xs ≡ ys)
cons-injective x y xs ys e = (cc, cc)

eq_or_lt : (p i : ℕ) → p ≤ i → (p ≡ i) ⊎ (p < i)
eq_or_lt p i lo = ground arith

-- Blocks with the same bytes in a range agree at each address of it.
pub load-injective :
    (b c : Buffer) (p n i : ℕ) → load b p n ≡ load c p n → p ≤ i → i < p + n → b i ≡ c i
unfolding load
load-injective b c p zero i e lo hi = absurd (omega arith)
load-injective b c p (suc n) i e lo hi =
    let (first, rest) = cons-injective (b p) (c p) (load b (p + 1) n) (load c (p + 1) n) e in
    elim (eq_or_lt p i lo) [
      | inl same ↦ rw (← same) first
      | inr above ↦ load-injective b c (p + 1) n i rest (omega arith) (omega arith)
    ]

-- So they do in each part of the range.
pub load-part :
    (b c : Buffer) (p n q k : ℕ)
    → load b p n ≡ load c p n
    → p ≤ q
    → q + k ≤ p + n
    → load b q k ≡ load c q k
load-part b c p n q k e lo hi =
    load_ext b c q k (λ i le lt. load-injective b c p n i e (omega arith) (omega arith))
