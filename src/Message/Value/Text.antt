-- ===== src/Message/Value/Text.antt =====
-- `getString` and `getWString` where the format's bytes of a string stand at the offset.
use kcmsg.Prelude.{
  ℕ, ◌+◌, ◌*◌, ◌-◌, ◌^◌, ◌<◌, ◌≡◌, refl, ◌≢◌, ap, List, [], ◌∷◌, ◌++◌, none, some, arith, All-snoc,
  ◌∙◌, length, ltb, ◌==◌, All, true, false, ne→==, lt→ltb, le→ltb,
}
use mathlib.Core.Path.{ap₂}
use kcmsg.Prelude.Bytes.{le_bytes, le_value, le_value-le_bytes, length-le_bytes, add_size, mul_size}
use kcmsg.Buffer.{Buffer, load, load_ext}
use kcmsg.Message.{Message, done, faults}
use kcmsg.Message.Put.{wide_bytes}
use kcmsg.Message.Get.{
  get_length, get_string_length, c_string, wide_chars, assign, copy_string, copy_wstring, cleared,
}
use kcmsg.Message.Read.{StartsWith, StartsWith-append, skip, skip-skip, take_bytes_lem}

abbrev pub IsNonzero : ℕ → Type 0
IsNonzero c = c ≢ 0

-- A string without zeros ends where its terminator stands.
pub c_string-append : (s : List ℕ) → All IsNonzero s → c_string (s ++ (0 ∷ [])) ≡ some s
c_string-append [] h = refl
c_string-append (c ∷ cs) (h, hs) = rw (c_string-append cs hs, ne→== c 0 h)

-- A list without a zero is no string.
pub c_string-none : (s : List ℕ) → All IsNonzero s → c_string s ≡ none
c_string-none [] h = refl
c_string-none (c ∷ cs) (h, hs) = rw (c_string-none cs hs, ne→== c 0 h)

-- The bytes of a wide string with one more character of 4 bytes.
pub wide_chars-wide_bytes :
    (s : List ℕ) (b : Buffer) (p : ℕ)
    → All (λ c. c < 2 ^ 32) s
    → wide_chars (wide_bytes s ++ load b p 4) ≡ s ++ (le_value (load b p 4) ∷ [])
unfolding load
wide_chars-wide_bytes [] b p h = refl
wide_chars-wide_bytes (c ∷ cs) b p (h, hs) =
    ap₂ ◌∷◌ (le_value-le_bytes 4 c h) (wide_chars-wide_bytes cs b p hs)

pub get_length_lem :
    {m : Message} (w l : ℕ)
    → l < 256 ^ w
    → l < 2 ^ (w * 8 - 1)
    → StartsWith m (le_bytes w l)
    → get_length w m ≡ done l (skip w m)
unfolding get_length
get_length_lem w l fits small s =
    let taken = rw length-le_bytes at (take_bytes_lem (le_bytes w l) s) in
    rw (taken, le_value-le_bytes w l fits, lt→ltb _ _ small)

module _ {m : Message} (tag_1 tag_2 l : ℕ) where
  pub get_string_length_short :
      l < 128
      → StartsWith m (tag_1 ∷ le_bytes 1 l)
      → get_string_length tag_1 tag_2 m ≡ done l (skip 2 m)
  unfolding get_string_length
  get_string_length_short small s =
      let (first, second) = StartsWith-append (tag_1 ∷ []) (le_bytes 1 l) s in
      let same : (tag_1 + 256 * 0 == tag_1) ≡ true = ground arith in
      rw
        (
          take_bytes_lem (tag_1 ∷ []) first,
          same,
          get_length_lem 1 l (omega arith) (omega arith) second,
        )
        (ap (done l) (skip-skip m 1 1 2 refl))

  pub get_string_length_long :
      tag_1 ≢ tag_2
      → l < 32768
      → StartsWith m (tag_2 ∷ le_bytes 2 l)
      → get_string_length tag_1 tag_2 m ≡ done l (skip 3 m)
  unfolding get_string_length
  get_string_length_long differ small s =
      let (first, second) = StartsWith-append (tag_2 ∷ []) (le_bytes 2 l) s in
      let same : (tag_2 + 256 * 0 == tag_2) ≡ true = ground arith in
      let other : (tag_2 + 256 * 0 == tag_1) ≡ false = ground arith in
      rw
        (
          take_bytes_lem (tag_2 ∷ []) first,
          other,
          same,
          get_length_lem 2 l (omega arith) (omega arith) second,
        )
        (ap (done l) (skip-skip m 1 2 3 refl))

pub copy_string_lem :
    {m : Message} (block : Buffer) (s : List ℕ)
    → length s < 32768
    → All IsNonzero s
    → StartsWith m s
    → copy_string (some block) (length s) m ≡ done s (skip (length s) m)
unfolding copy_string
copy_string_lem block s small nonzero h =
    let fits : ltb (add_size (length s) 1) (length s) ≡ false =
      le→ltb (add_size (length s) 1) (length s) (omega arith) in
    rw (fits, take_bytes_lem s h, c_string-append s nonzero)

pub length-wide_bytes : (s : List ℕ) → length (wide_bytes s) ≡ length s * 4
length-wide_bytes [] = refl
length-wide_bytes (c ∷ cs) = omega (arith, length-wide_bytes cs)

-- The last character of the block is zero after the `memset`, whether by it or by chance.
abbrev pub EndsInZero : ℕ → Buffer → Type 0
EndsInZero n block = load (cleared (add_size n 1) block) (mul_size n 4) 4 ≡ 0 ∷ 0 ∷ 0 ∷ 0 ∷ []

-- The characters of the block that the code takes for a string.
copy_wstring-assign :
    {m : Message} (block : Buffer) (s : List ℕ)
    → length s < 32768
    → All (λ c. c < 2 ^ 32) s
    → StartsWith m (wide_bytes s)
    → copy_wstring (some block) (length s) m
      ≡ assign
          (c_string (
            s
            ++ (le_value (load (cleared (add_size (length s) 1) block) (mul_size (length s) 4) 4)
                ∷ [])))
          (skip (length s * 4) m)
unfolding copy_wstring
copy_wstring-assign {m} block s small wide h =
    let clear_fits : ltb (mul_size (add_size (length s) 1) 4) (add_size (length s) 1) ≡ false =
      le→ltb (mul_size (add_size (length s) 1) 4) (add_size (length s) 1) (omega arith) in
    let copy_fits : ltb (mul_size (add_size (length s) 1) 4) (mul_size (length s) 4) ≡ false =
      le→ltb (mul_size (add_size (length s) 1) 4) (mul_size (length s) 4) (omega arith) in
    let size : mul_size (length s) 4 ≡ length (wide_bytes s) = omega (arith, length-wide_bytes s) in
    rw
      (
        clear_fits,
        copy_fits,
        size,
        take_bytes_lem (wide_bytes s) h,
        wide_chars-wide_bytes s (cleared (add_size (length s) 1) block) (length (wide_bytes s))
            wide,
        length-wide_bytes,
      )
      refl

pub copy_wstring_lem :
    {m : Message} (block : Buffer) (s : List ℕ)
    → length s < 32768
    → All IsNonzero s
    → All (λ c. c < 2 ^ 32) s
    → EndsInZero (length s) block
    → StartsWith m (wide_bytes s)
    → copy_wstring (some block) (length s) m ≡ done s (skip (length s * 4) m)
copy_wstring_lem block s small nonzero wide zeros h =
    copy_wstring-assign block s small wide h ∙ rw (zeros, c_string-append s nonzero) refl

-- Where `malloc` has left something in the last character of the block, the copy of a string that
-- is not empty goes on behind the block.
pub copy_wstring-faults :
    {m : Message} (block : Buffer) (s : List ℕ)
    → 0 < length s
    → length s < 32768
    → All IsNonzero s
    → All (λ c. c < 2 ^ 32) s
    → le_value (load block (length s * 4) 4) ≢ 0
    → StartsWith m (wide_bytes s)
    → copy_wstring (some block) (length s) m ≡ faults
copy_wstring-faults {m} block s pos small nonzero wide rest h =
    let size : mul_size (length s) 4 ≡ length s * 4 = omega arith in
    let kept : load (cleared (add_size (length s) 1) block) (length s * 4) 4
        ≡ load block (length s * 4) 4 =
      load_ext (cleared (add_size (length s) 1) block) block (length s * 4) 4
        (λ i lo hi. rw (le→ltb i (add_size (length s) 1) (omega arith)) refl) in
    copy_wstring-assign block s small wide h
    ∙ rw
        (
          size,
          kept,
          c_string-none (s ++ (le_value (load block (length s * 4) 4) ∷ []))
              (All-snoc IsNonzero s (le_value (load block (length s * 4) 4)) nonzero rest),
        )
        refl
