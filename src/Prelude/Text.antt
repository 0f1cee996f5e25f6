-- ===== src/Prelude/Text.antt =====
-- Texts as lists of character codes: the literals of the code, and numbers in a base as
-- `std::to_string` and the output streams write them.
use Prim.Native.Nat.{ℕ, zero, suc, ◌+◌, ◌-◌, ◌*◌, ◌/◌, ◌%◌, ◌^◌, ◌<◌, ◌≤◌}
use Prim.Native.Char.{code}
use Prim.Native.String.{String}
use mathlib.Core.Path.{◌≡◌, refl, sym, ap, ◌∙◌, subst}
use mathlib.Core.Bool.{true, false}
use mathlib.Core.Logic.{◌≢◌, inl, inr}
use mathlib.Core.List.{List, [], ◌∷◌}
use native.Mathlib.Omega.{arith}
use kcmsg.Prelude.Tests.{ltb, ◌==◌, if◌then◌else◌, lt_or_le, lt→ltb, le→ltb, ne→==}

abbrev pub Text : Type 0
Text = List ℕ

-- A literal of the source.
abbrev pub lit : String → Text
lit String.[] = []
lit (String.◌∷◌ c s) = code c ∷ lit s

abbrev pub digit : ℕ → ℕ
digit d = if ltb d 10 then b'0' + d else b'a' - 10 + d

-- The digits of `n` in front of `out`, at most `rounds` of them.
unfoldable pub numeral_onto : ℕ → ℕ → ℕ → Text → Text
numeral_onto base zero n out = out
numeral_onto base (suc rounds) n out = elim (ltb n base) [
  | true ↦ digit n ∷ out
  | false ↦ numeral_onto base rounds (n / base) (digit (n % base) ∷ out)
]

-- 64 digits are enough for every number of 64 bits in every base.
abbrev pub decimal : ℕ → Text → Text
decimal = numeral_onto 10 64

abbrev pub hexadecimal : ℕ → Text → Text
hexadecimal = numeral_onto 16 64

-- A signed number of `w` bits by its pattern, in decimal.
abbrev pub signed_decimal : ℕ → ℕ → Text → Text
signed_decimal w n out =
    if ltb n (2 ^ (w - 1)) then decimal n out else b'-' ∷ decimal (2 ^ w - n) out

-- Reading back: the decimal number that stands at the front of a text, behind the digits `n`.
abbrev pub number_in : ℕ → Text → ℕ
number_in n [] = n
number_in n (c ∷ s) =
    let rest = number_in (n * 10 + (c - b'0')) s in
    if ltb c b'0' then n else if ltb b'9' c then n else rest

-- With its sign, as a pattern of `w` bits.
abbrev pub signed_number_in : ℕ → Text → ℕ
signed_number_in w [] = 0
signed_number_in w (c ∷ s) = if c == b'-' then 2 ^ w - number_in 0 s else number_in 0 (c ∷ s)

number_in-digit :
    (n d : ℕ) (s : Text) → d < 10 → number_in n (digit d ∷ s) ≡ number_in (n * 10 + d) s
number_in-digit n d s h =
    let same : b'0' + d - b'0' ≡ d = omega arith in
    rw
      (
        lt→ltb d 10 h,
        le→ltb (b'0' + d) b'0' (omega arith),
        le→ltb b'9' (b'0' + d) (omega arith),
        same,
      )
      refl

numeral_onto-last :
    (base rounds n : ℕ) (out : Text)
    → n < base
    → numeral_onto base (suc rounds) n out ≡ digit n ∷ out
unfolding numeral_onto
numeral_onto-last base rounds n out h = rw (numeral_onto, lt→ltb n base h) refl

numeral_onto-more :
    (base rounds n : ℕ) (out : Text)
    → base ≤ n
    → numeral_onto base (suc rounds) n out
      ≡ numeral_onto base rounds (n / base) (digit (n % base) ∷ out)
unfolding numeral_onto
numeral_onto-more base rounds n out h = rw (numeral_onto, le→ltb n base h) refl

number_in-numeral_onto :
    (rounds n : ℕ) (out : Text)
    → n < 10 ^ rounds
    → number_in 0 (numeral_onto 10 rounds n out) ≡ number_in n out
unfolding numeral_onto
number_in-numeral_onto zero n out h = let none_left : n ≡ 0 = omega arith in rw none_left refl
number_in-numeral_onto (suc rounds) n out h = elim (lt_or_le n 10) [
  | inl last ↦
      ap (number_in 0) (numeral_onto-last 10 rounds n out last)
      ∙ number_in-digit 0 n out last
      ∙ ap (λ k. number_in k out) (let joined : 0 * 10 + n ≡ n = omega arith in joined)
  | inr more ↦
      let joined : n / 10 * 10 + n % 10 ≡ n = omega arith in
      ap (number_in 0) (numeral_onto-more 10 rounds n out more)
      ∙ number_in-numeral_onto rounds (n / 10) (digit (n % 10) ∷ out) (omega arith)
      ∙ number_in-digit (n / 10) (n % 10) out (omega arith)
      ∙ ap (λ k. number_in k out) joined
]

-- A text that does not begin with a minus sign.
abbrev pub IsUnsigned : Text → Type 0
IsUnsigned [] = Unit
IsUnsigned (c ∷ s) = c ≢ b'-'

digit_unsigned : (d : ℕ) → d < 10 → digit d ≢ b'-'
digit_unsigned d h = ground arith

numeral_onto-IsUnsigned :
    (rounds n : ℕ) (out : Text) → IsUnsigned out → IsUnsigned (numeral_onto 10 rounds n out)
unfolding numeral_onto
numeral_onto-IsUnsigned zero n out u = u
numeral_onto-IsUnsigned (suc rounds) n out u = elim (lt_or_le n 10) [
  | inl last ↦
      subst IsUnsigned (sym (numeral_onto-last 10 rounds n out last)) (digit_unsigned n last)
  | inr more ↦ subst IsUnsigned (sym (numeral_onto-more 10 rounds n out more)) (
      numeral_onto-IsUnsigned rounds (n / 10) (digit (n % 10) ∷ out)
        (digit_unsigned (n % 10) (omega arith)))
]

signed_number_in-IsUnsigned :
    (w : ℕ) (s : Text) → IsUnsigned s → signed_number_in w s ≡ number_in 0 s
signed_number_in-IsUnsigned w [] u = refl
signed_number_in-IsUnsigned w (c ∷ s) u = rw (ne→== c b'-' u) refl

-- A signed number is read back from its decimal, when what follows it is no digit and no sign.
pub signed_number_in-signed_decimal :
    (w n : ℕ) (out : Text)
    → 2 ^ w < 10 ^ 64
    → n < 2 ^ w
    → ((k : ℕ) → number_in k out ≡ k)
    → IsUnsigned out
    → signed_number_in w (signed_decimal w n out) ≡ n
signed_number_in-signed_decimal w n out hi h stop u = elim (lt_or_le n (2 ^ (w - 1))) [
  | inl positive ↦
      let below : ltb n (2 ^ (w - 1)) ≡ true = lt→ltb n (2 ^ (w - 1)) positive in
      rw below (
        signed_number_in-IsUnsigned w (decimal n out) (numeral_onto-IsUnsigned 64 n out u)
        ∙ number_in-numeral_onto 64 n out (omega arith)
        ∙ stop n)
  | inr negative ↦
      let above : ltb n (2 ^ (w - 1)) ≡ false = le→ltb n (2 ^ (w - 1)) negative in
      let back : 2 ^ w - (2 ^ w - n) ≡ n = omega arith in
      let magnitude = number_in-numeral_onto 64 (2 ^ w - n) out (omega arith) ∙ stop (2 ^ w - n) in
      rw above (ap (λ k. 2 ^ w - k) magnitude ∙ back)
]
