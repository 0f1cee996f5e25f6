-- ===== src/Connection/Samples.antt =====
-- A socket that is interrupted a number of times and then moves two bytes with each call: what
-- `read` and `write` (the calls of src/Connection.cpp) do on it.
use Prim.Native.Nat.{min}
use kcmsg.Prelude.{
  ℕ, zero, suc, ◌≤◌, ◌<◌, ◌≡◌, refl, sym, ap, List, [], ◌∷◌, ◌++◌, arith, length, take, drop,
}
use mathlib.Core.Path.{subst}
use kcmsg.Buffer.{Buffer, store}
use kcmsg.Connection.Calls.{
  Reader, ReadResult, got, failed, Writer, WriteResult, wrote, write_failed, eintr,
}

-- The interruptions to come, and the bytes to come or gone.
abbrev pub Pair : Type 0
Pair = ℕ × List ℕ

abbrev pub read_two : Pair → ℕ → ReadResult Pair
read_two (suc i, bs) n = failed eintr (i, bs)
read_two (zero, bs) n = got (take (min n 2) bs) (zero, drop (min n 2) bs)

abbrev pub got_fields : ReadResult Pair → List ℕ × Pair
got_fields (got bs w) = (bs, w)
got_fields (failed e w) = ([], w)

abbrev pub wrote_fields : WriteResult Pair → ℕ × Pair
wrote_fields (wrote n w) = (n, w)
wrote_fields (write_failed e w) = (e, w)

length-take-le : (n : ℕ) (xs : List ℕ) → length (take n xs) ≤ n
length-take-le zero xs = omega arith
length-take-le (suc n) [] = omega arith
length-take-le (suc n) (x ∷ xs) = omega (arith, length-take-le n xs)

take-append-drop : (n : ℕ) (xs : List ℕ) → xs ≡ take n xs ++ drop n xs
take-append-drop zero xs = refl
take-append-drop (suc n) [] = refl
take-append-drop (suc n) (x ∷ xs) = ap (λ ys. x ∷ ys) (take-append-drop n xs)

pub two_bounded : (w w' : Pair) (n : ℕ) (bs : List ℕ) → read_two w n ≡ got bs w' → length bs ≤ n
two_bounded (suc i, xs) w' n bs e = absurd (cc)
two_bounded (zero, xs) w' n bs e =
    omega (arith, ap length (ap (λ r. (got_fields r).0) e), length-take-le (min n 2) xs)

pub two_pending :
    (w w' : Pair) (n : ℕ) (bs : List ℕ)
    → read_two w n ≡ got bs w'
    → (w.1 ≡ bs ++ w'.1) × (w'.0 ≤ w.0)
two_pending (suc i, xs) w' n bs e = absurd (cc)
two_pending (zero, xs) w' n bs e =
    subst (λ (q : List ℕ × Pair). (xs ≡ q.0 ++ q.1.1) × (q.1.0 ≤ 0)) (ap got_fields e)
      (take-append-drop (min n 2) xs, omega arith)

length-take-pos : (n x : ℕ) (xs : List ℕ) → 0 < n → 0 < length (take n (x ∷ xs))
length-take-pos zero x xs h = absurd (omega arith)
length-take-pos (suc n) x xs h = omega arith

pub two_end : (w w' : Pair) (n : ℕ) → 0 < n → read_two w n ≡ got [] w' → w.1 ≡ []
two_end (suc i, xs) w' n pos e = absurd (cc)
two_end (zero, []) w' n pos e = refl
two_end (zero, x ∷ xs) w' n pos e = absurd (
    omega (
      arith,
      ap length (ap (λ r. (got_fields r).0) e),
      length-take-pos (min n 2) x xs (omega arith),
    ))

pub two_failed : (w w' : Pair) (n e : ℕ) → read_two w n ≡ failed e w' → w'.1 ≡ w.1
two_failed (suc i, xs) w' n e h = ap (λ r. (got_fields r).1.1) (sym h)
two_failed (zero, xs) w' n e h = absurd (cc)

pub two_interrupt : (w w' : Pair) (n : ℕ) → read_two w n ≡ failed eintr w' → w'.0 < w.0
two_interrupt (suc i, xs) w' n h = omega (arith, ap (λ r. (got_fields r).1.0) h)
two_interrupt (zero, xs) w' n h = absurd (cc)

abbrev pub reader : Reader
reader = record {
  World = Pair;
  read = read_two;
  pending = λ w. w.1;
  interrupts = λ w. w.0;
  got_bounded = two_bounded;
  got_pending = two_pending;
  got_end = two_end;
  failed_pending = two_failed;
  failed_interrupt = two_interrupt;
}

abbrev pub write_two : Pair → List ℕ → WriteResult Pair
write_two (suc i, out) bs = write_failed eintr (i, out)
write_two (zero, out) bs = wrote (min (length bs) 2) (zero, out ++ take (min (length bs) 2) bs)

pub two_wrote_bounded :
    (w w' : Pair) (bs : List ℕ) (n : ℕ) → write_two w bs ≡ wrote n w' → n ≤ length bs
two_wrote_bounded (suc i, out) w' bs n e = absurd (cc)
two_wrote_bounded (zero, out) w' bs n e = omega (arith, ap (λ r. (wrote_fields r).0) e)

pub two_wrote_sent :
    (w w' : Pair) (bs : List ℕ) (n : ℕ)
    → write_two w bs ≡ wrote n w'
    → (w'.1 ≡ w.1 ++ take n bs) × (w'.0 ≤ w.0)
two_wrote_sent (suc i, out) w' bs n e = absurd (cc)
two_wrote_sent (zero, out) w' bs n e =
    subst (λ (q : ℕ × Pair). (q.1.1 ≡ out ++ take q.0 bs) × (q.1.0 ≤ 0)) (ap wrote_fields e)
      (refl, omega arith)

pub two_write_failed :
    (w w' : Pair) (bs : List ℕ) (e : ℕ) → write_two w bs ≡ write_failed e w' → w'.1 ≡ w.1
two_write_failed (suc i, out) w' bs e h = ap (λ r. (wrote_fields r).1.1) (sym h)
two_write_failed (zero, out) w' bs e h = absurd (cc)

pub two_write_interrupt :
    (w w' : Pair) (bs : List ℕ) → write_two w bs ≡ write_failed eintr w' → w'.0 < w.0
two_write_interrupt (suc i, out) w' bs h = omega (arith, ap (λ r. (wrote_fields r).1.0) h)
two_write_interrupt (zero, out) w' bs h = absurd (cc)

abbrev pub writer : Writer
writer = record {
  World = Pair;
  write = write_two;
  sent = λ w. w.1;
  interrupts = λ w. w.0;
  wrote_bounded = two_wrote_bounded;
  wrote_sent = two_wrote_sent;
  failed_sent = two_write_failed;
  failed_interrupt = two_write_interrupt;
}

abbrev pub memory : Buffer
memory = store (λ _. 0) 0 (5 ∷ 6 ∷ 7 ∷ [])
