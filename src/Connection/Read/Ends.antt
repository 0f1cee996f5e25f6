-- ===== src/Connection/Read/Ends.antt =====
-- What the calls of `Readn` (src/Connection.cpp) add up to, against the stream of bytes that the
-- peer sends.
use kcmsg.Prelude.{
  ℕ, ◌+◌, ◌-◌, ◌≤◌, ◌<◌, ◌≡◌, refl, sym, ◌∙◌, ap, ◌≢◌, ◌⊎◌, inl, inr, List, [], ◌∷◌, ◌++◌, arith,
  length, ◌==◌, false,
}
use mathlib.Core.List.{append_assoc}
use kcmsg.Buffer.{Buffer, load, store, load-add, load-store, load_ext, store_outside}
use kcmsg.Connection.Calls.{Reader, ReadResult, got, failed, eintr, minus_one}
use kcmsg.Connection.Read.{IoOutcome, returned}

pub ReadResult-cases :
    {W : Type 0} (r : ReadResult W)
    → ((e : ℕ) × (w : W) × (r ≡ failed e w))
      ⊎ ((w : W) × (r ≡ got [] w))
      ⊎ ((b : ℕ) × (bs : List ℕ) × (w : W) × (r ≡ got (b ∷ bs) w))
ReadResult-cases (failed e w) = inl (e, w, refl)
ReadResult-cases (got [] w) = inr (inl (w, refl))
ReadResult-cases (got (b ∷ bs) w) = inr (inr (b, bs, w, refl))

module _ (r : Reader) where
  open r use {
    World, read, pending, interrupts, got_bounded, got_pending, got_end, failed_pending,
    failed_interrupt,
  }

  -- From `w` to `w'`, `c` bytes of at most `n` have come in at `ptr`: the first of what was
  -- pending, and all of it if there were fewer than `n`. All other memory is as before.
  pub record Received (w : World) (msg : Buffer) (ptr n c : ℕ) (msg' : Buffer) (w' : World)
      : Type 0 where
    pub bounded : c ≤ n
    pub content : pending w ≡ load msg' ptr c ++ pending w'
    pub complete : c < n → pending w' ≡ []
    pub untouched : (i : ℕ) → (i < ptr) ⊎ (ptr + c ≤ i) → msg' i ≡ msg i
    pub fewer : interrupts w' ≤ interrupts w

  -- A call has failed, and not because of a signal.
  pub record GaveUp (o : IoOutcome World) : Type 0 where
    pub before : World
    pub after : World
    pub asked : ℕ
    pub errno : ℕ
    pub memory : Buffer
    pub call : read before asked ≡ failed errno after
    pub no_signal : errno ≢ eintr
    pub result : o ≡ returned minus_one memory after

  pub gives_up :
      {w w' : World} {n err : ℕ} (msg : Buffer)
      → read w n ≡ failed err w'
      → (err == eintr) ≡ false
      → GaveUp (returned minus_one msg w')
  gives_up {w} {w'} {n} {err} msg call other = record {
    before = w;
    after = w';
    asked = n;
    errno = err;
    memory = msg;
    call = call;
    no_signal = λ same. ground arith;
    result = refl;
  }

  -- After `c` bytes have come in, the result is `f c`.
  abbrev pub ReadsBy : (ℕ → ℕ) → World → Buffer → ℕ → ℕ → IoOutcome World → Type 0
  ReadsBy f w msg ptr nleft o =
      ((c : ℕ) × (msg' : Buffer) × (w' : World) × (o ≡ returned (f c) msg' w')
        × Received w msg ptr nleft c msg' w')
      ⊎ GaveUp o

  abbrev pub Ends : World → Buffer → ℕ → ℕ → IoOutcome World → Type 0
  Ends w msg ptr nleft o = ReadsBy (λ c. ptr + c) w msg ptr nleft o

  -- The bytes of one call, and those of the calls after it.
  Received-step :
      {w w₁ w₂ : World} {msg msg' : Buffer} {ptr n c : ℕ} (xs : List ℕ)
      → pending w ≡ xs ++ pending w₁
      → length xs ≤ n
      → interrupts w₁ ≤ interrupts w
      → Received w₁ (store msg ptr xs) (ptr + length xs) (n - length xs) c msg' w₂
      → Received w msg ptr n (length xs + c) msg' w₂
  Received-step {w} {w₁} {w₂} {msg} {msg'} {ptr} {n} {c} xs e hi less s = record {
    bounded = omega (arith, s.bounded);
    content =
        e
        ∙ ap (λ ys. xs ++ ys) s.content
        ∙ sym (append_assoc xs (load msg' (ptr + length xs) c) (pending w₂))
        ∙ ap (λ ys. (ys ++ load msg' (ptr + length xs) c) ++ pending w₂) (sym kept)
        ∙ ap (λ ys. ys ++ pending w₂) (sym (load-add msg' ptr (length xs) c));
    complete = λ h. s.complete (omega arith);
    untouched = λ i h. s.untouched i (omega arith) ∙ store_outside msg ptr xs i (omega arith);
    fewer = omega (arith, less, s.fewer);
  }
    where
      kept : load msg' ptr (length xs) ≡ xs
      kept =
          load_ext msg' (store msg ptr xs) ptr (length xs) (λ i lo hi. s.untouched i (inl hi))
          ∙ load-store msg ptr xs

  pub ReadsBy-signal :
      (f : ℕ → ℕ) {w w₁ : World} {msg : Buffer} {ptr n : ℕ} (o : IoOutcome World)
      → pending w₁ ≡ pending w
      → interrupts w₁ ≤ interrupts w
      → ReadsBy f w₁ msg ptr n o
      → ReadsBy f w msg ptr n o
  ReadsBy-signal f o same less (inl (c, msg', w', e, s)) = inl (
    c,
    msg',
    w',
    e,
    record {
      bounded = s.bounded;
      content = sym same ∙ s.content;
      complete = s.complete;
      untouched = s.untouched;
      fewer = omega (arith, less, s.fewer);
    },
  )
  ReadsBy-signal f o same less (inr g) = inr g

  pub ReadsBy-step :
      (f g : ℕ → ℕ) {w w₁ : World} {msg : Buffer} {ptr n : ℕ} (o : IoOutcome World) (xs : List ℕ)
      → ((c : ℕ) → g c ≡ f (length xs + c))
      → pending w ≡ xs ++ pending w₁
      → length xs ≤ n
      → interrupts w₁ ≤ interrupts w
      → ReadsBy g w₁ (store msg ptr xs) (ptr + length xs) (n - length xs) o
      → ReadsBy f w msg ptr n o
  ReadsBy-step f g o xs same e hi less (inl (c, msg', w', end, s)) = inl (
    length xs + c,
    msg',
    w',
    end ∙ ap (λ (v : ℕ). returned v msg' w') (same c),
    Received-step xs e hi less s,
  )
  ReadsBy-step f g o xs same e hi less (inr gave_up) = inr gave_up

  -- Nothing more has come in.
  pub ReadsBy-end :
      (f : ℕ → ℕ) (v : ℕ) (w w' : World) (msg : Buffer) (ptr n : ℕ)
      → v ≡ f 0
      → pending w ≡ pending w'
      → (0 < n → pending w' ≡ [])
      → interrupts w' ≤ interrupts w
      → ReadsBy f w msg ptr n (returned v msg w')
  ReadsBy-end f v w w' msg ptr n value same done less = inl (
    0,
    msg,
    w',
    ap (λ (x : ℕ). returned x msg w') value,
    record {
      bounded = omega arith;
      content = unfold load in same;
      complete = done;
      untouched = λ i h. refl;
      fewer = less;
    },
  )
