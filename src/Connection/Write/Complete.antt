-- ===== src/Connection/Write/Complete.antt =====
-- `Writen` against the stream of bytes that the socket takes.
use kcmsg.Prelude.{
  ℕ, zero, suc, ◌+◌, ◌-◌, ◌^◌, ◌≤◌, ◌<◌, ◌≡◌, refl, sym, ◌∙◌, ap, ◌≢◌, ◌⊎◌, inl, inr, List, ◌∷◌,
  ◌++◌, arith, take, ◌==◌, lt→ltb, ==_iff, Bool-cases,
}
use mathlib.Core.List.{append_assoc, append-nil}
use kcmsg.Prelude.Bytes.{sub_size}
use kcmsg.Buffer.{Buffer, load, load-add, length-load}
use kcmsg.Connection.Calls.{Writer, WriteResult, wrote, write_failed, eintr, minus_one}
use kcmsg.Connection.Read.{IoOutcome, returned}
use kcmsg.Connection.Write.{write_loop, writen}

WriteResult-cases :
    {W : Type 0} (r : WriteResult W)
    → ((e : ℕ) × (w : W) × (r ≡ write_failed e w))
      ⊎ ((w : W) × (r ≡ wrote 0 w))
      ⊎ ((n : ℕ) × (w : W) × (r ≡ wrote (suc n) w))
WriteResult-cases (write_failed e w) = inl (e, w, refl)
WriteResult-cases (wrote zero w) = inr (inl (w, refl))
WriteResult-cases (wrote (suc n) w) = inr (inr (n, w, refl))

-- The first bytes of a range are a shorter range.
take-load : (b : Buffer) (p n m : ℕ) → n ≤ m → take n (load b p m) ≡ load b p n
unfolding load
take-load b p zero m h = refl
take-load b p (suc n) zero h = absurd (omega arith)
take-load b p (suc n) (suc m) h = ap (λ xs. b p ∷ xs) (take-load b (p + 1) n m (omega arith))

module _ (wr : Writer) where
  open wr use {
    World, write, sent, interrupts, wrote_bounded, wrote_sent, failed_sent, failed_interrupt,
  }

  -- A call has failed, and not because of a signal, or has taken nothing.
  abbrev pub Refused : World → List ℕ → World → Type 0
  Refused w bs w' =
      (write w bs ≡ wrote 0 w') ⊎ ((e : ℕ) × (e ≢ eintr) × (write w bs ≡ write_failed e w'))

  -- All `n` bytes from `ptr` on have gone out in order and the result is the one given, or a call
  -- was refused after the first `c` of them and the result is -1.
  abbrev pub Writes : World → Buffer → ℕ → ℕ → ℕ → IoOutcome World → Type 0
  Writes w msg ptr n result o =
      ((w' : World) × (o ≡ returned result msg w') × (sent w' ≡ sent w ++ load msg ptr n))
      ⊎ ((c : ℕ) × (w₁ : World) × (w' : World) × (bs : List ℕ) × (c < n)
          × (o ≡ returned minus_one msg w')
          × (sent w' ≡ sent w ++ load msg ptr c)
          × Refused w₁ bs w')

  Writes-signal :
      (w w₁ : World) (msg : Buffer) (ptr n result : ℕ) (o : IoOutcome World)
      → sent w₁ ≡ sent w
      → Writes w₁ msg ptr n result o
      → Writes w msg ptr n result o
  Writes-signal w w₁ msg ptr n result o same (inl (w', e, s)) =
      inl (w', e, s ∙ ap (λ xs. xs ++ load msg ptr n) same)
  Writes-signal w w₁ msg ptr n result o same (inr (c, w₂, w', bs, h, e, s, why)) =
      inr (c, w₂, w', bs, h, e, s ∙ ap (λ xs. xs ++ load msg ptr c) same, why)

  -- What one call has sent, and the calls after it.
  sent-step :
      (w w₁ w₂ : World) (msg : Buffer) (ptr k c : ℕ)
      → sent w₁ ≡ sent w ++ load msg ptr k
      → sent w₂ ≡ sent w₁ ++ load msg (ptr + k) c
      → sent w₂ ≡ sent w ++ load msg ptr (k + c)
  sent-step w w₁ w₂ msg ptr k c first second =
      second
      ∙ ap (λ xs. xs ++ load msg (ptr + k) c) first
      ∙ append_assoc (sent w) (load msg ptr k) (load msg (ptr + k) c)
      ∙ ap (λ xs. sent w ++ xs) (sym (load-add msg ptr k c))

  Writes-step :
      (w w₁ : World) (msg : Buffer) (ptr n result : ℕ) (o : IoOutcome World) (k : ℕ)
      → k ≤ n
      → sent w₁ ≡ sent w ++ load msg ptr k
      → Writes w₁ msg (ptr + k) (n - k) result o
      → Writes w msg ptr n result o
  Writes-step w w₁ msg ptr n result o k hi first (inl (w', e, s)) =
      let whole : k + (n - k) ≡ n = omega arith in
      inl (
        w',
        e,
        sent-step w w₁ w' msg ptr k (n - k) first s
            ∙ ap (λ (c : ℕ). sent w ++ load msg ptr c) whole,
      )
  Writes-step w w₁ msg ptr n result o k hi first (inr (c, w₂, w', bs, h, e, s, why)) =
      inr (k + c, w₂, w', bs, omega arith, e, sent-step w w₁ w' msg ptr k c first s, why)

  pub write_loop-Writes :
      (fuel result : ℕ) (w : World) (msg : Buffer) (ptr nleft : ℕ)
      → nleft + interrupts w < fuel
      → nleft < 2 ^ 64
      → Writes w msg ptr nleft result (write_loop wr fuel result w msg ptr nleft)
  unfolding write_loop
  write_loop-Writes zero result w msg ptr nleft f wide = absurd (omega arith)
  write_loop-Writes (suc fuel) result w msg ptr zero f wide =
      inl (w, refl, unfold load in sym (append-nil (sent w)))
  write_loop-Writes (suc fuel) result w msg ptr (suc k) f wide =
      let bs = load msg ptr (suc k) in
      let nothing : sent w ≡ sent w ++ load msg ptr 0 = unfold load in sym (append-nil (sent w)) in
      rw (lt→ltb 0 (suc k) (omega arith)) (elim (WriteResult-cases (write w bs)) [
        | inl (err, w', call) ↦ rw call (elim (Bool-cases (err == eintr)) [
          | inl signal ↦
              let call' : write w bs ≡ write_failed eintr w' =
                rw (← (==_iff err eintr).0 signal) call in
              rw signal (
                Writes-signal w w' msg ptr (suc k) result _ (failed_sent w w' bs err call) (
                  write_loop-Writes fuel result w' msg ptr (suc k)
                    (omega (arith, failed_interrupt w w' bs call')) wide))
          | inr other ↦ rw other (
              inr (
                0,
                w,
                w',
                bs,
                omega arith,
                refl,
                failed_sent w w' bs err call ∙ nothing,
                inr (err, λ same. ground arith, call),
              ))
        ])
        | inr (inl (w', call)) ↦
            let (same, _) = wrote_sent w w' bs 0 call in
            rw call (
              inr (0, w, w', bs, omega arith, refl, same ∙ append-nil (sent w) ∙ nothing, inl call))
        | inr (inr (n, w', call)) ↦
            let hi : suc n ≤ suc k =
              omega (arith, wrote_bounded w w' bs (suc n) call, length-load msg ptr (suc k)) in
            let (same, less) = wrote_sent w w' bs (suc n) call in
            let left : sub_size (suc k) (suc n) ≡ suc k - suc n = omega arith in
            rw (call, left)
              (Writes-step w w' msg ptr (suc k) result _ (suc n) hi
                (same ∙ ap (λ xs. sent w ++ xs) (take-load msg ptr (suc n) (suc k) hi))
                (write_loop-Writes fuel result w' msg (ptr + suc n) (suc k - suc n) (omega arith)
                  (omega arith)))
      ])

  -- `Writen` ends, with one turn more than the bytes and the signals. Either all `nbytes` bytes at
  -- the pointer have gone out in order and it returns their number, or a call was refused after
  -- the first of them and it returns -1; no byte goes out twice or out of order.
  pub writen_complete :
      (fuel nbytes : ℕ) (w : World) (msg : Buffer)
      → nbytes + interrupts w < fuel
      → nbytes < 2 ^ 64
      → Writes w msg 0 nbytes nbytes (writen wr fuel w msg nbytes)
  unfolding writen
  writen_complete fuel nbytes w msg f wide = write_loop-Writes fuel nbytes w msg 0 nbytes f wide
