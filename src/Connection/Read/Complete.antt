-- ===== src/Connection/Read/Complete.antt =====
-- `Readn` against the stream of bytes that the peer sends.
use kcmsg.Prelude.{
  ℕ, zero, suc, ◌+◌, ◌-◌, ◌^◌, ◌<◌, ◌≡◌, refl, sym, ◌∙◌, inl, inr, List, [], ◌∷◌, arith, length,
  ◌==◌, lt→ltb, ==_iff, Bool-cases,
}
use kcmsg.Prelude.Bytes.{sub_size}
use kcmsg.Buffer.{Buffer, store}
use kcmsg.Connection.Calls.{Reader, failed, eintr}
use kcmsg.Connection.Read.{readn_loop, readn}
use kcmsg.Connection.Read.Ends.{
  ReadResult-cases, Ends, gives_up, ReadsBy-signal, ReadsBy-step, ReadsBy-end,
}

module _ (r : Reader) where
  open r use {
    World, read, pending, interrupts, got_bounded, got_pending, got_end, failed_pending,
    failed_interrupt,
  }

  readn_loop-Ends :
      (fuel nbytes : ℕ) (w : World) (msg : Buffer) (ptr nleft : ℕ)
      → nleft + interrupts w < fuel
      → ptr + nleft ≡ nbytes
      → nbytes < 2 ^ 64
      → Ends r w msg ptr nleft (readn_loop r fuel nbytes w msg ptr nleft)
  unfolding readn_loop
  readn_loop-Ends zero nbytes w msg ptr nleft f e wide = absurd (omega arith)
  readn_loop-Ends (suc fuel) nbytes w msg ptr zero f e wide =
      ReadsBy-end r (λ c. ptr + c) (sub_size nbytes 0) w w msg ptr 0 (omega arith) refl
        (λ h. absurd (omega arith)) (omega arith)
  readn_loop-Ends (suc fuel) nbytes w msg ptr (suc k) f e wide =
      rw (lt→ltb 0 (suc k) (omega arith)) (elim (ReadResult-cases (read w (suc k))) [
        | inl (err, w', call) ↦ rw call (elim (Bool-cases (err == eintr)) [
          | inl signal ↦
              let call' : read w (suc k) ≡ failed eintr w' =
                rw (← (==_iff err eintr).0 signal) call in
              rw signal (
                ReadsBy-signal r (λ c. ptr + c) _ (failed_pending w w' (suc k) err call)
                  (omega (arith, failed_interrupt w w' (suc k) call'))
                  (readn_loop-Ends fuel nbytes w' msg ptr (suc k)
                    (omega (arith, failed_interrupt w w' (suc k) call')) e wide))
          | inr other ↦ rw other (inr (gives_up r msg call other))
        ])
        | inr (inl (w', call)) ↦
            let at_end = got_end w w' (suc k) (omega arith) call in
            let (same, fewer) = got_pending w w' (suc k) [] call in
            rw call (
              ReadsBy-end r (λ c. ptr + c) (sub_size nbytes (suc k)) w w' msg ptr (suc k)
                (omega arith) same (λ h. sym same ∙ at_end) fewer)
        | inr (inr (b, bs, w', call)) ↦
            let xs : List ℕ = b ∷ bs in
            let hi = got_bounded w w' (suc k) (b ∷ bs) call in
            let (same, less) = got_pending w w' (suc k) (b ∷ bs) call in
            let left : sub_size (suc k) (length xs) ≡ suc k - length xs = omega arith in
            rw call (
              ReadsBy-step r (λ c. ptr + c) (λ c. ptr + length (b ∷ bs) + c) _ (b ∷ bs)
                (λ c. omega arith) same hi less
                (rw left (
                  readn_loop-Ends fuel nbytes w' (store msg ptr (b ∷ bs)) (ptr + length (b ∷ bs))
                    (suc k - length (b ∷ bs)) (omega arith) (omega arith) wide)))
      ])

  -- `Readn` ends, with one turn more than the bytes asked for and the signals. Either it returns a
  -- number `c` of bytes, at most the number asked for, with the first `c` bytes of the stream in
  -- the memory, and fewer than asked for only where the stream has no more; all memory behind them
  -- is as before, and no more signals are to come than before. Or a call has failed for another
  -- reason than a signal, and it returns -1.
  pub readn_complete :
      (fuel nbytes : ℕ) (w : World) (msg : Buffer)
      → nbytes + interrupts w < fuel
      → nbytes < 2 ^ 64
      → Ends r w msg 0 nbytes (readn r fuel w msg nbytes)
  unfolding readn
  readn_complete fuel nbytes w msg f wide =
      readn_loop-Ends fuel nbytes w msg 0 nbytes f (omega arith) wide
