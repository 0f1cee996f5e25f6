-- ===== src/Connection/Read/Short.antt =====
-- `ReadMessage` of src/Connection.cpp where fewer bytes come than a header and the length field.
use kcmsg.Prelude.{
  ℕ, zero, suc, ◌+◌, ◌-◌, ◌^◌, ◌<◌, ◌≡◌, refl, sym, ◌∙◌, ap, ◌⊎◌, inl, inr, List, [], ◌∷◌, arith,
  length, ◌==◌, false, lt→ltb, le→ltb, ltb, Option, ==_iff, leb, lt→leb, length-append, Bool-cases,
}
use kcmsg.Prelude.Bytes.{sub_size}
use kcmsg.Buffer.{Buffer, store}
use kcmsg.Connection.Calls.{Reader, failed, eintr}
use kcmsg.Connection.Read.{IoOutcome, read_message_loop, read_message, message_header_size}
use kcmsg.Connection.Read.Ends.{
  ReadResult-cases, ReadsBy, gives_up, ReadsBy-signal, ReadsBy-step, ReadsBy-end,
}

module _ (r : Reader) where
  open r use {
    World, read, pending, interrupts, got_bounded, got_pending, got_end, failed_pending,
    failed_interrupt,
  }

  -- `c` of `n` bytes have come in and the result is the number of those that have not, or a call
  -- has failed.
  abbrev pub Misses : World → Buffer → ℕ → ℕ → IoOutcome World → Type 0
  Misses w msg ptr n o = ReadsBy r (λ c. n - c) w msg ptr n o

  module _ (memory : Buffer → ℕ → Option Buffer) where
    -- Fewer than 30 bytes are asked for, or will have come in.
    abbrev pub IsShort : ℕ → ℕ → World → Type 0
    IsShort nbytes ptr w =
        (nbytes < message_header_size + 2) ⊎ (ptr + length (pending w) < message_header_size + 2)

    read_message_loop-Misses :
        (fuel nbytes : ℕ) (w : World) (msg : Buffer) (ptr nleft : ℕ)
        → nleft + interrupts w < fuel
        → ptr + nleft ≡ nbytes
        → nbytes < 2 ^ 64
        → IsShort nbytes ptr w
        → Misses w msg ptr nleft (read_message_loop r memory fuel nbytes w msg ptr nleft)
    unfolding read_message_loop
    read_message_loop-Misses zero nbytes w msg ptr nleft f e wide short = absurd (omega arith)
    read_message_loop-Misses (suc fuel) nbytes w msg ptr zero f e wide short =
        ReadsBy-end r (λ c. 0 - c) 0 w w msg ptr 0 (omega arith) refl (λ h. absurd (omega arith))
          (omega arith)
    read_message_loop-Misses (suc fuel) nbytes w msg ptr (suc k) f e wide short =
        rw (lt→ltb 0 (suc k) (omega arith)) (elim (ReadResult-cases (read w (suc k))) [
          | inl (err, w', call) ↦ rw call (elim (Bool-cases (err == eintr)) [
            | inl signal ↦
                let call' : read w (suc k) ≡ failed eintr w' =
                  rw (← (==_iff err eintr).0 signal) call in
                let same = failed_pending w w' (suc k) err call in
                let count : length (pending w') ≡ length (pending w) = ap length same in
                let early : leb 30 (sub_size nbytes (suc k)) ≡ false =
                  lt→leb 30 (sub_size nbytes (suc k)) (omega arith) in
                rw (signal, early)
                  (ReadsBy-signal r (λ c. suc k - c) _ same
                    (omega (arith, failed_interrupt w w' (suc k) call'))
                    (read_message_loop-Misses fuel nbytes w' msg ptr (suc k)
                      (omega (arith, failed_interrupt w w' (suc k) call')) e wide (omega arith)))
            | inr other ↦ rw other (inr (gives_up r msg call other))
          ])
          | inr (inl (w', call)) ↦
              let at_end = got_end w w' (suc k) (omega arith) call in
              let (same, fewer) = got_pending w w' (suc k) [] call in
              rw call (
                ReadsBy-end r (λ c. suc k - c) (suc k) w w' msg ptr (suc k) (omega arith) same
                  (λ h. sym same ∙ at_end) fewer)
          | inr (inr (b, bs, w', call)) ↦
              let xs : List ℕ = b ∷ bs in
              let most = got_bounded w w' (suc k) (b ∷ bs) call in
              let (same, less) = got_pending w w' (suc k) (b ∷ bs) call in
              let left : sub_size (suc k) (length xs) ≡ suc k - length xs = omega arith in
              let longer : length (pending w) ≡ length xs + length (pending w') =
                ap length same ∙ length-append xs (pending w') in
              let inside : ltb 64 (ptr + length xs) ≡ false =
                le→ltb 64 (ptr + length xs) (omega arith) in
              let early : leb 30 (sub_size nbytes (suc k - length xs)) ≡ false =
                lt→leb 30 (sub_size nbytes (suc k - length xs)) (omega arith) in
              rw (call, left, inside, early)
                (ReadsBy-step r (λ c. suc k - c) (λ c. suc k - length (b ∷ bs) - c) _ (b ∷ bs)
                  (λ c. omega arith) same most less
                  (read_message_loop-Misses fuel nbytes w' (store msg ptr (b ∷ bs))
                    (ptr + length (b ∷ bs)) (suc k - length (b ∷ bs)) (omega arith) (omega arith)
                    wide (omega arith)))
        ])

    -- Where fewer bytes are asked for, or come, than a header and the length field have,
    -- `ReadMessage` ends, with one turn more than the bytes asked for and the signals: it stores the
    -- bytes that come and returns how many of those asked for have not come, or a call has failed
    -- for another reason than a signal and it returns -1.
    pub read_message_short :
        (fuel nbytes : ℕ) (w : World) (msg : Buffer)
        → nbytes + interrupts w < fuel
        → nbytes < 2 ^ 64
        → (nbytes < message_header_size + 2) ⊎ (length (pending w) < message_header_size + 2)
        → Misses w msg 0 nbytes (read_message r memory fuel w msg nbytes)
    unfolding read_message
    read_message_short fuel nbytes w msg f wide short =
        read_message_loop-Misses fuel nbytes w msg 0 nbytes f (omega arith) wide (omega arith)
