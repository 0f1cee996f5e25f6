-- ===== src/Connection/Calls.antt =====
-- The system calls `read` and `write` on a connected socket, which the operating system provides,
-- as interfaces: what a call returns and does, and what its manual page says of it.
use kcmsg.Prelude.{ℕ, ◌≤◌, ◌<◌, ◌≡◌, List, [], ◌++◌, length, take}

-- `errno` for a call that a signal has interrupted.
abbrev pub eintr : ℕ
eintr = 4

-- A `size_t` that is `-1`.
abbrev pub minus_one : ℕ
minus_one = 0xffff_ffff_ffff_ffff

-- The result of a call, with the world after it: the bytes that `read` has delivered, none at the end of the stream, or
-- -1 with the number in `errno`.
pub data ReadResult (W : Type 0) : Type 0 where
  got : List ℕ → W → ReadResult W
  failed : ℕ → W → ReadResult W

-- `pending` is what the peer has sent and still will send before it closes; `interrupts` bounds
-- the calls that signals will interrupt.
pub record Reader : Type 1 where
  pub World : Type 0
  pub read : World → ℕ → ReadResult World
  pub pending : World → List ℕ
  pub interrupts : World → ℕ
  pub got_bounded : (w w' : World) (n : ℕ) (bs : List ℕ) → read w n ≡ got bs w' → length bs ≤ n
  pub got_pending :
      (w w' : World) (n : ℕ) (bs : List ℕ)
      → read w n ≡ got bs w'
      → (pending w ≡ bs ++ pending w') × (interrupts w' ≤ interrupts w)
  pub got_end : (w w' : World) (n : ℕ) → 0 < n → read w n ≡ got [] w' → pending w ≡ []
  pub failed_pending : (w w' : World) (n e : ℕ) → read w n ≡ failed e w' → pending w' ≡ pending w
  pub failed_interrupt :
      (w w' : World) (n : ℕ) → read w n ≡ failed eintr w' → interrupts w' < interrupts w

-- The number of bytes that `write` has taken, or -1 with the number in `errno`.
pub data WriteResult (W : Type 0) : Type 0 where
  wrote : ℕ → W → WriteResult W
  write_failed : ℕ → W → WriteResult W

-- `sent` is what the socket has taken so far.
pub record Writer : Type 1 where
  pub World : Type 0
  pub write : World → List ℕ → WriteResult World
  pub sent : World → List ℕ
  pub interrupts : World → ℕ
  pub wrote_bounded : (w w' : World) (bs : List ℕ) (n : ℕ) → write w bs ≡ wrote n w' → n ≤ length bs
  pub wrote_sent :
      (w w' : World) (bs : List ℕ) (n : ℕ)
      → write w bs ≡ wrote n w'
      → (sent w' ≡ sent w ++ take n bs) × (interrupts w' ≤ interrupts w)
  pub failed_sent :
      (w w' : World) (bs : List ℕ) (e : ℕ) → write w bs ≡ write_failed e w' → sent w' ≡ sent w
  pub failed_interrupt :
      (w w' : World) (bs : List ℕ)
      → write w bs ≡ write_failed eintr w'
      → interrupts w' < interrupts w
