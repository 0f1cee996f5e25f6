-- ===== src/Connection/Transfer.antt =====
-- `Writen` on one side of a connection and `Readn` on the other (src/Connection.cpp), alone and with
-- the bytes of a message (src/Message.cpp).
pub mod Whole
pub mod Session
pub mod Stream
mod Tests
use kcmsg.Prelude.{
  ℕ, ◌+◌, ◌^◌, ◌≤◌, ◌<◌, ◌≡◌, refl, sym, ◌∙◌, ap, ◌⊎◌, inl, inr, List, [], ◌++◌, arith, length,
  length-append, append-injective, lt_or_le,
}
use mathlib.Core.Path.{subst}
use mathlib.Core.List.{append_assoc}
use kcmsg.Buffer.{Buffer, load, length-load}
use kcmsg.Connection.Calls.{Reader, Writer, minus_one}
use kcmsg.Connection.Read.{IoOutcome, returned, undefined, unfinished, readn}
use kcmsg.Connection.Read.Ends.{Received, GaveUp, Ends}
use kcmsg.Connection.Read.Complete.{readn_complete}
use kcmsg.Connection.Write.{writen}
use kcmsg.Connection.Write.Complete.{Writes, writen_complete}

module _ (wr : Writer) (rd : Reader) where
  open wr use {sent}
  open rd use {pending}

  -- The reader has before it the bytes that the writer's socket took between two states, and
  -- then `later`.
  abbrev pub Joined : wr.World → wr.World → rd.World → List ℕ → Type 0
  Joined w w' v later = sent w ++ pending v ≡ sent w' ++ later

  -- `Readn` returns the number asked for, with these bytes in its memory and the rest still to
  -- come, or a call has failed for another reason than a signal.
  abbrev pub Gets : ℕ → Buffer → List ℕ → IoOutcome rd.World → Type 0
  Gets n msg later o =
      ((c : Buffer) × (v' : rd.World) × (o ≡ returned n c v')
        × (load c 0 n ≡ load msg 0 n)
        × (pending v' ≡ later))
      ⊎ GaveUp rd o

  pub writen-sent :
      (fuel n : ℕ) (w w' : wr.World) (msg : Buffer)
      → n + wr.interrupts w < fuel
      → n < minus_one
      → writen wr fuel w msg n ≡ returned n msg w'
      → sent w' ≡ sent w ++ load msg 0 n
  writen-sent fuel n w w' msg f wide e = elim (writen_complete wr fuel n w msg f (omega arith)) [
    | inl (w₁, e₁, s) ↦
        let same : w₁ ≡ w' = cc in subst (λ x. sent x ≡ sent w ++ load msg 0 n) same s
    | inr (c, w₁, w₂, bs, lt, e₂, s, why) ↦ let full : n ≡ minus_one = cc in absurd (omega arith)
  ]

  pub Received-whole :
      (n c : ℕ) (v v' : rd.World) (msg mem mem' : Buffer) (later : List ℕ)
      → pending v ≡ load msg 0 n ++ later
      → Received rd v mem 0 n c mem' v'
      → (c ≡ n) × (load mem' 0 n ≡ load msg 0 n) × (pending v' ≡ later)
  Received-whole n c v v' msg mem mem' later e r =
      let total : length (load mem' 0 c) + length (pending v')
          ≡ length (load msg 0 n) + length later =
        sym (length-append (load mem' 0 c) (pending v'))
        ∙ ap length (sym r.content ∙ e)
        ∙ length-append (load msg 0 n) later in
      let all : c ≡ n = elim (lt_or_le c n) [
        | inl short ↦ absurd (
            omega (
              arith,
              total,
              ap length (r.complete short),
              length-load mem' 0 c,
              length-load msg 0 n,
            ))
        | inr whole ↦ omega (arith, r.bounded)
      ] in
      let whole : load mem' 0 n ++ pending v' ≡ load msg 0 n ++ later =
        subst (λ (k : ℕ). load mem' 0 k ++ pending v' ≡ load msg 0 n ++ later) all
          (sym r.content ∙ e) in
      let (first, rest) =
        append-injective (load mem' 0 n) (pending v') (load msg 0 n) later
          (length-load mem' 0 n ∙ sym (length-load msg 0 n)) whole in
      (all, first, rest)

  -- Where `Writen` returns the number of its bytes, `Readn` for as many on the other side returns
  -- that number with the same bytes in the same order, and what was sent after them stays to be
  -- read, unless a call of the reader fails for another reason than a signal. Neither the sizes of
  -- the calls nor the signals matter; each loop has one turn more than the bytes and its signals.
  -- The reader has before it what the writer's socket has taken.
  pub readn-writen :
      (fuel fuel' n : ℕ) (w w' : wr.World) (v : rd.World) (msg mem : Buffer) (later : List ℕ)
      → n + wr.interrupts w < fuel
      → n + rd.interrupts v < fuel'
      → n < minus_one
      → writen wr fuel w msg n ≡ returned n msg w'
      → Joined w w' v later
      → Gets n msg later (readn rd fuel' v mem n)
  readn-writen fuel fuel' n w w' v msg mem later f f' wide e joined =
      let (_, before) =
        append-injective (sent w) (pending v) (sent w) (load msg 0 n ++ later) refl (
          joined
          ∙ ap (λ xs. xs ++ later) (writen-sent fuel n w w' msg f wide e)
          ∙ append_assoc (sent w) (load msg 0 n) later) in
      elim (readn_complete rd fuel' n v mem f' (omega arith)) [
        | inl (c, mem', v', e', r) ↦
            let (all, same, rest) = Received-whole n c v v' msg mem mem' later before r in
            inl (mem', v', e' ∙ ap (λ (k : ℕ). returned k mem' v') (omega arith), same, rest)
        | inr gave_up ↦ inr gave_up
      ]
