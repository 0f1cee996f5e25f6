-- ===== src/Connection/Transfer/Stream.antt =====
-- A sequence of calls of `Writen` on one side of a connection and the same sequence of calls of
-- `Readn` on the other (src/Connection.cpp).
use kcmsg.Prelude.{
  ℕ, ◌+◌, ◌≤◌, ◌<◌, ◌≡◌, refl, sym, ◌∙◌, ap, ◌⊎◌, inl, inr, List, [], ◌∷◌, ◌++◌, Option, none, some,
  arith, ◌==◌, ==_refl, if◌then◌else◌, All, append-injective,
}
use mathlib.Core.List.{append_assoc, append-nil}
use kcmsg.Buffer.{Buffer, load}
use kcmsg.Connection.Calls.{Reader, Writer, minus_one}
use kcmsg.Connection.Read.{returned, undefined, unfinished, readn}
use kcmsg.Connection.Read.Ends.{GaveUp}
use kcmsg.Connection.Read.Complete.{readn_complete}
use kcmsg.Connection.Transfer.{Joined, writen-sent, Received-whole}
use kcmsg.Connection.Write.{writen}

-- The memory that is handed to `Writen`, and the number of bytes.
abbrev pub Packet : Type 0
Packet = Buffer × ℕ

abbrev pub size_of : Packet → ℕ
size_of (msg, n) = n

abbrev pub sizes : List Packet → List ℕ
sizes [] = []
sizes (p ∷ ps) = size_of p ∷ sizes ps

abbrev pub packed : List Packet → List ℕ
packed [] = []
packed ((msg, n) ∷ ps) = load msg 0 n ++ packed ps

-- The receiver's memories have the bytes of the packets, in order.
abbrev pub Matches : List Packet → List Buffer → Type 0
Matches [] [] = Unit
Matches [] (c ∷ cs) = ⊥
Matches (p ∷ ps) [] = ⊥
Matches ((msg, n) ∷ ps) (c ∷ cs) = (load c 0 n ≡ load msg 0 n) × Matches ps cs

abbrev cons_received {ℓ} :
    {W : Type ℓ} → Buffer → Option (List Buffer × W) → Option (List Buffer × W)
cons_received c none = none
cons_received c (some (cs, v)) = some (c ∷ cs, v)

-- Calls of `Writen`, each of which has returned the number of its bytes; each loop has one turn more
-- than the bytes and the signals to come.
pub data Sends (wr : Writer) (fuel : ℕ) : wr.World → List Packet → wr.World → Type 0 where
  ends : {w : wr.World} → Sends wr fuel w [] w
  sends :
      {w₁ w w₂ : wr.World} {msg : Buffer} {n : ℕ} {ps : List Packet}
      → n + wr.interrupts w < fuel
      → n < minus_one
      → writen wr fuel w msg n ≡ returned n msg w₁
      → Sends wr fuel w₁ ps w₂
      → Sends wr fuel w ((msg, n) ∷ ps) w₂

module _ (rd : Reader) where
  open rd use {World, pending, interrupts}

  -- Calls of `Readn` for these numbers of bytes, each into new memory, as long as each returns what
  -- it was asked for.
  unfoldable pub read_each : ℕ → List ℕ → World → Option (List Buffer × World)
  read_each fuel [] v = some ([], v)
  read_each fuel (n ∷ ns) v = elim (readn rd fuel v (λ _. 0) n) [
    | returned k c v' ↦
        let rest = read_each fuel ns v' in if k == n then cons_received c rest else none
    | undefined ↦ none
    | unfinished ↦ none
  ]

  read_each_next :
      (fuel n : ℕ) (ns : List ℕ) (v v₁ v₂ : World) (c : Buffer) (cs : List Buffer)
      → readn rd fuel v (λ _. 0) n ≡ returned n c v₁
      → read_each fuel ns v₁ ≡ some (cs, v₂)
      → read_each fuel (n ∷ ns) v ≡ some (c ∷ cs, v₂)
  unfolding read_each
  read_each_next fuel n ns v v₁ v₂ c cs first rest = rw (read_each, first, ==_refl n, rest) refl

  -- One of the calls fails for another reason than a signal, and those before it do not.
  abbrev pub GivesUp : ℕ → List ℕ → World → Type 0
  GivesUp fuel [] v = ⊥
  GivesUp fuel (n ∷ ns) v =
      GaveUp rd (readn rd fuel v (λ _. 0) n)
      ⊎ ((c : Buffer) × (v' : World) × (readn rd fuel v (λ _. 0) n ≡ returned n c v')
          × GivesUp fuel ns v')

  -- All packets have come, and `later` is still to come; or a call gives up.
  abbrev pub Comes : ℕ → List Packet → World → List ℕ → Type 0
  Comes fuel ps v later =
      ((cs : List Buffer) × (v' : World) × (read_each fuel (sizes ps) v ≡ some (cs, v'))
        × Matches ps cs
        × (pending v' ≡ later))
      ⊎ GivesUp fuel (sizes ps) v

  -- Each loop has one turn more than its bytes and the signals to come.
  abbrev pub Suffices : ℕ → ℕ → List Packet → Type 0
  Suffices fuel signals ps = All (λ p. (size_of p + signals < fuel) × (size_of p < minus_one)) ps

module _ (wr : Writer) (rd : Reader) where
  open wr use {sent}
  open rd use {pending, interrupts}

  Sends-sent :
      (fuel : ℕ) (w w' : wr.World) (ps : List Packet)
      → Sends wr fuel w ps w'
      → sent w' ≡ sent w ++ packed ps
  Sends-sent fuel w w' [] ends = sym (append-nil (sent w))
  Sends-sent fuel w w' ((msg, n) ∷ ps) (sends {w₁} f wide e s) =
      Sends-sent fuel w₁ w' ps s
      ∙ ap (λ xs. xs ++ packed ps) (writen-sent wr rd fuel n w w₁ msg f wide e)
      ∙ append_assoc (sent w) (load msg 0 n) (packed ps)

  Suffices-weaken :
      (fuel : ℕ) {k l : ℕ} (ps : List Packet)
      → l ≤ k
      → Suffices rd fuel k ps
      → Suffices rd fuel l ps
  Suffices-weaken fuel [] le h = tt
  Suffices-weaken fuel (p ∷ ps) le ((f, wide), h) =
      ((omega arith, wide), Suffices-weaken fuel ps le h)

  read_each-Comes :
      (fuel : ℕ) (ps : List Packet) (v : rd.World) (later : List ℕ)
      → Suffices rd fuel (interrupts v) ps
      → pending v ≡ packed ps ++ later
      → Comes rd fuel ps v later
  unfolding read_each
  read_each-Comes fuel [] v later h e = inl ([], v, refl, tt, e)
  read_each-Comes fuel ((msg, n) ∷ ps) v later ((f, wide), h) e =
      let before = e ∙ append_assoc (load msg 0 n) (packed ps) later in
      elim (readn_complete rd fuel n v (λ _. 0) f (omega arith)) [
        | inl (c, mem, v₁, e₁, r) ↦
            let (all, same, rest) =
              Received-whole wr rd n c v v₁ msg (λ _. 0) mem (packed ps ++ later) before r in
            let whole : readn rd fuel v (λ _. 0) n ≡ returned n mem v₁ =
              e₁ ∙ ap (λ (k : ℕ). returned k mem v₁) (omega arith) in
            elim (read_each-Comes fuel ps v₁ later
              (Suffices-weaken fuel ps (omega (arith, r.fewer)) h) rest) [
                | inl (cs, v₂, e₂, matches, left) ↦ inl (
                  mem ∷ cs,
                  v₂,
                  read_each_next rd fuel n (sizes ps) v v₁ v₂ mem cs whole e₂,
                  (same, matches),
                  left,
                )
                | inr gives_up ↦ inr (inr (mem, v₁, whole, gives_up))
              ]
        | inr gave_up ↦ inr (inl gave_up)
      ]

  -- Where a sender hands packets to `Writen`, one after the other, and each call returns the number
  -- of its bytes, a receiver that calls `Readn` for the same numbers, one after the other, gets the
  -- bytes of each packet, in order, and what was sent after them stays to be read, unless a call of
  -- its fails for another reason than a signal. The sizes of the system's calls and the signals do
  -- not matter; each loop has one turn more than its bytes and the signals to come. The reader has
  -- before it what the writer's socket has taken.
  pub Sends-Comes :
      (fuel fuel' : ℕ) (w w' : wr.World) (v : rd.World) (ps : List Packet) (later : List ℕ)
      → Sends wr fuel w ps w'
      → Suffices rd fuel' (interrupts v) ps
      → Joined wr rd w w' v later
      → Comes rd fuel' ps v later
  Sends-Comes fuel fuel' w w' v ps later s h joined =
      let (_, before) = append-injective (sent w) (pending v) (sent w) (packed ps ++ later) refl (
        joined
        ∙ ap (λ xs. xs ++ later) (Sends-sent fuel w w' ps s)
        ∙ append_assoc (sent w) (packed ps) later) in
      read_each-Comes fuel' ps v later h before
