-- ===== src/Connection/Read/Overwritten.antt =====
-- `ReadMessage` of src/Connection.cpp where a header and the length field come in: their bytes stand
-- where the object has its pointer `data`.
use kcmsg.Prelude.{
  ℕ, zero, suc, ◌+◌, ◌-◌, ◌^◌, ◌≤◌, ◌<◌, ◌≡◌, refl, sym, ◌∙◌, ap, ◌⊎◌, inl, inr, List, ◌∷◌, ◌++◌,
  Option, none, arith, length, ◌==◌, false, lt→ltb, ltb, ==_iff, leb, lt→leb, length-append,
  append-injective, Bool-cases,
}
use mathlib.Core.List.{append_assoc}
use mathlib.Core.Path.{ap₂}
use kcmsg.Prelude.Bytes.{sub_size, le_value}
use kcmsg.Buffer.{Buffer, load, store, load-add, length-load, load-store, load-store_disjoint}
use kcmsg.Connection.Calls.{Reader, failed, eintr}
use kcmsg.Connection.Read.{undefined, read_message_loop, read_message, message_header_size}
use kcmsg.Connection.Read.Ends.{ReadResult-cases, GaveUp, gives_up}

-- Where a block begins with the bytes of a stream, its bytes 8 to 15 are those of the stream.
member_lem :
    (msg : Buffer) (n : ℕ) (front address rest more : List ℕ)
    → length front ≡ 8
    → length address ≡ 8
    → 16 ≤ n
    → load msg 0 n ++ more ≡ front ++ (address ++ rest)
    → load msg 8 8 ≡ address
member_lem msg n front address rest more f a lo e =
    let count : 8 + (8 + (n - 16)) ≡ n = omega arith in
    let parts : load msg 0 n ≡ load msg 0 8 ++ (load msg 8 8 ++ load msg 16 (n - 16)) =
      ap (λ (k : ℕ). load msg 0 k) (sym count)
      ∙ load-add msg 0 8 (8 + (n - 16))
      ∙ ap (λ xs. load msg 0 8 ++ xs) (load-add msg 8 8 (n - 16)) in
    let whole : load msg 0 8 ++ (load msg 8 8 ++ (load msg 16 (n - 16) ++ more))
        ≡ front ++ (address ++ rest) =
      ap (λ xs. load msg 0 8 ++ xs) (sym (append_assoc (load msg 8 8) _ more))
      ∙ sym (append_assoc (load msg 0 8) _ more)
      ∙ ap (λ xs. xs ++ more) (sym parts)
      ∙ e in
    let (_, tail) = append-injective (load msg 0 8) _ front _ (length-load msg 0 8 ∙ sym f) whole in
    (append-injective (load msg 8 8) _ address _ (length-load msg 8 8 ∙ sym a) tail).0

module _ (r : Reader) (memory : Buffer → ℕ → Option Buffer) where
  open r use {
    World, read, pending, interrupts, got_bounded, got_pending, got_end, failed_pending,
    failed_interrupt,
  }

  module _ (front address rest : List ℕ) (f : length front ≡ 8) (a : length address ≡ 8)
      (nowhere : (msg : Buffer) → memory msg (le_value address) ≡ none) where
    -- The bytes that have come in and those that are to come.
    abbrev Came : Buffer → ℕ → World → Type 0
    Came msg ptr w = load msg 0 ptr ++ pending w ≡ front ++ (address ++ rest)

    Came-step :
        (w w' : World) (msg : Buffer) (ptr : ℕ) (xs : List ℕ)
        → pending w ≡ xs ++ pending w'
        → Came msg ptr w
        → Came (store msg ptr xs) (ptr + length xs) w'
    Came-step w w' msg ptr xs same came =
        let start : 0 + ptr ≡ ptr = omega arith in
        ap (λ ys. ys ++ pending w')
          (load-add (store msg ptr xs) 0 ptr (length xs)
            ∙ ap (λ (p : ℕ). load (store msg ptr xs) 0 ptr ++ load (store msg ptr xs) p (length xs))
                start
            ∙ ap₂ ◌++◌ (load-store_disjoint msg ptr xs 0 ptr (inl (omega arith)))
                (load-store msg ptr xs))
        ∙ append_assoc (load msg 0 ptr) xs (pending w')
        ∙ ap (λ ys. load msg 0 ptr ++ ys) (sym same)
        ∙ came

    Came-length :
        (w : World) (msg : Buffer) (ptr : ℕ)
        → Came msg ptr w
        → ptr + length (pending w) ≡ 16 + length rest
    Came-length w msg ptr came =
        let left = length-append (load msg 0 ptr) (pending w) in
        let right = length-append front (address ++ rest) in
        let inner = length-append address rest in
        let both = ap length came in omega (arith, left, right, inner, both, length-load msg 0 ptr)

    read_message_loop_undefined :
        (fuel nbytes : ℕ) (w : World) (msg : Buffer) (ptr nleft : ℕ)
        → nleft + interrupts w < fuel
        → ptr + nleft ≡ nbytes
        → nbytes < 2 ^ 64
        → ptr < 30
        → 30 ≤ nbytes
        → 14 ≤ length rest
        → Came msg ptr w
        → (read_message_loop r memory fuel nbytes w msg ptr nleft ≡ undefined)
          ⊎ GaveUp r (read_message_loop r memory fuel nbytes w msg ptr nleft)
    unfolding read_message_loop
    read_message_loop_undefined zero nbytes w msg ptr nleft g e wide lo hi more came =
        absurd (omega arith)
    read_message_loop_undefined (suc fuel) nbytes w msg ptr zero g e wide lo hi more came =
        absurd (omega arith)
    read_message_loop_undefined (suc fuel) nbytes w msg ptr (suc k) g e wide lo hi more came =
        rw (lt→ltb 0 (suc k) (omega arith)) (elim (ReadResult-cases (read w (suc k))) [
          | inl (err, w', call) ↦ rw call (elim (Bool-cases (err == eintr)) [
            | inl signal ↦
                let call' : read w (suc k) ≡ failed eintr w' =
                  rw (← (==_iff err eintr).0 signal) call in
                let same = failed_pending w w' (suc k) err call in
                let early : leb 30 (sub_size nbytes (suc k)) ≡ false =
                  lt→leb 30 (sub_size nbytes (suc k)) (omega arith) in
                rw (signal, early)
                  (read_message_loop_undefined fuel nbytes w' msg ptr (suc k)
                    (omega (arith, failed_interrupt w w' (suc k) call')) e wide lo hi more
                    (ap (λ ys. load msg 0 ptr ++ ys) same ∙ came))
            | inr other ↦ rw other (inr (gives_up r msg call other))
          ])
          | inr (inl (w', call)) ↦ absurd (
              omega (
                arith,
                Came-length w msg ptr came,
                ap length (got_end w w' (suc k) (omega arith) call),
              ))
          | inr (inr (b, bs, w', call)) ↦
              let xs : List ℕ = b ∷ bs in
              let most = got_bounded w w' (suc k) (b ∷ bs) call in
              let (same, less) = got_pending w w' (suc k) (b ∷ bs) call in
              let left : sub_size (suc k) (length xs) ≡ suc k - length xs = omega arith in
              let came' = Came-step w w' msg ptr (b ∷ bs) same came in
              rw (call, left)
                (elim (Bool-cases (ltb 64 (ptr + length xs))) [
                  | inl past ↦ rw past (inl refl)
                  | inr inside ↦ elim (Bool-cases (leb 30 (sub_size nbytes (suc k - length xs)))) [
                    | inl full ↦
                        let far : 16 ≤ ptr + length xs = ground arith in
                        let wild : memory (store msg ptr xs)
                              (le_value (load (store msg ptr xs) 8 8))
                            ≡ none =
                          ap (λ ys. memory (store msg ptr xs) (le_value ys))
                            (member_lem (store msg ptr xs) (ptr + length xs) front address rest
                              (pending w') f a far came')
                          ∙ nowhere (store msg ptr xs) in
                        rw (inside, full, wild) (inl refl)
                    | inr early ↦
                        let below : ptr + length xs < 30 = ground arith in
                        rw (inside, early)
                          (read_message_loop_undefined fuel nbytes w' (store msg ptr (b ∷ bs))
                            (ptr + length (b ∷ bs)) (suc k - length (b ∷ bs)) (omega arith)
                            (omega arith) wide below hi more came')
                  ]
                ])
        ])

  -- Where the peer sends 30 bytes or more, as a header and the length field have, and the caller asks
  -- for that many or more, the bytes 8 to 15 of them come to stand in the object's pointer `data`. If
  -- they are the address of no memory, `ReadMessage` does not return a message: it follows that
  -- pointer or writes behind the object, which is undefined, or a call has failed before for another
  -- reason than a signal and it returns -1.
  pub read_message_undefined :
      (front address rest : List ℕ) (fuel nbytes : ℕ) (w : World) (msg : Buffer)
      → length front ≡ 8
      → length address ≡ 8
      → 14 ≤ length rest
      → pending w ≡ front ++ (address ++ rest)
      → ((m : Buffer) → memory m (le_value address) ≡ none)
      → nbytes + interrupts w < fuel
      → nbytes < 2 ^ 64
      → message_header_size + 2 ≤ nbytes
      → (read_message r memory fuel w msg nbytes ≡ undefined)
        ⊎ GaveUp r (read_message r memory fuel w msg nbytes)
  unfolding read_message
  read_message_undefined front address rest fuel nbytes w msg f a more stream nowhere g wide hi =
      read_message_loop_undefined front address rest f a nowhere fuel nbytes w msg 0 nbytes g
        (omega arith) wide (omega arith) hi more (unfold load in stream)
