-- ===== src/Message/Append.antt =====
-- What `append` leaves in the message: the bytes at its end, the new length in the header, and
-- everything else as it was.
use kcmsg.Prelude.{
  ℕ, ◌+◌, ◌≤◌, ◌<◌, ◌≡◌, refl, ◌∙◌, ◌⊎◌, inl, inr, List, ◌++◌, arith, length, length-append, le→leb,
}
use mathlib.Core.Path.{ap₂}
use kcmsg.Prelude.Bytes.{le_bytes, add_size}
use kcmsg.Buffer.{load, store, load-add, load-store, load-store_disjoint, load_ext, store_outside}
use kcmsg.Message.{
  Message, done, append, copy_in, update_data_length, max_msg_data, message_length_offset,
  user_data_offset, M, ◌>>◌,
}

-- `m'` is `m` with the bytes `xs` at its end.
pub record Appended (m : Message) (xs : List ℕ) (m' : Message) : Type 0 where
  pub same_offset : m'.offset ≡ m.offset
  pub same_hdr : ◌≡◌ m'.hdr m.hdr
  pub longer : m'.data_length ≡ m.data_length + length xs
  pub within : m'.data_length ≤ max_msg_data
  pub appended : load m'.bytes m.data_length (length xs) ≡ xs
  pub field : load m'.bytes message_length_offset 2 ≡ le_bytes 2 m'.data_length
  pub below : (i : ℕ) → i < m.data_length → (i < 24) ⊎ (26 ≤ i) → m'.bytes i ≡ m.bytes i
  pub above : (i : ℕ) → m'.data_length ≤ i → m'.bytes i ≡ m.bytes i

abbrev extended : Message → List ℕ → Message
extended m xs = record m {
  bytes =
      store (store m.bytes m.data_length xs) message_length_offset
        (le_bytes 2 (add_size m.data_length (length xs)));
  data_length = add_size m.data_length (length xs);
}

module _ (m : Message) (xs : List ℕ) where
  append_runs :
      user_data_offset ≤ m.data_length
      → m.data_length + length xs ≤ max_msg_data
      → append xs m ≡ done tt (extended m xs)
  unfolding append copy_in update_data_length
  append_runs lo hi = rw (le→leb _ _ hi) refl

  extended-Appended :
      user_data_offset ≤ m.data_length
      → m.data_length + length xs ≤ max_msg_data
      → Appended m xs (extended m xs)
  extended-Appended lo hi = record {
    same_offset = refl;
    same_hdr = refl;
    longer = omega arith;
    within = omega arith;
    appended =
        load-store_disjoint (store m.bytes m.data_length xs) 24 _ m.data_length (length xs)
          (inr (omega arith))
        ∙ load-store m.bytes m.data_length xs;
    field = load-store (store m.bytes m.data_length xs) 24 _;
    below = λ i h out.
        store_outside (store m.bytes m.data_length xs) 24 _ i (omega arith)
        ∙ store_outside m.bytes m.data_length xs i (inl h);
    above = λ i h.
        store_outside (store m.bytes m.data_length xs) 24 _ i (omega arith)
        ∙ store_outside m.bytes m.data_length xs i (omega arith);
  }

  pub append_lem :
      user_data_offset ≤ m.data_length
      → m.data_length + length xs ≤ max_msg_data
      → (m' : Message) × (append xs m ≡ done tt m') × Appended m xs m'
  append_lem lo hi = (extended m xs, append_runs lo hi, extended-Appended lo hi)

-- Bytes below the end survive an append, but for the length field.
pub load-Appended :
    {m m' : Message} {xs : List ℕ} (p n : ℕ)
    → Appended m xs m'
    → user_data_offset ≤ p
    → p + n ≤ m.data_length
    → load m'.bytes p n ≡ load m.bytes p n
load-Appended {m} {m'} p n a lo hi =
    load_ext m'.bytes m.bytes p n (λ i h k. a.below i (omega arith) (omega arith))

-- Two appends in a row are one.
pub Appended-append :
    {m m' m'' : Message} {xs ys : List ℕ}
    → user_data_offset ≤ m.data_length
    → Appended m xs m'
    → Appended m' ys m''
    → Appended m (xs ++ ys) m''
Appended-append {m} {m'} {m''} {xs} {ys} lo a b = record {
  same_offset = b.same_offset ∙ a.same_offset;
  same_hdr = b.same_hdr ∙ a.same_hdr;
  longer = omega (arith, length-append xs ys, a.longer, b.longer);
  within = b.within;
  appended =
      rw (length-append xs ys, load-add)
        (ap₂ ◌++◌
          (load-Appended m.data_length (length xs) b lo (omega (arith, a.longer)) ∙ a.appended)
          (rw (← a.longer) b.appended));
  field = b.field;
  below = λ i h out. b.below i (omega (arith, a.longer)) out ∙ a.below i h out;
  above = λ i h. b.above i h ∙ a.above i (omega (arith, b.longer));
}

-- Two and three appends in one do block, as the functions `put...` make them.
module _ (m : Message) (xs ys : List ℕ) (lo : user_data_offset ≤ m.data_length) where
  pub append_two :
      m.data_length + (length xs + length ys) ≤ max_msg_data
      → (m' : Message) × ((do append xs; append ys) m ≡ done tt m') × Appended m (xs ++ ys) m'
  append_two hi =
      let (m₁, e₁, a₁) = append_lem m xs lo (omega arith) in
      let (m₂, e₂, a₂) = append_lem m₁ ys (omega (arith, a₁.longer)) (omega (arith, a₁.longer)) in
      (m₂, rw (e₁, e₂), Appended-append lo a₁ a₂)

  module _ (zs : List ℕ)
      (hi : m.data_length + (length xs + (length ys + length zs)) ≤ max_msg_data) where
    pub append_three :
        (m' : Message) × ((do append xs; append ys; append zs) m ≡ done tt m')
        × ((k : M (Unit {0})) → (do append xs; append ys; append zs; k) m ≡ k m')
        × Appended m (xs ++ (ys ++ zs)) m'
    append_three =
        let (m₁, e₁, a₁) = append_lem m xs lo (omega arith) in
        let (m₂, e₂, a₂) = append_lem m₁ ys (omega (arith, a₁.longer)) (omega (arith, a₁.longer)) in
        let (m₃, e₃, a₃) =
          append_lem m₂ zs (omega (arith, a₁.longer, a₂.longer))
            (omega (arith, a₁.longer, a₂.longer)) in
        (
          m₃,
          rw (e₁, e₂, e₃),
          λ k. rw (e₁, e₂, e₃),
          Appended-append lo a₁ (Appended-append (omega (arith, a₁.longer)) a₂ a₃),
        )
