-- ===== src/Message/Queue/Expect.antt =====
-- A receiver that calls the functions `get...` of src/Message.cpp for the kinds of values that it
-- expects, in order.
use kcmsg.Prelude.{
  ℕ, ◌+◌, ◌≤◌, ◌≡◌, refl, sym, ap, ◌∙◌, Bool, true, false, ◌&&◌, List, [], ◌∷◌, ◌++◌, Option, arith,
  length, take, All, ◌==◌, ==_ne, ==_iff, Bool-cases, inl, inr, if◌then◌else◌, length-append,
  ==_refl, All-snoc,
}
use mathlib.Core.Path.{ap₂}
use mathlib.Core.List.{append-nil}
use kcmsg.Buffer.{Buffer, load, load-add}
use kcmsg.Message.{Message, M, pure, done, aborts, max_msg_data, ◌>>=◌}
use kcmsg.Message.Read.{StartsWith, StartsWith-append, skip, skip-skip}
use kcmsg.Message.Value.{Value, encode}
use kcmsg.Message.Value.Readable.{IsReadable}
use kcmsg.Message.Value.Numbers.{tag_of}
use kcmsg.Message.Value.Typed.{get_like_match, get_like_mismatch}
use kcmsg.Message.Value.Wrong.{get_like}
use kcmsg.Message.Queue.{Holds, encode_all, encode_all-append}

-- One call for each kind; the values given stand for their kinds.
unfoldable pub get_each : (ℕ → Option Buffer) → List Value → M (List Value)
get_each malloc [] = pure []
get_each malloc (k ∷ ks) = do v ← get_like malloc k; vs ← get_each malloc ks; pure (v ∷ vs)

-- The values begin with values of the kinds.
unfoldable pub agrees : List Value → List Value → Bool
agrees [] vs = true
agrees (k ∷ ks) [] = false
agrees (k ∷ ks) (v ∷ vs) = (tag_of k == tag_of v) && agrees ks vs

get_each-StartsWith :
    (malloc : ℕ → Option Buffer) (ks vs : List Value) (m : Message)
    → StartsWith m (encode_all vs)
    → All (IsReadable malloc) vs
    → length ks ≤ length vs
    → get_each malloc ks m ≡ (
        if agrees ks vs
        then done (take (length ks) vs) (skip (length (encode_all (take (length ks) vs))) m)
        else aborts)
unfolding get_each agrees
get_each-StartsWith malloc [] vs m s r le =
    ap (λ (n : ℕ). done [] (record m { offset = n })) (omega arith)
get_each-StartsWith malloc (k ∷ ks) [] m s r le = absurd (omega arith)
get_each-StartsWith malloc (k ∷ ks) (v ∷ vs) m s (good, r) le =
    let (first, rest) = StartsWith-append (encode v) (encode_all vs) s in
    elim (Bool-cases (tag_of k == tag_of v)) [
      | inl same ↦
          let ih =
            get_each-StartsWith malloc ks vs (skip (length (encode v)) m) rest r (omega arith) in
          rw
            (same, get_like_match malloc k v ((==_iff (tag_of k) (tag_of v)).0 same) good first, ih)
            (elim (Bool-cases (agrees ks vs)) [
              | inl all ↦ rw all (
                  ap (λ m'. done (v ∷ take (length ks) vs) m')
                    (skip-skip m (length (encode v)) (length (encode_all (take (length ks) vs))) _
                      (sym (length-append (encode v) (encode_all (take (length ks) vs))))))
              | inr some_not ↦ rw some_not refl
            ])
      | inr other ↦
          rw (other, get_like_mismatch malloc k v (==_ne (tag_of k) (tag_of v) other) first) refl
    ]

Holds-StartsWith : {m : Message} {vs : List Value} → Holds m vs → StartsWith m (encode_all vs)
Holds-StartsWith h = record { here = h.content; inside = omega (arith, h.exact, h.valid.within) }

pub get_each-Holds :
    (malloc : ℕ → Option Buffer) (ks vs : List Value) (m : Message)
    → Holds m vs
    → All (IsReadable malloc) vs
    → length ks ≤ length vs
    → get_each malloc ks m ≡ (
        if agrees ks vs
        then done (take (length ks) vs) (skip (length (encode_all (take (length ks) vs))) m)
        else aborts)
get_each-Holds malloc ks vs m h r le = get_each-StartsWith malloc ks vs m (Holds-StartsWith h) r le

agrees_self : (vs : List Value) → agrees vs vs ≡ true
unfolding agrees
agrees_self [] = refl
agrees_self (v ∷ vs) = rw (==_refl (tag_of v)) (agrees_self vs)

take-all : (vs : List Value) → take (length vs) vs ≡ vs
take-all [] = refl
take-all (v ∷ vs) = ap (λ l. v ∷ l) (take-all vs)

-- The get functions do not look at the length of the message. Where the bytes of a readable value
-- are left behind its end, a receiver that expects one value more than the message holds gets that
-- one as well.
pub get_each_past_end :
    (malloc : ℕ → Option Buffer) (vs : List Value) (v : Value) (m : Message)
    → Holds m vs
    → All (IsReadable malloc) vs
    → IsReadable malloc v
    → load m.bytes m.data_length (length (encode v)) ≡ encode v
    → m.data_length + length (encode v) ≤ max_msg_data
    → get_each malloc (vs ++ (v ∷ [])) m
      ≡ done (vs ++ (v ∷ [])) (skip (length (encode_all (vs ++ (v ∷ [])))) m)
get_each_past_end malloc vs v m h r good left inside =
    let more = vs ++ (v ∷ []) in
    let bytes : encode_all more ≡ encode_all vs ++ encode v =
      encode_all-append vs (v ∷ []) ∙ ap (λ xs. encode_all vs ++ xs) (append-nil (encode v)) in
    let long : length (encode_all more) ≡ length (encode_all vs) + length (encode v) =
      ap length bytes ∙ length-append (encode_all vs) (encode v) in
    let here : load m.bytes m.offset (length (encode_all more)) ≡ encode_all more =
      rw (long, bytes)
        (load-add m.bytes m.offset (length (encode_all vs)) (length (encode v))
          ∙ ap₂ ◌++◌ h.content (rw h.exact left)) in
    let starts : StartsWith m (encode_all more) = record {
      here = here;
      inside = omega (arith, h.exact, long);
    } in
    get_each-StartsWith malloc more more m starts (All-snoc (IsReadable malloc) vs v r good)
      (omega arith)
    ∙ rw (agrees_self more, take-all more) refl
