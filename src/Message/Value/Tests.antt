-- ===== src/Message/Value/Tests.antt =====
-- The functions `get...` of src/Message.cpp at small messages.
use kcmsg.Prelude.{ℕ, ◌≡◌, refl, Option, some, arith, [], ◌∷◌}
use kcmsg.Buffer.{Buffer, load, store}
use kcmsg.Message.{Message, done, aborts}
use kcmsg.Message.Read.{skip}
use kcmsg.Message.Value.{long, wstring, encode}
use kcmsg.Message.Value.Wrong.{get_like, get_like-IsOther}
use kcmsg.Message.Get.{get_wstring}
use kcmsg.Message.{faults}
use kcmsg.Message.Read.{StartsWith}
use kcmsg.Message.Value.Unterminated.{get_wstring_unterminated}
use kcmsg.Message.Value.Numbers.{get_like_number}

-- The identifier of a `long`, everywhere in the block.
abbrev fives : Message
fives = record {
  bytes = λ i. 5;
  offset = 26;
  data_length = 31;
  hdr = record {
    source_ident = 1;
    source_organization = 2;
    target_ident = 3;
    target_organization = 4;
    transaction_ident = 5;
    transaction_application = 6;
    transaction_organization = 7;
    ttl = 8;
    flags = 9;
  };
}

-- An allocator whose blocks hold a byte all over.
abbrev serving : ℕ → Option Buffer
serving n = some (λ i. 0xCD)

get_wstring_refuses : get_like serving (wstring (b'a' ∷ [])) fives ≡ aborts
get_wstring_refuses =
    get_like-IsOther serving fives (omega arith) (wstring (b'a' ∷ [])) (omega arith, omega arith)

-- A message of one wide character.
abbrev one_wide : Message
one_wide = record fives { bytes = store (λ i. 0) 26 (encode (wstring (0x3C0 ∷ []))) }

one_wide-StartsWith : StartsWith one_wide (encode (wstring (0x3C0 ∷ [])))
unfolding load store
one_wide-StartsWith = record { here = refl; inside = omega arith }

get_wstring_unterminated_example : get_wstring serving one_wide ≡ faults
unfolding load
get_wstring_unterminated_example =
    get_wstring_unterminated serving one_wide (0x3C0 ∷ []) (λ i. 0xCD) (omega arith) (omega arith)
      (omega arith) (omega arith) refl (omega arith) one_wide-StartsWith

get_like_number_example : get_like serving (long 0) fives ≡ done (long 0x505) (skip 3 fives)
unfolding load
get_like_number_example = get_like_number serving (long 0) fives tt (omega arith)
