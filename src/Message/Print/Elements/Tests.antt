-- ===== src/Message/Print/Elements/Tests.antt =====
-- `debugMessagePrint` (src/Message.cpp) on a message of a byte and an int.
use kcmsg.Prelude.{ℕ, ◌≡◌, refl, Bool, false, List, [], ◌∷◌, none}
use kcmsg.Prelude.Text.{Text, lit, numeral_onto}
use kcmsg.Message.Host.{Host}
use kcmsg.Buffer.{store}
use kcmsg.Message.{Message}
use kcmsg.Message.Value.{Value, byte, int}
use kcmsg.Message.Print.Elements.{narrow, Format, element}
use kcmsg.Message.Print.Elements.Sticks.{written}

abbrev two_values : Message
two_values = record {
  bytes = store (store (λ _. 0) 26 (2 ∷ 65 ∷ 4 ∷ 255 ∷ 0 ∷ 0 ∷ 0 ∷ [])) 24 (33 ∷ 0 ∷ []);
  offset = 26;
  data_length = 33;
  hdr = record {
    source_ident = 1;
    source_organization = 2;
    target_ident = 3;
    target_organization = 4;
    transaction_ident = 5;
    transaction_application = 6;
    transaction_organization = 7;
    ttl = 8;
    flags = 0;
  };
}

abbrev values : List Value
values = byte 65 ∷ int 255 ∷ []

abbrev plain : Format
plain = record { hex = false; fixed = false }

abbrev no_text : Bool → ℕ → ℕ → Text
no_text fixed w v = []

abbrev no_host : Host
no_host = record { malloc = λ n. none; gmtime = λ t. none }

-- The int stands in hexadecimal behind the byte, and alone in decimal.
hex_behind_byte :
    written no_text no_host plain [] values
    ≡ narrow (lit "        <byte>A</byte>\n") ∷ narrow (lit "        <int>ff</int>\n") ∷ []
unfolding element numeral_onto
hex_behind_byte = refl

decimal_alone :
    written no_text no_host plain [] (int 255 ∷ []) ≡ narrow (lit "        <int>255</int>\n") ∷ []
unfolding element numeral_onto
decimal_alone = refl
