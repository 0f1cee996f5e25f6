-- ===== src/Message/Print/Elements/Sticks.antt =====
-- What `debugMessagePrint` (src/Message.cpp) writes of a message that holds printable values.
use kcmsg.Prelude.{ℕ, Bool, true, false, List, [], ◌∷◌, ◌||◌}
use kcmsg.Prelude.Text.{Text}
use kcmsg.Message.Host.{Host}
use kcmsg.Message.{Message}
use kcmsg.Message.Print.Elements.{Piece, Format, element}
use kcmsg.Message.Value.{Value, byte, float}

abbrev has_byte : List Value → Bool
has_byte [] = false
has_byte (byte v ∷ vs) = true
has_byte (v ∷ vs) = has_byte vs

abbrev has_float : List Value → Bool
has_float [] = false
has_float (float v ∷ vs) = true
has_float (v ∷ vs) = has_float vs

-- The format behind the values `seen`.
abbrev pub format_behind : Format → List Value → Format
format_behind f seen = record { hex = has_byte seen || f.hex; fixed = has_float seen || f.fixed }

module _ (point_text : Bool → ℕ → ℕ → Text) (host : Host) where
  -- The elements of the values, each in the format that the values before it, the last first, leave.
  abbrev pub written : Format → List Value → List Value → List Piece
  written f seen [] = []
  written f seen (v ∷ vs) =
      element point_text host (format_behind f seen) v ∷ written f (v ∷ seen) vs
