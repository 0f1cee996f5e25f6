-- ===== src/Message/Print/Elements.antt =====
-- The text that `debugMessagePrint` of src/Message.cpp writes. The number formats of the stream stick:
-- after a byte the integers are in hexadecimal, after a float the numbers with a point are fixed.
-- Parameters: the text of a number with a point, by its bits, in the format of the stream, and what
-- `malloc` and `gmtime` return.
pub mod Sticks
mod Tests
use kcmsg.Prelude.{
  ℕ, ◌-◌, ◌^◌, Bool, true, false, List, [], ◌∷◌, ◌++◌, Option, none, some, ltb, ◌||◌, if◌then◌else◌,
}
use kcmsg.Prelude.Text.{Text, lit, decimal, hexadecimal, signed_decimal}
use kcmsg.Prelude.Bytes.{sign_extend}
use kcmsg.Message.Host.{Host, Tm}
use kcmsg.Buffer.{Buffer}
use kcmsg.Message.{Message, Outcome, done, throws, aborts, faults, running}
use kcmsg.Message.Header.{
  get_source_identifier, get_source_organization, get_target_identifier, get_target_organization,
  get_transaction_identifier, get_transaction_application, get_transaction_organization, get_ttl,
}
use kcmsg.Message.Flags.{is_once_and_only_once, is_quick_death, is_message_fragment}
use kcmsg.Message.Print.{print_loop, Printout}
use kcmsg.Message.Value.{
  Value, bool, byte, short, int, long, long_long, float, double, char, wchar, string, wstring, time,
  duration,
}

-- What goes to `std::cout` and to `std::wcout`.
pub data Piece : Type 0 where
  narrow : Text → Piece
  wide : List ℕ → Piece

-- The flags of `std::cout`: `std::hex`, and `std::fixed` with a precision of 3.
pub record Format : Type 0 where
  pub hex : Bool
  pub fixed : Bool

-- A signed number of `w` bits by its pattern, and an unsigned number, in front of `out`.
abbrev pub signed : Bool → ℕ → ℕ → Text → Text
signed hex w n out = if hex then hexadecimal n out else signed_decimal w n out

abbrev pub unsigned : Bool → ℕ → Text → Text
unsigned hex n out = if hex then hexadecimal n out else decimal n out

-- `<name>`, the value and `</name>`, with `std::endl`.
abbrev pub close_tag : Text → Text
close_tag name = lit "</" ++ (name ++ lit ">\n")

abbrev pub open_tag : Text → Text → Text
open_tag name rest = lit "        <" ++ (name ++ (b'>' ∷ rest))

abbrev pub true_false : Bool → Text
true_false b = if b then lit "true" else lit "false"

abbrev field : Text → (Text → Text) → Text
field name value = lit "            <" ++ (name ++ (b'>' ∷ value (close_tag name)))

-- The elements of a time.
abbrev pub time_text : Bool → Tm → Text
time_text hex t =
    lit "        <time>\n"
    ++ (field (lit "seconds") (signed hex 32 t.sec)
        ++ (field (lit "minutes") (signed hex 32 t.min)
            ++ (field (lit "hours") (signed hex 32 t.hour)
                ++ (field (lit "day_of_month") (signed hex 32 t.mday)
                    ++ (field (lit "month") (signed hex 32 t.mon)
                        ++ (field (lit "day_of_week") (signed hex 32 t.wday)
                            ++ (field (lit "day_of_year") (signed hex 32 t.yday)
                                ++ (field (lit "year") (signed hex 32 t.year)
                                    ++ (field (lit "time_zone") (λ out. t.zone ++ out)
                                        ++ (field (lit "is_dst") (λ out. true_false t.dst ++ out)
                                            ++ lit "        </time>\n"))))))))))

-- Where `gmtime` has no fields the loop does not come to the text.
abbrev pub time_or_none : Bool → Option Tm → Text
time_or_none hex none = []
time_or_none hex (some t) = time_text hex t

-- The flags after the case of a value.
abbrev pub format_after : Format → Value → Format
format_after f (byte v) = record f { hex = true }
format_after f (float v) = record f { fixed = true }
format_after f v = f

abbrev header_field : Text → Text → Text
header_field name value = open_tag name (value ++ close_tag name)

unfoldable pub header_text : Format → Message → Text
header_text f m =
    lit "Debug message printout\n======================\n<message>\n    <header>\n"
    ++ (header_field (lit "source_identifier") (unsigned f.hex (get_source_identifier m) [])
        ++ (header_field (lit "source_organization") (unsigned f.hex (get_source_organization m) [])
            ++ (header_field (lit "target_identifier") (unsigned f.hex (get_target_identifier m) [])
                ++ (header_field (lit "target_organization")
                      (unsigned f.hex (get_target_organization m) [])
                    ++ (header_field (lit "transaction_identifier")
                          (unsigned f.hex (get_transaction_identifier m) [])
                        ++ (header_field (lit "transaction_application")
                              (unsigned f.hex (get_transaction_application m) [])
                            ++ (header_field (lit "transaction_organization")
                                  (unsigned f.hex (get_transaction_organization m) [])
                                ++ (header_field (lit "ttl") (unsigned f.hex (get_ttl m) [])
                                    ++ (header_field (lit "is_once")
                                          (true_false (is_once_and_only_once m))
                                        ++ (header_field (lit "is_quick_death")
                                              (true_false (is_quick_death m))
                                            ++ (header_field (lit "is_fragment")
                                                  (true_false (is_message_fragment m))
                                                ++ lit "    </header>\n    <data>\n")))))))))))

abbrev pub footer : Outcome (Unit {0}) → List Piece
footer (done t m) = narrow (lit "    </data>\n</message>\n") ∷ []
footer (throws e m) = []
footer aborts = []
footer faults = []
footer running = []

module _ (point_text : Bool → ℕ → ℕ → Text) (host : Host) where
  -- What the case of a value writes. The signed characters of a byte and of a `char` are written as
  -- such, a `wchar_t` as a number.
  unfoldable pub element : Format → Value → Piece
  element f (bool b) = narrow (open_tag (lit "bool") (true_false b ++ close_tag (lit "bool")))
  element f (byte v) = narrow (open_tag (lit "byte") (v ∷ close_tag (lit "byte")))
  element f (short v) =
      narrow (open_tag (lit "short") (signed f.hex 16 v (close_tag (lit "short"))))
  element f (int v) = narrow (open_tag (lit "int") (signed f.hex 32 v (close_tag (lit "int"))))
  element f (long v) = narrow (open_tag (lit "long") (signed f.hex 32 v (close_tag (lit "long"))))
  element f (long_long v) =
      narrow (open_tag (lit "long_long") (signed f.hex 64 v (close_tag (lit "long_long"))))
  element f (float v) =
      narrow (open_tag (lit "float") (point_text true 32 v ++ close_tag (lit "float")))
  element f (double v) =
      narrow (open_tag (lit "double") (point_text f.fixed 64 v ++ close_tag (lit "double")))
  element f (char v) = narrow (open_tag (lit "char") (v ∷ close_tag (lit "char")))
  element f (wchar v) =
      narrow (open_tag (lit "wchar") (signed f.hex 32 v (close_tag (lit "wchar"))))
  element f (string s) = narrow (open_tag (lit "string") (s ++ close_tag (lit "string")))
  element f (wstring s) = wide (open_tag (lit "wstring") (s ++ close_tag (lit "wstring")))
  element f (time v) = narrow (time_or_none f.hex (host.gmtime v))
  element f (duration v) =
      narrow (open_tag (lit "duration") (unsigned f.hex v (close_tag (lit "duration"))))

  -- The values in order, with the flags that stay.
  unfoldable pub elements : Format → List Value → List Piece × Format
  elements f [] = ([], f)
  elements f (v ∷ vs) = let rest = elements (format_after f v) vs in (element f v ∷ rest.0, rest.1)

  -- The whole function: what it writes, with the flags of the stream before it, and how it ends.
  unfoldable pub debug_message_print : ℕ → Format → Message → List Piece × Outcome (Unit {0})
  debug_message_print fuel f m =
      let (values, outcome) = print_loop host fuel m in
      (narrow (header_text f m) ∷ ((elements f values).0 ++ footer outcome), outcome)
