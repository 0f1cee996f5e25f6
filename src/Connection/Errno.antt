-- ===== src/Connection/Errno.antt =====
-- `Connection::formatErrno` of src/Connection.cpp. An error number is an `int`, by the pattern of its
-- 32 bits.
pub mod Table
pub mod RoundTrip
use kcmsg.Prelude.{ℕ, List, [], ◌∷◌, ◌++◌, ◌==◌, if◌then◌else◌}
use kcmsg.Prelude.Text.{Text, lit, signed_decimal}
use kcmsg.Connection.Errno.Table.{file_errnos, system_errnos, socket_errnos}

-- A `switch` over the cases, with its `default`.
abbrev pub case_of : ℕ → Text → List (ℕ × Text) → Text
case_of err otherwise [] = otherwise
case_of err otherwise ((n, text) ∷ cases) =
    let rest = case_of err otherwise cases in if n == err then text else rest

unfoldable pub errno_text : ℕ → Text
errno_text err =
    case_of err (lit "UNKNOWN - UNKNOWN errno value")
      (file_errnos ++ (system_errnos ++ socket_errnos))

unfoldable pub format_errno : ℕ → Text
unfolding errno_text
format_errno err =
    lit "ERRNO: (" ++ signed_decimal 32 err (lit ") \"" ++ (errno_text err ++ (b'"' ∷ [])))
