-- ===== src/Connection/Errno/RoundTrip.antt =====
-- The error number can be read back from the text of `formatErrno` (src/Connection.cpp).
use kcmsg.Prelude.{ℕ, ◌^◌, ◌<◌, ◌≡◌, ◌≢◌, refl, arith, drop}
use kcmsg.Prelude.Text.{Text, signed_number_in, signed_number_in-signed_decimal}
use kcmsg.Connection.Errno.{format_errno}

-- The number behind `ERRNO: (`.
abbrev pub errno_in : Text → ℕ
errno_in s = signed_number_in 32 (drop 8 s)

closing_unsigned : ◌≢◌ {A = ℕ} b')' b'-'
closing_unsigned e = absurd (omega arith)

-- Whatever the error number is, negative ones and those that the function has no name for included,
-- the decimal number in parentheses at the front of the text is the error number.
pub errno_in-format_errno : (err : ℕ) → err < 2 ^ 32 → errno_in (format_errno err) ≡ err
unfolding format_errno
errno_in-format_errno err h =
    signed_number_in-signed_decimal 32 err _ (omega arith) h (λ k. refl) closing_unsigned
