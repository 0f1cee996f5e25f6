-- ===== src/Connection/Address/Tests.antt =====
-- Texts of `formatErrno` and `formatAddress` (src/Connection.cpp).
use kcmsg.Prelude.{ℕ, ◌-◌, ◌^◌, ◌≡◌, refl, List, [], ◌∷◌, Option, some, arith}
use kcmsg.Prelude.Text.{Text, lit, decimal, numeral_onto}
use kcmsg.Connection.Errno.{format_errno, errno_text}
use kcmsg.Connection.Errno.RoundTrip.{errno_in, errno_in-format_errno}
use kcmsg.Connection.Socket.{Connection, gives, af_inet, resolve_host, with_addr}
use kcmsg.Connection.Address.{format_address}
use kcmsg.Connection.Address.Resolved.{
  Address, ipv4, sockaddr, described, format_address-resolve_host,
}

enoent_text : format_errno 2 ≡ lit "ERRNO: (2) \"ENOENT - No such file or directory\""
unfolding format_errno errno_text numeral_onto
enoent_text = refl

unknown_text : format_errno (2 ^ 32 - 34) ≡ lit "ERRNO: (-34) \"UNKNOWN - UNKNOWN errno value\""
unfolding format_errno errno_text numeral_onto
unknown_text = refl

number_in_text : errno_in (format_errno 110) ≡ 110
number_in_text = errno_in-format_errno 110 (omega arith)

-- The four numbers of an address, with dots.
abbrev dotted_numbers : List ℕ → Text
dotted_numbers [] = []
dotted_numbers (n ∷ []) = decimal n []
dotted_numbers (n ∷ m ∷ ns) = decimal n (b'.' ∷ dotted_numbers (m ∷ ns))

abbrev ntop : ℕ → List ℕ → Option Text
ntop family bytes = some (dotted_numbers bytes)

abbrev fresh : Connection
fresh = record {
  listen_max = 5;
  family = af_inet;
  protocol_type = 1;
  protocol = 6;
  conn = record { fd = 3; addr = record { length = 16; addr = λ _. 0; port = 0 } };
  clients = [];
}

-- 127.0.0.1, port 8080
abbrev localhost : Address
localhost = ipv4 8080 (127 ∷ 0 ∷ 0 ∷ 1 ∷ [])

abbrev resolved : Connection
resolved = with_addr 16 (sockaddr localhost) fresh

fresh-resolved : resolve_host 0 (sockaddr localhost) fresh ≡ gives 0 resolved
unfolding resolve_host
fresh-resolved = refl

localhost_text : described ntop localhost ≡ some (lit "AF_INET: HOST(127.0.0.1) PORT(8080)")
unfolding numeral_onto
localhost_text = refl

localhost-described : format_address ntop resolved ≡ described ntop localhost
localhost-described =
    format_address-resolve_host ntop localhost fresh resolved (omega arith, refl) refl
      fresh-resolved
