-- ===== src/Connection/Address.antt =====
-- `Connection::formatAddress` of src/Connection.cpp: the text for the address that the connection
-- holds. `inet_ntop` is a parameter: the text for a family and the bytes of an address, or none for
-- a null pointer, which the code appends.
pub mod Resolved
mod Tests
use kcmsg.Prelude.{
  ℕ, ◌+◌, ◌*◌, ◌/◌, ◌%◌, List, [], ◌∷◌, ◌++◌, Option, none, some, ◌==◌, if◌then◌else◌,
}
use kcmsg.Prelude.Bytes.{le_value}
use kcmsg.Prelude.Text.{Text, lit, decimal}
use kcmsg.Buffer.{Buffer, load}
use kcmsg.Connection.Socket.{Connection, af_inet, af_inet6}

-- On a little-endian host.
unfoldable pub ntohs : ℕ → ℕ
ntohs n = n % 256 * 256 + n / 256

-- The text with a host's name and a port.
abbrev pub address_text : Text → Option Text → ℕ → Option Text
address_text name none port = none
address_text name (some host) port =
    some (name ++ (host ++ (lit ") PORT(" ++ decimal port (b')' ∷ []))))

module _ (inet_ntop : ℕ → List ℕ → Option Text) where
  unfoldable pub format_address : Connection → Option Text
  unfolding ntohs
  format_address c =
      let addr = c.conn.addr.addr in
      let port = ntohs (le_value (load addr 2 2)) in
      if c.family == af_inet
      then address_text (lit "AF_INET: HOST(") (inet_ntop af_inet (load addr 4 4)) port
      else if c.family == af_inet6
      then address_text (lit "AF_INET6: HOST(") (inet_ntop af_inet6 (load addr 8 16)) port
      else some (lit "Unsupported protocol family")
