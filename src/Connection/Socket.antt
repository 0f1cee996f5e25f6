-- ===== src/Connection/Socket.antt =====
-- The state of a `Connection` and the functions of src/Connection.cpp that make one system call
-- each. A call's result is an argument, as the manual pages give it: an `int` by the pattern of its
-- 32 bits, with `errno`. The numbers of the protocols are those of Linux.
pub mod Reach
use kcmsg.Prelude.{ℕ, ◌+◌, ◌^◌, Bool, true, List, [], take, ◌==◌, leb, ◌&&◌, ◌||◌, if◌then◌else◌}
use mathlib.Core.Bool.{not}
use kcmsg.Prelude.Text.{Text}
use kcmsg.Buffer.{Buffer, store}

abbrev pub af_inet : ℕ
af_inet = 2

abbrev pub af_inet6 : ℕ
af_inet6 = 10

abbrev pub max_addr_len : ℕ
max_addr_len = 104

pub record AddrStorage : Type 0 where
  pub length : ℕ
  pub addr : Buffer
  pub port : ℕ

pub record ConnectionStorage : Type 0 where
  pub fd : ℕ
  pub addr : AddrStorage

pub record Connection : Type 0 where
  pub listen_max : ℕ
  pub family : ℕ
  pub protocol_type : ℕ
  pub protocol : ℕ
  pub conn : ConnectionStorage
  pub clients : List ConnectionStorage

-- A call returns, throws `std::ios_base::failure`, or fails an assertion.
pub data Called (A : Type 0) : Type 0 where
  gives : A → Connection → Called A
  fails : Connection → Called A
  asserts : Called A

-- A negative `int`.
abbrev pub is_negative : ℕ → Bool
is_negative n = leb (2 ^ 31) n

abbrev pub is_family : ℕ → Bool
is_family fam = fam == af_inet || fam == af_inet6

-- SOCK_STREAM, SOCK_DGRAM, SOCK_SEQPACKET, SOCK_RAW
abbrev pub is_type : ℕ → Bool
is_type t = t == 1 || (t == 2 || (t == 5 || t == 3))

-- IPPROTO_TCP, IPPROTO_UDP, IPPROTO_SCTP
abbrev pub is_protocol : ℕ → Bool
is_protocol p = p == 6 || (p == 17 || p == 132)

-- The `switch` on the family, in the constructor and in `Accept`.
unfoldable pub addr_length : ℕ → ℕ
addr_length fam = if fam == af_inet then 16 else if fam == af_inet6 then 28 else 1 + max_addr_len

abbrev pub with_addr : ℕ → List ℕ → Connection → Connection
with_addr n bs c = record c {
  conn = record c.conn {
    addr = record c.conn.addr { length = n; addr = store c.conn.addr.addr 0 bs };
  };
}

-- The constructor, with what `socket` returns for the three numbers.
unfoldable pub open_connection : (ℕ → ℕ → ℕ → ℕ) → ℕ → ℕ → ℕ → ℕ → Called (Unit {0})
unfolding addr_length
open_connection socket fam t p maxthreads =
    if is_family fam && (is_type t && is_protocol p)
    then gives tt (record {
      listen_max = maxthreads;
      family = fam;
      protocol_type = t;
      protocol = p;
      conn = record {
        fd = socket fam t p;
        addr = record { length = addr_length fam; addr = λ _. 0; port = 0 };
      };
      clients = [];
    })
    else asserts

-- `resolveHost`, with what `getaddrinfo` returns: a number, and on 0 the bytes of the address.
unfoldable pub resolve_host : ℕ → List ℕ → Connection → Called ℕ
resolve_host res ai_addr c =
    if res == 0
    then gives res (
        if c.family == af_inet
        then with_addr 16 (take 16 ai_addr) c
        else if c.family == af_inet6
        then with_addr 28 (take 28 ai_addr) c
        else c)
    else fails c

-- What `resolveHost` asks for: AI_CANONNAME and AI_ADDRCONFIG, and the members of the connection.
pub record Hints : Type 0 where
  pub ai_flags : ℕ
  pub ai_family : ℕ
  pub ai_socktype : ℕ
  pub ai_protocol : ℕ

unfoldable pub hints_of : Connection → Hints
hints_of c = record {
  ai_flags = 0x22;
  ai_family = c.family;
  ai_socktype = c.protocol_type;
  ai_protocol = c.protocol;
}

-- With `getaddrinfo` as a function of the names and the hints.
unfoldable pub resolve_named :
    (Text → Text → Hints → ℕ × List ℕ) → Text → Text → Connection → Called ℕ
unfolding hints_of resolve_host
resolve_named getaddrinfo host service c =
    let (res, ai_addr) = getaddrinfo host service (hints_of c) in resolve_host res ai_addr c

-- The functions whose bodies are empty, or return a constant.
unfoldable pub resolve_host_wide : List ℕ → List ℕ → Connection → Called ℕ
resolve_host_wide host service c = gives 0 c

unfoldable pub set_address_text : Text → Connection → Connection
set_address_text a c = c

unfoldable pub set_address_number : ℕ → Connection → Connection
set_address_number a c = c

unfoldable pub set_service_text : Text → Connection → Connection
set_service_text p c = c

unfoldable pub set_service_number : ℕ → Connection → Connection
set_service_number p c = c

unfoldable pub is_validate_address : Text → Bool
is_validate_address a = true

unfoldable pub is_validate_port_text : Text → Bool
is_validate_port_text p = true

unfoldable pub is_validate_port_number : ℕ → Bool
is_validate_port_number p = true

unfoldable pub set_listener_queue_size : ℕ → Connection → Connection
set_listener_queue_size s c = record c { listen_max = s }

unfoldable pub get_descriptor : Connection → ℕ
get_descriptor c = c.conn.fd

-- `Accept`, with what `accept` returns and the number in `errno`; the function returns a `bool`.
-- The storage of the client is local.
unfoldable pub accept : ℕ → ℕ → Connection → Called Bool
accept result errno c = if is_negative result then gives (not (errno == 0)) c else gives true c

-- `Bind` and `Listen`, with what `bind` and `listen` return.
unfoldable pub bind : ℕ → Connection → Called (Unit {0})
bind result c = if is_negative result then fails c else gives tt c

unfoldable pub listen : ℕ → Connection → Called (Unit {0})
listen result c = if is_negative result then fails c else gives tt c

-- `Connect`, with what `connect` returns: the member `fd` takes it.
unfoldable pub connect : ℕ → Connection → Called (Unit {0})
connect result c =
    let c' = record c { conn = record c.conn { fd = result } } in
    if is_negative result then fails c' else gives tt c'

-- `Close` and `Shutdown` hand their arguments to the system and drop what it returns. The system
-- is any state, with `close` and `shutdown` as its steps.
module _ {S : Type 0} where
  unfoldable pub close_socket : (ℕ → S → S) → ℕ → S → S
  close_socket close sockfd s = close sockfd s

  unfoldable pub shutdown_socket : (ℕ → ℕ → S → S) → ℕ → ℕ → S → S
  shutdown_socket shutdown sockfd howto s = shutdown sockfd howto s
