-- ===== src/Connection/Address/Resolved.antt =====
-- `formatAddress` after `resolveHost` (src/Connection.cpp), on the addresses of the two families.
use kcmsg.Prelude.{
  ℕ, ◌+◌, ◌/◌, ◌%◌, ◌^◌, ◌<◌, ◌≡◌, refl, ap, List, [], ◌∷◌, ◌++◌, Option, arith, length, replicate,
  take, length-append, sym, ◌∙◌,
}
use mathlib.Core.List.{append_assoc}
use kcmsg.Prelude.Bytes.{le_value}
use kcmsg.Prelude.Text.{Text, lit}
use kcmsg.Buffer.{Buffer, load, store, load-store_part}
use kcmsg.Connection.Socket.{Connection, gives, af_inet, af_inet6, resolve_host, with_addr}
use kcmsg.Connection.Address.{address_text, format_address, ntohs}

-- What a `sockaddr_in` and a `sockaddr_in6` stand for.
pub data Address : Type 0 where
  ipv4 : (port : ℕ) (host : List ℕ) → Address
  ipv6 : (port : ℕ) (flow host scope : List ℕ) → Address

abbrev pub family_of : Address → ℕ
family_of (ipv4 port host) = af_inet
family_of (ipv6 port flow host scope) = af_inet6

-- The two bytes of the family, on a little-endian host, and the port in network order.
abbrev front : ℕ → ℕ → List ℕ
front family port = family ∷ 0 ∷ port / 256 ∷ port % 256 ∷ []

abbrev pub sockaddr : Address → List ℕ
sockaddr (ipv4 port host) = front af_inet port ++ (host ++ replicate 8 0)
sockaddr (ipv6 port flow host scope) = front af_inet6 port ++ (flow ++ (host ++ scope))

abbrev pub IsAddress : Address → Type 0
IsAddress (ipv4 port host) = (port < 2 ^ 16) × (length host ≡ 4)
IsAddress (ipv6 port flow host scope) =
    (port < 2 ^ 16) × ((length flow ≡ 4) × ((length host ≡ 16) × (length scope ≡ 4)))

abbrev pub described : (ℕ → List ℕ → Option Text) → Address → Option Text
described inet_ntop (ipv4 port host) =
    address_text (lit "AF_INET: HOST(") (inet_ntop af_inet host) port
described inet_ntop (ipv6 port flow host scope) =
    address_text (lit "AF_INET6: HOST(") (inet_ntop af_inet6 host) port

take_all : (xs : List ℕ) → take (length xs) xs ≡ xs
take_all [] = refl
take_all (x ∷ xs) = ap (λ l. x ∷ l) (take_all xs)

take_length : (n : ℕ) (xs : List ℕ) → length xs ≡ n → take n xs ≡ xs
take_length n xs h = ap (λ k. take k xs) (sym h) ∙ take_all xs

-- The port and the host at their places in memory.
port_lem :
    (b : Buffer) (family port : ℕ) (rest : List ℕ)
    → port < 2 ^ 16
    → ntohs (le_value (load (store b 0 (front family port ++ rest)) 2 2)) ≡ port
unfolding ntohs
port_lem b family port rest h =
    let bytes = load-store_part b 0 (family ∷ 0 ∷ []) (port / 256 ∷ port % 256 ∷ []) rest in
    rw bytes (omega arith)

resolve_host-ipv4 :
    (bytes : List ℕ) (c : Connection)
    → length bytes ≡ 16
    → c.family ≡ af_inet
    → resolve_host 0 bytes c ≡ gives 0 (with_addr 16 bytes c)
unfolding resolve_host
resolve_host-ipv4 bytes c h f = rw (f, take_length 16 bytes h) refl

resolve_host-ipv6 :
    (bytes : List ℕ) (c : Connection)
    → length bytes ≡ 28
    → c.family ≡ af_inet6
    → resolve_host 0 bytes c ≡ gives 0 (with_addr 28 bytes c)
unfolding resolve_host
resolve_host-ipv6 bytes c h f = rw (f, take_length 28 bytes h) refl

length-sockaddr_ipv6 :
    (port : ℕ) (flow host scope : List ℕ)
    → IsAddress (ipv6 port flow host scope)
    → length (sockaddr (ipv6 port flow host scope)) ≡ 28
length-sockaddr_ipv6 port flow host scope (low, (f, (h, s))) = omega (
  arith,
  length-append (front af_inet6 port) (flow ++ (host ++ scope)),
  length-append flow (host ++ scope),
  length-append host scope,
)

-- After `resolveHost` has found an address of the connection's family, the text of `formatAddress`
-- names the family, the host and the port of this address.
pub format_address-resolve_host :
    (inet_ntop : ℕ → List ℕ → Option Text) (a : Address) (c c' : Connection)
    → IsAddress a
    → c.family ≡ family_of a
    → resolve_host 0 (sockaddr a) c ≡ gives 0 c'
    → format_address inet_ntop c' ≡ described inet_ntop a
unfolding format_address
format_address-resolve_host inet_ntop (ipv4 port host) c c' (low, h) f e =
    let size : length (sockaddr (ipv4 port host)) ≡ 16 = omega (
      arith,
      length-append (front af_inet port) (host ++ replicate 8 0),
      length-append host (replicate 8 0),
    ) in
    let after : with_addr 16 (sockaddr (ipv4 port host)) c ≡ c' =
      let known = resolve_host-ipv4 (sockaddr (ipv4 port host)) c size f in cc in
    let host_at = load-store_part c.conn.addr.addr 0 (front af_inet port) host (replicate 8 0) in
    let place = rw h at host_at in
    rw (← after, f, place, port_lem c.conn.addr.addr af_inet port (host ++ replicate 8 0) low) refl
format_address-resolve_host inet_ntop (ipv6 port flow host scope) c c' (low, (fl, (h, sc))) f e =
    let bytes = sockaddr (ipv6 port flow host scope) in
    let after : with_addr 28 bytes c ≡ c' =
      let size = length-sockaddr_ipv6 port flow host scope (low, (fl, (h, sc))) in
      let known = resolve_host-ipv6 bytes c size f in cc in
    let host_place : 0 + length (front af_inet6 port ++ flow) ≡ 8 =
      omega (arith, length-append (front af_inet6 port) flow) in
    let host_at = load-store_part c.conn.addr.addr 0 (front af_inet6 port ++ flow) host scope in
    let place = rw (h, host_place, append_assoc) at host_at in
    rw (← after, f, place, port_lem c.conn.addr.addr af_inet6 port (flow ++ (host ++ scope)) low)
      refl
