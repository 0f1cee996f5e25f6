-- ===== src/Connection/Socket/Reach.antt =====
-- The states that a `Connection` can come to by calls of its functions, whatever the system calls
-- return.
use kcmsg.Prelude.{ℕ, ◌≡◌, ◌≢◌, ◌⊎◌, true, false, List, [], Option, none, some, arith}
use kcmsg.Prelude.Text.{Text}
use kcmsg.Connection.Socket.{
  Connection, Called, gives, fails, asserts, is_family, is_negative, addr_length, open_connection,
  resolve_host, resolve_host_wide, set_address_text, set_address_number, set_service_text,
  set_service_number, set_listener_queue_size, get_descriptor, accept, bind, listen, connect,
}

-- The connection that a call leaves behind, whether it returns or throws.
abbrev pub left_by : {A : Type 0} → Called A → Option Connection
left_by (gives a c) = some c
left_by (fails c) = some c
left_by asserts = none

pub data Step (c c' : Connection) : Type 0 where
  resolving : (res : ℕ) (addr : List ℕ) → left_by (resolve_host res addr c) ≡ some c' → Step c c'
  resolving_wide :
      (host service : List ℕ) → left_by (resolve_host_wide host service c) ≡ some c' → Step c c'
  addressing : (a : Text) → set_address_text a c ≡ c' → Step c c'
  addressing_number : (a : ℕ) → set_address_number a c ≡ c' → Step c c'
  serving : (p : Text) → set_service_text p c ≡ c' → Step c c'
  serving_number : (p : ℕ) → set_service_number p c ≡ c' → Step c c'
  sizing : (s : ℕ) → set_listener_queue_size s c ≡ c' → Step c c'
  accepting : (result errno : ℕ) → left_by (accept result errno c) ≡ some c' → Step c c'
  binding : (result : ℕ) → left_by (bind result c) ≡ some c' → Step c c'
  listening : (result : ℕ) → left_by (listen result c) ≡ some c' → Step c c'
  connecting : (result : ℕ) → left_by (connect result c) ≡ some c' → Step c c'

-- From the constructor on.
pub data Reach : Connection → Type 0 where
  opened :
      (socket : ℕ → ℕ → ℕ → ℕ) (fam t p maxthreads : ℕ) (c : Connection)
      → left_by (open_connection socket fam t p maxthreads) ≡ some c
      → Reach c
  next : {c c' : Connection} → Reach c → Step c c' → Reach c'

-- The family is one of the two supported, the length of the address is that of the family, and
-- the list of clients is empty.
pub record IsValid (c : Connection) : Type 0 where
  pub supported : is_family c.family ≡ true
  pub sized : c.conn.addr.length ≡ addr_length c.family
  pub no_clients : ◌≡◌ c.clients []

open_connection-IsValid :
    (socket : ℕ → ℕ → ℕ → ℕ) (fam t p maxthreads : ℕ) (c : Connection)
    → left_by (open_connection socket fam t p maxthreads) ≡ some c
    → IsValid c
unfolding open_connection
open_connection-IsValid socket fam t p maxthreads c e = ground arith

Step-IsValid : {c c' : Connection} → Step c c' → IsValid c → IsValid c'
unfolding resolve_host resolve_host_wide set_address_text set_address_number set_service_text
    set_service_number set_listener_queue_size accept bind listen connect addr_length
Step-IsValid (resolving res addr e) v = ground arith
Step-IsValid (resolving_wide host service e) v = ground arith
Step-IsValid (addressing a e) v = ground arith
Step-IsValid (addressing_number a e) v = ground arith
Step-IsValid (serving p e) v = ground arith
Step-IsValid (serving_number p e) v = ground arith
Step-IsValid (sizing s e) v = ground arith
Step-IsValid (accepting result errno e) v = ground arith
Step-IsValid (binding result e) v = ground arith
Step-IsValid (listening result e) v = ground arith
Step-IsValid (connecting result e) v = ground arith

-- Every connection that calls can lead to has a supported family and an address of its length, and
-- no client: `Accept` never adds one.
pub Reach-IsValid : {c : Connection} → Reach c → IsValid c
Reach-IsValid (opened socket fam t p maxthreads c e) =
    open_connection-IsValid socket fam t p maxthreads c e
Reach-IsValid (next r s) = Step-IsValid s (Reach-IsValid r)

-- `Accept` returns true whether or not the call has accepted a client, as `errno` is not 0 after
-- a failure, and leaves the connection as it is: the descriptor of the client is lost.
pub accept-true :
    (result errno : ℕ) (c : Connection)
    → (is_negative result ≡ false) ⊎ (errno ≢ 0)
    → accept result errno c ≡ gives true c
unfolding accept
accept-true result errno c h = ground arith

-- After `Connect`, whether it returns or throws, `getDescriptor` gives the result of the call, 0
-- or -1, in place of the socket's descriptor.
pub connect_descriptor :
    (result : ℕ) (c c' : Connection)
    → left_by (connect result c) ≡ some c'
    → get_descriptor c' ≡ result
unfolding connect get_descriptor
connect_descriptor result c c' e = ground arith
