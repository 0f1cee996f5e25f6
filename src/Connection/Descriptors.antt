-- ===== src/Connection/Descriptors.antt =====
-- Which descriptors stay open while a program works with a `Connection` (src/Connection.cpp): the
-- functions that make a system call, each with the call.
pub mod Lost
mod Tests
use kcmsg.Prelude.{
  ℕ, ◌^◌, ◌<◌, ◌≡◌, ◌≢◌, refl, ◌∙◌, Bool, true, false, List, [], ◌∷◌, arith, ◌⊎◌, inl, inr,
}
use kcmsg.Connection.Socket.{
  Connection, Called, gives, fails, asserts, accept, bind, listen, connect, close_socket,
  shutdown_socket, get_descriptor, is_negative,
}
use kcmsg.Connection.Sockets.{Sockets, failure}

-- The connection after a call, whether it returns or throws.
abbrev pub after : {A : Type 0} → Connection → Called A → Connection
after c (gives a c') = c'
after c (fails c') = c'
after c asserts = c

-- The program has no other descriptor to close than the one that `getDescriptor` gives.
pub data Call : Type 0 where
  accepting : ℕ → Call
  binding : Call
  listening : Call
  connecting : Call
  closing : Call
  shutting : ℕ → Call

module _ (o : Sockets) where
  open o use {
    System, is_open, accept_call, bind_call, listen_call, connect_call, close_call, shutdown_call,
  }

  pub record Process : Type 0 where
    pub system : System
    pub connection : Connection

  -- `errno` is what the call leaves there.
  unfoldable pub accept_in : ℕ → Process → Process
  accept_in errno p =
      let (result, s) = accept_call p.system p.connection.conn.fd in
      record { system = s; connection = after p.connection (accept result errno p.connection) }

  unfoldable pub bind_in : Process → Process
  bind_in p =
      let (result, s) = bind_call p.system p.connection.conn.fd in
      record { system = s; connection = after p.connection (bind result p.connection) }

  unfoldable pub listen_in : Process → Process
  listen_in p =
      let (result, s) = listen_call p.system p.connection.conn.fd p.connection.listen_max in
      record { system = s; connection = after p.connection (listen result p.connection) }

  unfoldable pub connect_in : Process → Process
  connect_in p =
      let (result, s) = connect_call p.system p.connection.conn.fd in
      record { system = s; connection = after p.connection (connect result p.connection) }

  -- `Close(getDescriptor())`
  unfoldable pub close_in : Process → Process
  close_in p = record p { system = close_socket close_call (get_descriptor p.connection) p.system }

  unfoldable pub shutdown_in : ℕ → Process → Process
  shutdown_in how p = record p {
    system = shutdown_socket shutdown_call (get_descriptor p.connection) how p.system;
  }

  unfoldable pub step : Call → Process → Process
  step (accepting errno) p = accept_in errno p
  step binding p = bind_in p
  step listening p = listen_in p
  step connecting p = connect_in p
  step closing p = close_in p
  step (shutting how) p = shutdown_in how p

  unfoldable pub run : List Call → Process → Process
  run [] p = p
  run (call ∷ calls) p = run calls (step call p)

  -- An open descriptor that is neither the connection's nor one that `connect` may put there.
  pub record IsLost (d : ℕ) (p : Process) : Type 0 where
    pub open_still : is_open p.system d ≡ true
    pub not_own : p.connection.conn.fd ≢ d
    pub no_result : (d ≢ 0) × (d ≢ failure)
