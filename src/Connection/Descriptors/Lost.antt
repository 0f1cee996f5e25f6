-- ===== src/Connection/Descriptors/Lost.antt =====
-- The descriptors that a program with a `Connection` (src/Connection.cpp) can never close.
use kcmsg.Prelude.{ℕ, ◌≡◌, ◌≢◌, sym, ◌∙◌, true, false, List, [], ◌∷◌, arith, inl, inr}
use mathlib.Core.Path.{subst}
use kcmsg.Connection.Socket.{
  Connection, accept, bind, listen, connect, close_socket, shutdown_socket, get_descriptor,
  is_negative,
}
use kcmsg.Connection.Sockets.{Sockets}
use kcmsg.Connection.Descriptors.{
  Process, Call, accepting, binding, listening, connecting, closing, shutting, after, accept_in,
  bind_in, listen_in, connect_in, close_in, shutdown_in, step, run, IsLost,
}

accept-fd :
    (result errno : ℕ) (c : Connection) → (after c (accept result errno c)).conn.fd ≡ c.conn.fd
unfolding accept
accept-fd result errno c = ground arith

bind-fd : (result : ℕ) (c : Connection) → (after c (bind result c)).conn.fd ≡ c.conn.fd
unfolding bind
bind-fd result c = ground arith

listen-fd : (result : ℕ) (c : Connection) → (after c (listen result c)).conn.fd ≡ c.conn.fd
unfolding listen
listen-fd result c = ground arith

connect-fd : (result : ℕ) (c : Connection) → (after c (connect result c)).conn.fd ≡ result
unfolding connect
connect-fd result c = ground arith

module _ (o : Sockets) (d : ℕ) where
  open o use {
    is_open, accept_keeps, bind_keeps, listen_keeps, connect_keeps, connect_result, close_lem,
    shutdown_keeps, accept_call, bind_call, listen_call, connect_call,
  }

  step-IsLost : (call : Call) (p : Process o) → IsLost o d p → IsLost o d (step o call p)
  unfolding step accept_in bind_in listen_in connect_in close_in shutdown_in close_socket
      shutdown_socket get_descriptor
  step-IsLost (accepting errno) p l = record {
    open_still = accept_keeps p.system p.connection.conn.fd d l.open_still;
    not_own = λ e.
        l.not_own
          (sym (accept-fd ((accept_call p.system p.connection.conn.fd).0) errno p.connection) ∙ e);
    no_result = l.no_result;
  }
  step-IsLost binding p l = record {
    open_still = bind_keeps p.system p.connection.conn.fd d ∙ l.open_still;
    not_own = λ e.
        l.not_own (sym (bind-fd ((bind_call p.system p.connection.conn.fd).0) p.connection) ∙ e);
    no_result = l.no_result;
  }
  step-IsLost listening p l = record {
    open_still =
        listen_keeps p.system p.connection.conn.fd p.connection.listen_max d ∙ l.open_still;
    not_own = λ e. l.not_own (
        sym (
          listen-fd ((listen_call p.system p.connection.conn.fd p.connection.listen_max).0)
            p.connection)
        ∙ e);
    no_result = l.no_result;
  }
  step-IsLost connecting p l = record {
    open_still = connect_keeps p.system p.connection.conn.fd d ∙ l.open_still;
    not_own = λ e.
        let result : (connect_call p.system p.connection.conn.fd).0 ≡ d =
          sym (connect-fd ((connect_call p.system p.connection.conn.fd).0) p.connection) ∙ e in
        elim (connect_result p.system p.connection.conn.fd) [
          | inl zero_result ↦ l.no_result.0 (sym result ∙ zero_result)
          | inr failed ↦ l.no_result.1 (sym result ∙ failed)
        ];
    no_result = l.no_result;
  }
  step-IsLost closing p l = record {
    open_still =
        close_lem p.system p.connection.conn.fd d ∙ ground (arith, l.not_own, l.open_still);
    not_own = l.not_own;
    no_result = l.no_result;
  }
  step-IsLost (shutting how) p l = record {
    open_still = shutdown_keeps p.system p.connection.conn.fd how d ∙ l.open_still;
    not_own = l.not_own;
    no_result = l.no_result;
  }

  pub run-IsLost : (calls : List Call) (p : Process o) → IsLost o d p → IsLost o d (run o calls p)
  unfolding run
  run-IsLost [] p l = l
  run-IsLost (call ∷ calls) p l = run-IsLost calls (step o call p) (step-IsLost call p l)

module _ (o : Sockets) (p : Process o) where
  open o use {
    is_open, accept_call, connect_call, accept_on, accept_fresh, accept_opens, connect_keeps,
    close_lem,
  }

  accepted-IsLost :
      (errno : ℕ)
      → is_open p.system 0 ≡ true
      → is_negative ((accept_call p.system p.connection.conn.fd).0) ≡ false
      → IsLost o ((accept_call p.system p.connection.conn.fd).0) (accept_in o errno p)
  unfolding accept_in
  accepted-IsLost errno input success =
      let own = p.connection.conn.fd in
      let client = (accept_call p.system own).0 in
      let was_shut = accept_fresh p.system own success in
      let kept = accept-fd client errno p.connection in
      record {
        open_still = accept_opens p.system own success;
        not_own = λ e.
            let same : own ≡ client = sym kept ∙ e in
            let opened : is_open p.system client ≡ true =
              subst (λ (i : ℕ). is_open p.system i ≡ true) same (accept_on p.system own success) in
            cc;
        no_result = (
          λ e.
              let opened : is_open p.system client ≡ true =
                subst (λ (i : ℕ). is_open p.system i ≡ true) (sym e) input in
              cc,
          λ e. ground arith,
        );
      }

  -- `accept` returns a descriptor for a client, with the standard input open. The program then
  -- makes any calls of `Accept`, `Bind`, `Listen` and `Connect`, and of `Close` and `Shutdown` with
  -- what `getDescriptor` gives: the client's descriptor stays open and is never the one that
  -- `getDescriptor` gives.
  pub accept_in-lost :
      (errno : ℕ) (calls : List Call)
      → is_open p.system 0 ≡ true
      → is_negative ((accept_call p.system p.connection.conn.fd).0) ≡ false
      → (is_open
            (run o calls (accept_in o errno p)).system
            ((accept_call p.system p.connection.conn.fd).0)
          ≡ true)
        × (get_descriptor (run o calls (accept_in o errno p)).connection
            ≢ (accept_call p.system p.connection.conn.fd).0)
  unfolding get_descriptor
  accept_in-lost errno calls input success =
      let lost =
        run-IsLost o ((accept_call p.system p.connection.conn.fd).0) calls (accept_in o errno p)
          (accepted-IsLost errno input success) in
      (lost.open_still, lost.not_own)

  -- After a successful `Connect` on an open descriptor other than the standard input, that
  -- descriptor stays open whatever calls follow of `Accept`, `Bind`, `Listen` and `Connect`, and of
  -- `Close` and `Shutdown` with what `getDescriptor` gives, and `getDescriptor` never gives it
  -- again; `Close(getDescriptor())` right after it closes the standard input.
  pub connect_in-lost :
      (calls : List Call)
      → is_open p.system p.connection.conn.fd ≡ true
      → p.connection.conn.fd ≢ 0
      → is_negative p.connection.conn.fd ≡ false
      → (connect_call p.system p.connection.conn.fd).0 ≡ 0
      → (is_open (run o calls (connect_in o p)).system p.connection.conn.fd ≡ true)
        × (get_descriptor (run o calls (connect_in o p)).connection ≢ p.connection.conn.fd)
        × (is_open (close_in o (connect_in o p)).system 0 ≡ false)
  unfolding get_descriptor connect_in close_in close_socket
  connect_in-lost calls opened other small success =
      let own = p.connection.conn.fd in
      let now : (connect_in o p).connection.conn.fd ≡ 0 =
        connect-fd ((connect_call p.system own).0) p.connection ∙ success in
      let lost = run-IsLost o own calls (connect_in o p) (record {
        open_still = connect_keeps p.system own own ∙ opened;
        not_own = λ e. other (sym e ∙ now);
        no_result = (other, λ e. ground arith);
      }) in
      (
        lost.open_still,
        lost.not_own,
        close_lem (connect_in o p).system (connect_in o p).connection.conn.fd 0 ∙ ground arith,
      )
