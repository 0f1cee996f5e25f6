-- ===== src/Connection/Sockets.antt =====
-- The system calls on sockets that `Connection` (src/Connection.cpp) makes besides `read` and
-- `write`, which the operating system provides, as an interface: what their manual pages say of
-- the descriptors that are open.
use kcmsg.Prelude.{ℕ, ◌≡◌, ◌⊎◌, Bool, true, false, ◌==◌, if◌then◌else◌}
use kcmsg.Connection.Socket.{is_negative}

-- -1 as an `int`.
abbrev pub failure : ℕ
failure = 0xffff_ffff

-- A call returns a descriptor or another `int`, and the system as it then is. On success `accept`
-- opens a descriptor that was not open; `connect` returns 0 or -1. Both fail on a descriptor
-- that is not open.
pub record Sockets : Type 1 where
  pub System : Type 0
  pub is_open : System → ℕ → Bool
  pub accept_call : System → ℕ → ℕ × System
  pub bind_call : System → ℕ → ℕ × System
  pub listen_call : System → ℕ → ℕ → ℕ × System
  pub connect_call : System → ℕ → ℕ × System
  pub close_call : ℕ → System → System
  pub shutdown_call : ℕ → ℕ → System → System
  pub accept_on :
      (s : System) (fd : ℕ) → is_negative ((accept_call s fd).0) ≡ false → is_open s fd ≡ true
  pub accept_fresh :
      (s : System) (fd : ℕ)
      → is_negative ((accept_call s fd).0) ≡ false
      → is_open s ((accept_call s fd).0) ≡ false
  pub accept_opens :
      (s : System) (fd : ℕ)
      → is_negative ((accept_call s fd).0) ≡ false
      → is_open ((accept_call s fd).1) ((accept_call s fd).0) ≡ true
  pub accept_keeps :
      (s : System) (fd i : ℕ) → is_open s i ≡ true → is_open ((accept_call s fd).1) i ≡ true
  pub bind_keeps : (s : System) (fd i : ℕ) → is_open ((bind_call s fd).1) i ≡ is_open s i
  pub listen_keeps : (s : System) (fd n i : ℕ) → is_open ((listen_call s fd n).1) i ≡ is_open s i
  pub connect_keeps : (s : System) (fd i : ℕ) → is_open ((connect_call s fd).1) i ≡ is_open s i
  pub connect_result :
      (s : System) (fd : ℕ) → ((connect_call s fd).0 ≡ 0) ⊎ ((connect_call s fd).0 ≡ failure)
  pub close_lem :
      (s : System) (fd i : ℕ)
      → is_open (close_call fd s) i ≡ (if i == fd then false else is_open s i)
  pub shutdown_keeps :
      (s : System) (fd how i : ℕ) → is_open (shutdown_call fd how s) i ≡ is_open s i
