-- ===== src/Connection/Descriptors/Tests.antt =====
-- A process whose descriptors are a set, with one more to be had, and the theorems at it.
use kcmsg.Prelude.{
  ℕ, ◌≡◌, ◌≢◌, ◌⊎◌, inl, inr, refl, Bool, true, false, List, [], ◌∷◌, arith, ◌==◌, if◌then◌else◌,
  Bool-cases,
}
use kcmsg.Connection.Socket.{af_inet, is_negative, get_descriptor}
use kcmsg.Connection.Sockets.{Sockets, failure}
use kcmsg.Connection.Descriptors.{
  Process, Call, accepting, connecting, closing, shutting, run, accept_in, connect_in, close_in,
}
use kcmsg.Connection.Descriptors.Lost.{accept_in-lost, connect_in-lost}

abbrev Set : Type 0
Set = ℕ → Bool

-- `accept` gives the descriptor 4, unless that is open.
abbrev accept_four : Set → ℕ → ℕ × Set
accept_four s fd =
    if s fd
    then (if s 4 then (failure, s) else (4, λ i. if i == 4 then true else s i))
    else (failure, s)

abbrev connect_open : Set → ℕ → ℕ × Set
connect_open s fd = if s fd then (0, s) else (failure, s)

four_on : (s : Set) (fd : ℕ) → is_negative ((accept_four s fd).0) ≡ false → s fd ≡ true
four_on s fd e = ground arith

four_fresh :
    (s : Set) (fd : ℕ)
    → is_negative ((accept_four s fd).0) ≡ false
    → s ((accept_four s fd).0) ≡ false
four_fresh s fd e = ground arith

four_opens :
    (s : Set) (fd : ℕ)
    → is_negative ((accept_four s fd).0) ≡ false
    → ((accept_four s fd).1) ((accept_four s fd).0) ≡ true
four_opens s fd e = ground arith

four_keeps : (s : Set) (fd i : ℕ) → s i ≡ true → ((accept_four s fd).1) i ≡ true
four_keeps s fd i e = ground arith

connect_keeps_set : (s : Set) (fd i : ℕ) → ((connect_open s fd).1) i ≡ s i
connect_keeps_set s fd i = ground arith

connect_results :
    (s : Set) (fd : ℕ) → ((connect_open s fd).0 ≡ 0) ⊎ ((connect_open s fd).0 ≡ failure)
connect_results s fd = elim (Bool-cases (s fd)) [
  | inl e ↦ rw e (inl refl)
  | inr e ↦ rw e (inr refl)
]

abbrev sockets : Sockets
sockets = record {
  System = Set;
  is_open = λ s i. s i;
  accept_call = accept_four;
  bind_call = λ s fd. (0, s);
  listen_call = λ s fd n. (0, s);
  connect_call = connect_open;
  close_call = λ fd s i. if i == fd then false else s i;
  shutdown_call = λ fd how s. s;
  accept_on = four_on;
  accept_fresh = four_fresh;
  accept_opens = four_opens;
  accept_keeps = four_keeps;
  bind_keeps = λ s fd i. refl;
  listen_keeps = λ s fd n i. refl;
  connect_keeps = connect_keeps_set;
  connect_result = connect_results;
  close_lem = λ s fd i. refl;
  shutdown_keeps = λ s fd how i. refl;
}

abbrev three_open : Set
three_open i = if i == 0 then true else i == 3

abbrev process : Process sockets
process = record {
  system = three_open;
  connection = record {
    listen_max = 5;
    family = af_inet;
    protocol_type = 1;
    protocol = 6;
    conn = record { fd = 3; addr = record { length = 16; addr = λ _. 0; port = 0 } };
    clients = [];
  };
}

abbrev calls : List Call
calls = shutting 2 ∷ closing ∷ connecting ∷ accepting 11 ∷ closing ∷ []

accept_in-lost_example :
    ((run sockets calls (accept_in sockets 0 process)).system 4 ≡ true)
    × (get_descriptor (run sockets calls (accept_in sockets 0 process)).connection ≢ 4)
accept_in-lost_example = accept_in-lost sockets process 0 calls refl refl

socket_lost :
    ((run sockets calls (connect_in sockets process)).system 3 ≡ true)
    × (get_descriptor (run sockets calls (connect_in sockets process)).connection ≢ 3)
    × ((close_in sockets (connect_in sockets process)).system 0 ≡ false)
socket_lost = connect_in-lost sockets process calls refl (omega arith) refl refl
