-- ===== src/NetworkInterface/Tests.antt =====
-- The constructor of src/NetworkInterface.cpp on two interfaces.
use kcmsg.Prelude.{ℕ, ◌≡◌, ◌≢◌, refl, true, none, some, arith, Option, if◌then◌else◌, ◌==◌}
use kcmsg.Buffer.{Buffer, load, store}
use kcmsg.NetworkInterface.{
  IfAddrs, NetworkInterface, construct_interface, copy_address, copy_destination, test_is_wireless,
}
use kcmsg.NetworkInterface.Address.{
  construct_interface-IsInterface, construct_interface-none, IsInterface,
}
use kcmsg.NetworkInterface.Copies.{full_entry, Keeps, construct_interface-Keeps}

-- 127.0.0.1, of family AF_INET
abbrev loopback : Buffer
loopback i = if i == 0 then 2 else if i == 4 then 127 else if i == 7 then 1 else 0

-- An interface with the flag IFF_UP.
abbrev entry : Option Buffer → IfAddrs
entry ifu = record {
  flags = 1;
  addr = some loopback;
  netmask = some loopback;
  ifu = ifu;
  data_ = none;
}

abbrev copied : Buffer
copied = store (λ i. 0) 0 (load loopback 0 16)

abbrev interface : NetworkInterface
interface = record {
  flags = 1;
  family = 2;
  network_address = copied;
  network_mask = copied;
  network_destination = copied;
  data_ = none;
  is_wireless = true;
  is_broadcast = true;
  is_bound = true;
}

interface-constructed : construct_interface 3 0 true (entry (some loopback)) ≡ some interface
unfolding construct_interface copy_address copy_destination test_is_wireless
interface-constructed = refl

construct_interface-IsInterface_example : IsInterface (entry (some loopback)) interface
construct_interface-IsInterface_example =
    construct_interface-IsInterface 3 0 true (entry (some loopback)) interface interface-constructed

one-nonzero : ◌≢◌ {A = ℕ} 1 0
one-nonzero e = absurd (omega arith)

null_broadcast : construct_interface 3 0 true (entry none) ≡ none
null_broadcast = construct_interface-none 3 0 true (entry none) refl one-nonzero refl

construct_interface-Keeps_example :
    (n : NetworkInterface) × (construct_interface 3 0 true
        (full_entry 1 loopback loopback loopback none)
      ≡ some n)
    × Keeps (full_entry 1 loopback loopback loopback none) loopback loopback loopback n
construct_interface-Keeps_example =
    construct_interface-Keeps 3 0 true 1 loopback loopback loopback none (omega arith)
