-- ===== src/NetworkInterface/Probe/Tests.antt =====
-- The constructor of src/NetworkInterface.cpp in a system that hands out the descriptors in order.
use kcmsg.Prelude.{
  ℕ, ◌+◌, ◌≡◌, ◌≢◌, refl, true, false, List, [], ◌∷◌, none, some, arith, ◌==◌, if◌then◌else◌,
}
use kcmsg.Prelude.Text.{lit}
use kcmsg.NetworkInterface.Link.{no_texts, unknown_link, no_support}
use kcmsg.NetworkInterface.{IfAddrs, construct_interface, copy_address, test_is_wireless, minus_one}
use kcmsg.NetworkInterface.Probe.{System, Interface, open_interface, ask_wireless, ask_settings}
use kcmsg.NetworkInterface.Probe.Leaves.{Leaves, open_interface-Leaves}

-- The next descriptor, and those that are open.
abbrev Table : Type 0
Table = ℕ × List ℕ

abbrev socket_of : Table → ℕ × Table
socket_of (n, open_ones) =
    if n == minus_one then (minus_one, (n, open_ones)) else (n, (n + 1, n ∷ open_ones))

abbrev close_last : Table → Table
close_last (n, []) = (n, [])
close_last (n, fd ∷ open_ones) = (n, open_ones)

socket_of_opened :
    (w : Table) → (socket_of w).0 ≢ minus_one → (socket_of w).1.1 ≡ (socket_of w).0 ∷ w.1
socket_of_opened (n, open_ones) h = ground arith

socket_of_failed : (w : Table) → (socket_of w).0 ≡ minus_one → (socket_of w).1.1 ≡ w.1
socket_of_failed (n, open_ones) h = ground arith

close_last_lem : (w : Table) (fd : ℕ) (rest : List ℕ) → w.1 ≡ fd ∷ rest → (close_last w).1 ≡ rest
close_last_lem (n, []) fd rest e = absurd (cc)
close_last_lem (n, x ∷ open_ones) fd rest e = cc

abbrev counting : System
counting = record {
  World = Table;
  socket = λ w family type protocol. socket_of w;
  ioctl = λ w fd request b. (minus_one, (b, w));
  close = λ w fd. close_last w;
  opened = λ w. w.1;
  socket_opened = λ w family type protocol h. socket_of_opened w h;
  socket_failed = λ w family type protocol h. socket_of_failed w h;
  ioctl_opened = λ w fd request b. refl;
  close_opened = close_last_lem;
  ioctl_unnamed = λ w fd b h. refl;
}

-- An interface of no known family.
abbrev tunnel : IfAddrs
tunnel = record { flags = 0; addr = some (λ i. 0); netmask = none; ifu = none; data_ = none }

abbrev made : Interface
made = record {
  name = lit "tun0";
  protocol = [];
  address = [];
  mask = [];
  destination = [];
  driver_texts = no_texts;
  link = unknown_link;
  driver_supports = no_support;
  members = record {
    flags = 0;
    family = 0;
    network_address = λ i. 0;
    network_mask = λ i. 0;
    network_destination = λ i. 0;
    data_ = none;
    is_wireless = false;
    is_broadcast = false;
    is_bound = false;
  };
}

tunnel-opened :
    open_interface counting (lit "tun0") (λ i. 0) true tunnel (3, []) ≡ some (made, (5, 4 ∷ []))
unfolding open_interface ask_wireless ask_settings construct_interface copy_address test_is_wireless
tunnel-opened = refl

socket-open : ◌≢◌ {A = ℕ} 4 minus_one
socket-open e = absurd (omega arith)

second_socket : (socket_of (ask_wireless counting (lit "tun0") (3, [])).world).0 ≢ minus_one
unfolding ask_wireless
second_socket = socket-open

open_interface-Leaves_example : Leaves counting (lit "tun0") (3, []) made (5, 4 ∷ [])
open_interface-Leaves_example =
    open_interface-Leaves counting (lit "tun0") (λ i. 0) true tunnel (3, []) (5, 4 ∷ []) made
      second_socket tunnel-opened
