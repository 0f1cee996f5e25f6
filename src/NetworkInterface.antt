-- ===== src/NetworkInterface.antt =====
-- The class `NetworkInterface` of src/NetworkInterface.h and src/NetworkInterface.cpp: what its
-- constructor keeps of one entry of the list that `getifaddrs` makes. A pointer is the memory that it
-- leads to, or none; the results of system calls are arguments, an `int` by the pattern of its bits.
-- The names and the link settings are those of `NetworkInterface.Link`.
pub mod Address
pub mod Copies
pub mod Link
pub mod Probe
mod Tests
use kcmsg.Prelude.{
  ℕ, ◌+◌, ◌*◌, ◌-◌, ◌^◌, Bool, true, false, List, Option, none, some, ◌==◌, if◌then◌else◌, ◌&&◌,
}
use mathlib.Core.Bool.{not}
use kcmsg.Buffer.{Buffer, load, store}

-- `ifu` is the union of the two pointers to a broadcast address and to a peer.
pub record IfAddrs : Type 0 where
  pub flags : ℕ
  pub addr : Option Buffer
  pub netmask : Option Buffer
  pub ifu : Option Buffer
  pub data_ : Option Buffer

pub record NetworkInterface : Type 0 where
  pub flags : ℕ
  pub family : ℕ
  pub network_address : Buffer
  pub network_mask : Buffer
  pub network_destination : Buffer
  pub data_ : Option (List ℕ)
  pub is_wireless : Bool
  pub is_broadcast : Bool
  pub is_bound : Bool

abbrev pub sa_family : Buffer → ℕ
sa_family a = a 0 + 256 * a 1

abbrev pub minus_one : ℕ
minus_one = 2 ^ 32 - 1

-- The results of `socket` and of `ioctl`.
unfoldable pub test_is_wireless : ℕ → ℕ → Bool
test_is_wireless sock res = if sock == minus_one then false else not (res == minus_one)

-- The `switch` on the family of an address, which copies a `sockaddr_in` or a `sockaddr_in6`. A null
-- pointer is followed.
unfoldable pub copy_address : Option Buffer → Buffer → Option Buffer
copy_address none to = none
copy_address (some a) to =
    if sa_family a == 2
    then some (store to 0 (load a 0 16))
    else if sa_family a == 10
    then some (store to 0 (load a 0 28))
    else some to

-- A number as a condition.
abbrev is_true : ℕ → Bool
is_true n = not (n == 0)

abbrev iff_broadcast : ℕ
iff_broadcast = 0x2

abbrev iff_pointopoint : ℕ
iff_pointopoint = 0x10

abbrev with_destination : Bool → Option Buffer → NetworkInterface → Option NetworkInterface
with_destination b none n = none
with_destination b (some d) n = some (record n { is_broadcast = b; network_destination = d })

-- The tests of the two flags, with their logical `and`.
unfoldable pub copy_destination : IfAddrs → NetworkInterface → Option NetworkInterface
copy_destination ifa n =
    if is_true ifa.flags && is_true iff_broadcast
    then with_destination true (copy_address ifa.ifu n.network_destination) n
    else if is_true ifa.flags && is_true iff_pointopoint
    then with_destination false (copy_address ifa.ifu n.network_destination) n
    else some n

-- `allocated` tells whether `malloc` succeeds; the size is that of the pointer.
abbrev copy_data : Bool → Option Buffer → NetworkInterface → NetworkInterface
copy_data allocated none n = n
copy_data allocated (some d) n = if allocated then record n { data_ = some (load d 0 8) } else n

abbrev finish : Bool → IfAddrs → Option NetworkInterface → Option NetworkInterface
finish allocated ifa none = none
finish allocated ifa (some n) = some (copy_data allocated ifa.data_ n)

abbrev with_mask : Bool → IfAddrs → NetworkInterface → Option Buffer → Option NetworkInterface
with_mask allocated ifa n none = none
with_mask allocated ifa n (some mask) =
    finish allocated ifa (copy_destination ifa (record n { network_mask = mask }))

abbrev with_address : Bool → IfAddrs → Bool → NetworkInterface → Option NetworkInterface
with_address allocated ifa false n = some n
with_address allocated ifa true n =
    with_mask allocated ifa n (copy_address ifa.netmask n.network_mask)

-- Both cases set the family to AF_INET.
abbrev is_known : Option Buffer → Bool
is_known none = false
is_known (some a) = if sa_family a == 2 then true else sa_family a == 10

abbrev unbound : Bool → IfAddrs → NetworkInterface
unbound wireless ifa = record {
  flags = ifa.flags;
  family = 0;
  network_address = λ i. 0;
  network_mask = λ i. 0;
  network_destination = λ i. 0;
  data_ = none;
  is_wireless = wireless;
  is_broadcast = false;
  is_bound = false;
}

abbrev addressed : Bool → IfAddrs → Bool → Option Buffer → Option NetworkInterface
addressed wireless ifa allocated none = none
addressed wireless ifa allocated (some a) =
    let known = is_known ifa.addr in
    with_address allocated ifa known (record (unbound wireless ifa) {
      network_address = a;
      is_bound = known;
      family = if known then 2 else 0;
    })

unfoldable pub construct_interface : ℕ → ℕ → Bool → IfAddrs → Option NetworkInterface
construct_interface sock res allocated ifa =
    addressed (test_is_wireless sock res) ifa allocated (copy_address ifa.addr (λ i. 0))
