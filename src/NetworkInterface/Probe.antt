-- ===== src/NetworkInterface/Probe.antt =====
-- What the constructor of src/NetworkInterface.cpp asks the system for: the wireless protocol, in
-- `testIsWireless`, and the link settings, which it drops. The class with its name and texts, and its
-- accessors. Numbers of requests and sizes are those of Linux.
pub mod Leaves
mod Tests
use kcmsg.Prelude.{
  ◌≡◌, ◌≢◌, ℕ, ◌+◌, ◌-◌, ◌^◌, Bool, true, false, List, [], ◌∷◌, ◌++◌, Option, none, some, ◌==◌, leb,
  ltb, if◌then◌else◌, length, take, replicate,
}
use kcmsg.Prelude.Text.{Text}
use kcmsg.Buffer.{Buffer, load, store}
use kcmsg.NetworkInterface.Link.{
  DriverTexts, no_texts, Link, unknown_link, DriverSupports, no_support,
}
use kcmsg.NetworkInterface.{IfAddrs, NetworkInterface, construct_interface, minus_one}

abbrev pub ifnamsiz : ℕ
ifnamsiz = 16

-- SIOCGIWNAME
abbrev pub get_wireless_name : ℕ
get_wireless_name = 0x8B01

-- SIOCETHTOOL
abbrev pub ethtool : ℕ
ethtool = 0x8946

-- The system calls, over the state of the system, of which `opened` lists the open descriptors. An
-- `ioctl` may change the memory that it is given; a request for the interface with the empty name
-- fails, as there is none.
pub record System : Type 1 where
  pub World : Type 0
  pub socket : World → ℕ → ℕ → ℕ → ℕ × World
  pub ioctl : World → ℕ → ℕ → Buffer → ℕ × (Buffer × World)
  pub close : World → ℕ → World
  pub opened : World → List ℕ
  pub socket_opened :
      (w : World) (family type protocol : ℕ)
      → (socket w family type protocol).0 ≢ minus_one
      → opened (socket w family type protocol).1 ≡ (socket w family type protocol).0 ∷ opened w
  pub socket_failed :
      (w : World) (family type protocol : ℕ)
      → (socket w family type protocol).0 ≡ minus_one
      → opened (socket w family type protocol).1 ≡ opened w
  pub ioctl_opened :
      (w : World) (fd request : ℕ) (b : Buffer) → opened (ioctl w fd request b).1.1 ≡ opened w
  pub close_opened :
      (w : World) (fd : ℕ) (rest : List ℕ) → opened w ≡ fd ∷ rest → opened (close w fd) ≡ rest
  pub ioctl_unnamed :
      (w : World) (fd : ℕ) (b : Buffer)
      → load b 0 ifnamsiz ≡ replicate ifnamsiz 0
      → (ioctl w fd get_wireless_name b).0 ≡ minus_one

-- `strncpy(to, name, n)`, which fills up with zeros.
abbrev pub strncpy : Buffer → ℕ → Text → ℕ → Buffer
strncpy b p name n = store b p (take n (name ++ replicate n 0))

-- The characters up to the first zero, of at most `n`.
abbrev pub c_string : List ℕ → Text
c_string [] = []
c_string (c ∷ cs) = let rest = c_string cs in if c == 0 then [] else c ∷ rest

-- The members that are texts and those for the link and the driver, beside the others.
pub record Interface : Type 0 where
  pub name : Text
  pub protocol : Text
  pub address : Text
  pub mask : Text
  pub destination : Text
  pub driver_texts : DriverTexts
  pub link : Link
  pub driver_supports : DriverSupports
  pub members : NetworkInterface

unfoldable pub get_name : Interface → Text
get_name i = i.name

unfoldable pub get_protocol : Interface → Text
get_protocol i = i.protocol

unfoldable pub get_flags : Interface → ℕ
get_flags i = i.members.flags

unfoldable pub get_address : Interface → Text
get_address i = i.address

unfoldable pub get_mask : Interface → Text
get_mask i = i.mask

unfoldable pub get_destination : Interface → Text
get_destination i = i.destination

unfoldable pub get_network_address : Interface → Buffer
get_network_address i = i.members.network_address

unfoldable pub get_network_mask : Interface → Buffer
get_network_mask i = i.members.network_mask

unfoldable pub get_network_destination : Interface → Buffer
get_network_destination i = i.members.network_destination

unfoldable pub is_wireless : Interface → Bool
is_wireless i = i.members.is_wireless

unfoldable pub is_broadcast : Interface → Bool
is_broadcast i = i.members.is_broadcast

unfoldable pub is_bound : Interface → Bool
is_bound i = i.members.is_bound

-- What `testIsWireless` has learnt: the results of `socket` and of `ioctl`, and the protocol.
pub record Answer (W : Type 0) : Type 0 where
  pub sock : ℕ
  pub res : ℕ
  pub protocol : Text
  pub world : W

module _ (s : System) where
  open s use {World, socket, ioctl, close}

  -- `pwrq`: 16 bytes for the name of an interface, then the union, into which the name goes.
  abbrev pub request : Text → Buffer
  request name = strncpy (λ i. 0) ifnamsiz name ifnamsiz

  abbrev pub answered : ℕ → ℕ × (Buffer × World) → Answer World
  answered sock (res, (pwrq, w)) = record {
    sock = sock;
    res = res;
    protocol = if res == minus_one then [] else c_string (load pwrq ifnamsiz ifnamsiz);
    world = close w sock;
  }

  -- The name of the protocol is taken from the union when the call succeeds.
  unfoldable pub ask_wireless : Text → World → Answer World
  ask_wireless name w =
      let (sock, w1) = socket w 2 1 0 in
      if sock == minus_one
      then record { sock = sock; res = minus_one; protocol = []; world = w1 }
      else answered sock (ioctl w1 sock get_wireless_name (request name))

  -- The `ioctl` is given the memory of `els`, which begins with the number of the command. The name is
  -- copied with its length into 16 bytes.
  unfoldable pub ask_settings : Text → Buffer → World → Option World
  ask_settings name els w =
      let (fd, w1) = socket w 2 2 0 in
      if fd == minus_one
      then some w1
      else if ltb ifnamsiz (length name)
      then none
      else some (ioctl w1 fd ethtool (store els 0 (0x4C ∷ 0 ∷ 0 ∷ 0 ∷ []))).1.1

  abbrev pub with_members :
      Text → Text → World → Option NetworkInterface → Option (Interface × World)
  with_members name protocol w none = none
  with_members name protocol w (some n) = some (
    record {
      name = name;
      protocol = protocol;
      address = [];
      mask = [];
      destination = [];
      driver_texts = no_texts;
      link = unknown_link;
      driver_supports = no_support;
      members = n;
    },
    w,
  )

  abbrev pub after_settings :
      Text → Answer World → Bool → IfAddrs → Option World → Option (Interface × World)
  after_settings name a allocated ifa none = none
  after_settings name a allocated ifa (some w) =
      with_members name a.protocol w (construct_interface a.sock a.res allocated ifa)

  -- The whole constructor; `els` is what the memory of the variable held.
  unfoldable pub open_interface :
      Text → Buffer → Bool → IfAddrs → World → Option (Interface × World)
  open_interface name els allocated ifa w =
      let a = ask_wireless name w in
      after_settings name a allocated ifa (ask_settings name els a.world)
