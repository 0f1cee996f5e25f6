-- ===== src/NetworkInterface/Probe/Leaves.antt =====
-- What the constructor of src/NetworkInterface.cpp leaves behind, in the object and in the system.
use kcmsg.Prelude.{
  ℕ, ◌≡◌, ◌≢◌, inl, inr, refl, ap, ◌∙◌, Bool, false, [], ◌∷◌, Option, none, some, ◌==◌, ltb, length,
  replicate, arith, ne→==, ==_iff, ==_ne, Bool-cases,
}
use mathlib.Core.Path.{subst}
use kcmsg.Prelude.Text.{Text}
use kcmsg.Buffer.{Buffer, load, store, load-store_disjoint}
use kcmsg.NetworkInterface.{
  IfAddrs, NetworkInterface, construct_interface, minus_one, test_is_wireless,
}
use kcmsg.NetworkInterface.Address.{construct_interface-is_wireless}
use kcmsg.NetworkInterface.Link.{no_texts, unknown_link, no_support}
use kcmsg.NetworkInterface.Probe.{
  System, Interface, Answer, ask_wireless, ask_settings, open_interface, answered, request,
  with_members, after_settings, ifnamsiz, get_wireless_name, ethtool, is_wireless, get_protocol,
  get_address, get_mask, get_destination, get_name,
}

module _ (s : System) where
  open s use {
    World, socket, ioctl, close, opened, socket_opened, socket_failed, ioctl_opened, close_opened,
    ioctl_unnamed,
  }

  -- The place for the interface's name stays empty.
  request_unnamed : (name : Text) → load (request s name) 0 ifnamsiz ≡ replicate ifnamsiz 0
  unfolding load
  request_unnamed name = load-store_disjoint (λ i. 0) ifnamsiz _ 0 ifnamsiz (inl (omega arith))

  -- The descriptors are as they were, and the answer is no.
  record Denied (a : Answer World) (w : World) : Type 0 where
    denied : test_is_wireless a.sock a.res ≡ false
    nameless : ◌≡◌ a.protocol []
    restored : opened a.world ≡ opened w

  answered-Denied :
      (name : Text) (w : World)
      → (socket w 2 1 0).0 ≢ minus_one
      → let sock = (socket w 2 1 0).0 in
        Denied
          (answered s sock (ioctl (socket w 2 1 0).1 sock get_wireless_name (request s name)))
          w
  unfolding test_is_wireless
  answered-Denied name w h =
      let sock = (socket w 2 1 0).0 in
      let w1 = (socket w 2 1 0).1 in
      let no = ioctl_unnamed w1 sock (request s name) (request_unnamed name) in
      let other : (sock == minus_one) ≡ false = ne→== sock minus_one h in
      record {
        denied = rw (other, no) refl;
        nameless = rw no refl;
        restored =
            close_opened _ sock (opened w)
              (ioctl_opened w1 sock get_wireless_name (request s name) ∙ socket_opened w 2 1 0 h);
      }

  ask_wireless-Denied : (name : Text) (w : World) → Denied (ask_wireless s name w) w
  unfolding ask_wireless test_is_wireless
  ask_wireless-Denied name w = elim (Bool-cases ((socket w 2 1 0).0 == minus_one)) [
    | inl e ↦ rw e (record {
      denied = rw e refl;
      nameless = refl;
      restored = socket_failed w 2 1 0 ((==_iff (socket w 2 1 0).0 minus_one).0 e);
    })
    | inr e ↦ rw e (answered-Denied name w (==_ne (socket w 2 1 0).0 minus_one e))
  ]

  -- The descriptor of the second socket stays open.
  ask_settings-opened :
      (name : Text) (els : Buffer) (w w' : World)
      → (socket w 2 2 0).0 ≢ minus_one
      → ask_settings s name els w ≡ some w'
      → opened w' ≡ (socket w 2 2 0).0 ∷ opened w
  unfolding ask_settings
  ask_settings-opened name els w w' h e = elim (Bool-cases (ltb ifnamsiz (length name))) [
    | inl long ↦ let wrong : none ≡ some w' = rw (ne→== _ minus_one h, long) at e in absurd (cc)
    | inr short ↦
        let w1 = (socket w 2 2 0).1 in
        let els' = store els 0 (0x4C ∷ 0 ∷ 0 ∷ 0 ∷ []) in
        let known : some (ioctl w1 (socket w 2 2 0).0 ethtool els').1.1 ≡ some w' =
          rw (ne→== _ minus_one h, short) at e in
        let after : (ioctl w1 (socket w 2 2 0).0 ethtool els').1.1 ≡ w' = cc in
        subst (λ v. opened v ≡ (socket w 2 2 0).0 ∷ opened w) after
          (ioctl_opened w1 (socket w 2 2 0).0 ethtool els' ∙ socket_opened w 2 2 0 h)
  ]

  -- The object and the system as the constructor leaves them.
  abbrev pub Leaves : Text → World → Interface → World → Type 0
  Leaves name w i w' =
      (get_name i ≡ name)
      × (is_wireless i ≡ false)
      × (get_protocol i ≡ [])
      × (get_address i ≡ [])
      × (get_mask i ≡ [])
      × (get_destination i ≡ [])
      × (i.driver_texts ≡ no_texts)
      × (i.link ≡ unknown_link)
      × (i.driver_supports ≡ no_support)
      × ((fd : ℕ) × (opened w' ≡ fd ∷ opened w))

  with_members-Leaves :
      (name : Text) (w w1 w' : World) (a : Answer World) (fd : ℕ) (o : Option NetworkInterface)
      (i : Interface)
      → Denied a w
      → opened w1 ≡ fd ∷ opened a.world
      → ((n : NetworkInterface) → o ≡ some n → n.is_wireless ≡ test_is_wireless a.sock a.res)
      → with_members s name a.protocol w1 o ≡ some (i, w')
      → Leaves name w i w'
  unfolding get_name is_wireless get_protocol get_address get_mask get_destination
  with_members-Leaves name w w1 w' a fd none i d more keeps e = absurd (cc)
  with_members-Leaves name w w1 w' a fd (some n) i d more keeps e =
      let made : Interface = record {
        name = name;
        protocol = a.protocol;
        address = [];
        mask = [];
        destination = [];
        driver_texts = no_texts;
        link = unknown_link;
        driver_supports = no_support;
        members = n;
      } in
      let same : ◌≡◌ {A = Interface × World} (made, w1) (i, w') = cc in
      subst (λ p. Leaves name w p.0 p.1) same
        (
          refl,
          keeps n refl ∙ d.denied,
          d.nameless,
          refl,
          refl,
          refl,
          refl,
          refl,
          refl,
          (fd, more ∙ ap (λ l. fd ∷ l) d.restored),
        )

  after_settings-Leaves :
      (name : Text) (w w' : World) (a : Answer World) (fd : ℕ) (allocated : Bool) (ifa : IfAddrs)
      (o : Option World) (i : Interface)
      → Denied a w
      → ((w1 : World) → o ≡ some w1 → opened w1 ≡ fd ∷ opened a.world)
      → after_settings s name a allocated ifa o ≡ some (i, w')
      → Leaves name w i w'
  after_settings-Leaves name w w' a fd allocated ifa none i d more e = absurd (cc)
  after_settings-Leaves name w w' a fd allocated ifa (some w1) i d more e =
      with_members-Leaves name w w1 w' a fd (construct_interface a.sock a.res allocated ifa) i d
        (more w1 refl) (λ n made. construct_interface-is_wireless a.sock a.res allocated ifa n made)
        e

  -- When the second socket opens and the constructor returns: the interface has its name, but is not
  -- wireless, whatever it is, has no protocol, address, mask and destination as a text, and its link
  -- and driver are unknown, although it has asked for the link's settings; and one descriptor more
  -- is open in the system than before.
  pub open_interface-Leaves :
      (name : Text) (els : Buffer) (allocated : Bool) (ifa : IfAddrs) (w w' : World) (i : Interface)
      → (socket (ask_wireless s name w).world 2 2 0).0 ≢ minus_one
      → open_interface s name els allocated ifa w ≡ some (i, w')
      → Leaves name w i w'
  unfolding open_interface
  open_interface-Leaves name els allocated ifa w w' i h e =
      let a = ask_wireless s name w in
      after_settings-Leaves name w w' a (socket a.world 2 2 0).0 allocated ifa
        (ask_settings s name els a.world) i (ask_wireless-Denied name w)
        (λ w1 asked. ask_settings-opened name els a.world w1 h asked) e
