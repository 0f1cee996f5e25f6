-- ===== src/NetworkInterface/Address.antt =====
-- What the constructor of src/NetworkInterface.cpp makes of the addresses and flags.
use kcmsg.Prelude.{
  ℕ, ◌≡◌, ◌≢◌, refl, ◌⊎◌, inl, inr, Bool, true, false, if◌then◌else◌, Option, none, some, arith,
  ne→==, ◌==◌, Bool-cases,
}
use kcmsg.Buffer.{Buffer}
use kcmsg.NetworkInterface.{
  IfAddrs, NetworkInterface, construct_interface, test_is_wireless, copy_address, copy_destination,
  finish, with_mask, with_address, is_known, unbound, sa_family,
}

-- A broadcast interface, with any flag, or none of both.
abbrev pub HasFlags : IfAddrs → NetworkInterface → Type 0
HasFlags ifa n =
    ((n.is_broadcast ≡ true) × (ifa.flags ≢ 0)) ⊎ ((n.is_broadcast ≡ false) × (ifa.flags ≡ 0))

copy_destination-HasFlags :
    (ifa : IfAddrs) (n n' : NetworkInterface)
    → n.is_broadcast ≡ false
    → copy_destination ifa n ≡ some n'
    → (n'.is_bound ≡ n.is_bound) × ((n'.family ≡ n.family) × HasFlags ifa n')
unfolding copy_destination
copy_destination-HasFlags ifa n n' b e = ground arith

finish-HasFlags :
    (allocated : Bool) (ifa : IfAddrs) (n n' : NetworkInterface)
    → n.is_broadcast ≡ false
    → finish allocated ifa (copy_destination ifa n) ≡ some n'
    → (n'.is_bound ≡ n.is_bound) × ((n'.family ≡ n.family) × HasFlags ifa n')
unfolding copy_destination
finish-HasFlags allocated ifa n n' b e = ground arith

with_mask-HasFlags :
    (allocated : Bool) (ifa : IfAddrs) (n n' : NetworkInterface) (mask : Option Buffer)
    → n.is_broadcast ≡ false
    → with_mask allocated ifa n mask ≡ some n'
    → (n'.is_bound ≡ n.is_bound) × ((n'.family ≡ n.family) × HasFlags ifa n')
with_mask-HasFlags allocated ifa n n' none b e = absurd (cc)
with_mask-HasFlags allocated ifa n n' (some mask) b e =
    finish-HasFlags allocated ifa (record n { network_mask = mask }) n' b e

-- Whether the family of an address is one of AF_INET and AF_INET6.
abbrev pub HasFamily : Buffer → Bool → Type 0
HasFamily a true = (sa_family a ≡ 2) ⊎ (sa_family a ≡ 10)
HasFamily a false = (sa_family a ≢ 2) × (sa_family a ≢ 10)

is_known-HasFamily : (a : Buffer) → HasFamily a (is_known (some a))
is_known-HasFamily a = elim (Bool-cases (sa_family a == 2)) [
  | inl ip ↦ rw ip (inl (ground arith))
  | inr other ↦ elim (Bool-cases (sa_family a == 10)) [
    | inl ip6 ↦ rw (other, ip6) (inr (ground arith))
    | inr neither ↦ rw (other, neither) (λ e. ground arith, λ e. ground arith)
  ]
]

abbrev pub IsInterface : IfAddrs → NetworkInterface → Type 0
IsInterface ifa n =
    (a : Buffer) × (ifa.addr ≡ some a)
    × ((HasFamily a true × ((n.is_bound ≡ true) × ((n.family ≡ 2) × HasFlags ifa n)))
        ⊎ (HasFamily a false
            × ((n.is_bound ≡ false) × ((n.family ≡ 0) × (n.is_broadcast ≡ false)))))

with_address-IsInterface :
    (wireless allocated : Bool) (ifa : IfAddrs) (known : Bool) (to a : Buffer)
    (n : NetworkInterface)
    → ifa.addr ≡ some a
    → HasFamily a known
    → with_address allocated ifa known (record (unbound wireless ifa) {
      network_address = to;
      is_bound = known;
      family = if known then 2 else 0;
    })
      ≡ some n
    → IsInterface ifa n
with_address-IsInterface wireless allocated ifa false to a n at h e =
    (a, at, inr (h, (cc, (cc, cc))))
with_address-IsInterface wireless allocated ifa true to a n at h e = (
  a,
  at,
  inl (
    h,
    with_mask-HasFlags allocated ifa
        (record (unbound wireless ifa) { network_address = to; is_bound = true; family = 2 }) n
        (copy_address ifa.netmask (λ i. 0)) refl e,
  ),
)

Option-cases : {A : Type 0} (o : Option A) → (o ≡ none) ⊎ ((a : A) × (o ≡ some a))
Option-cases none = inl refl
Option-cases (some a) = inr (a, refl)

-- An interface that the constructor makes has an address. It is bound where the family of that
-- address is AF_INET or AF_INET6: its family is then AF_INET, whichever of both it is, and it is a
-- broadcast interface just when any of its flags is set. Where the address has another family, the
-- interface is not bound, its family is 0 and it is no broadcast interface.
pub construct_interface-IsInterface :
    (sock res : ℕ) (allocated : Bool) (ifa : IfAddrs) (n : NetworkInterface)
    → construct_interface sock res allocated ifa ≡ some n
    → IsInterface ifa n
unfolding construct_interface copy_address
construct_interface-IsInterface sock res allocated ifa n e =
    elim (Option-cases (copy_address ifa.addr (λ i. 0))) [
      | inl x ↦ let wrong : none ≡ some n = rw x at e in absurd (cc)
      | inr (to, x) ↦ elim (Option-cases ifa.addr) [
        | inl y ↦ let wrong : none ≡ some to = rw y at x in absurd (cc)
        | inr (a, y) ↦
            with_address-IsInterface (test_is_wireless sock res) allocated ifa (is_known ifa.addr)
              to a n y (rw y (is_known-HasFamily a)) (rw x at e)
      ]
    ]

with_mask-none :
    (allocated : Bool) (ifa : IfAddrs) (n : NetworkInterface) (mask : Option Buffer)
    → ifa.flags ≢ 0
    → ifa.ifu ≡ none
    → with_mask allocated ifa n mask ≡ none
unfolding copy_destination copy_address
with_mask-none allocated ifa n none flagged null = refl
with_mask-none allocated ifa n (some mask) flagged null = rw (null, ne→== ifa.flags 0 flagged) refl

with_address-none :
    (allocated : Bool) (ifa : IfAddrs) (n : NetworkInterface) (known : Bool)
    → known ≡ true
    → ifa.flags ≢ 0
    → ifa.ifu ≡ none
    → with_address allocated ifa known n ≡ none
with_address-none allocated ifa n true k flagged null =
    with_mask-none allocated ifa n (copy_address ifa.netmask n.network_mask) flagged null
with_address-none allocated ifa n false k flagged null = absurd (cc)

-- For an interface with an address of a known family, with any flag and no broadcast address, the
-- constructor follows a null pointer: it asks for the broadcast address whatever the flags are.
pub construct_interface-none :
    (sock res : ℕ) (allocated : Bool) (ifa : IfAddrs)
    → is_known ifa.addr ≡ true
    → ifa.flags ≢ 0
    → ifa.ifu ≡ none
    → construct_interface sock res allocated ifa ≡ none
unfolding construct_interface
construct_interface-none sock res allocated ifa known flagged null =
    elim (Option-cases (copy_address ifa.addr (λ i. 0))) [
      | inl x ↦ rw x refl
      | inr (a, x) ↦ rw x (with_address-none allocated ifa _ (is_known ifa.addr) known flagged null)
    ]

copy_destination-is_wireless :
    (allocated : Bool) (ifa : IfAddrs) (n n' : NetworkInterface)
    → finish allocated ifa (copy_destination ifa n) ≡ some n'
    → n'.is_wireless ≡ n.is_wireless
unfolding copy_destination
copy_destination-is_wireless allocated ifa n n' e = ground arith

with_mask-is_wireless :
    (allocated : Bool) (ifa : IfAddrs) (n n' : NetworkInterface) (mask : Option Buffer)
    → with_mask allocated ifa n mask ≡ some n'
    → n'.is_wireless ≡ n.is_wireless
with_mask-is_wireless allocated ifa n n' none e = absurd (cc)
with_mask-is_wireless allocated ifa n n' (some mask) e =
    copy_destination-is_wireless allocated ifa (record n { network_mask = mask }) n' e

with_address-is_wireless :
    (allocated : Bool) (ifa : IfAddrs) (known : Bool) (n n' : NetworkInterface)
    → with_address allocated ifa known n ≡ some n'
    → n'.is_wireless ≡ n.is_wireless
with_address-is_wireless allocated ifa false n n' e = cc
with_address-is_wireless allocated ifa true n n' e =
    with_mask-is_wireless allocated ifa n n' (copy_address ifa.netmask n.network_mask) e

pub construct_interface-is_wireless :
    (sock res : ℕ) (allocated : Bool) (ifa : IfAddrs) (n : NetworkInterface)
    → construct_interface sock res allocated ifa ≡ some n
    → n.is_wireless ≡ test_is_wireless sock res
unfolding construct_interface
construct_interface-is_wireless sock res allocated ifa n e =
    elim (Option-cases (copy_address ifa.addr (λ i. 0))) [
      | inl x ↦ let wrong : none ≡ some n = rw x at e in absurd (cc)
      | inr (a, x) ↦ with_address-is_wireless allocated ifa (is_known ifa.addr) _ n (rw x at e)
    ]
