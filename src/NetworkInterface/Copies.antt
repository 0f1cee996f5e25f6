-- ===== src/NetworkInterface/Copies.antt =====
-- The addresses that the constructor of src/NetworkInterface.cpp keeps of an entry that has them.
use kcmsg.Prelude.{
  ℕ, ◌≤◌, ◌<◌, ◌≡◌, ◌≢◌, refl, ◌⊎◌, inl, inr, Bool, true, false, Option, none, some, arith, ◌==◌,
  Bool-cases, if◌then◌else◌, ==_iff,
}
use kcmsg.Buffer.{Buffer, load, store, load-injective, load-store, store_outside, length-load}
use kcmsg.NetworkInterface.{
  IfAddrs, NetworkInterface, construct_interface, test_is_wireless, copy_address, copy_destination,
  sa_family, is_known, unbound, copy_data,
}

-- The bytes of an address: of a `sockaddr_in` for AF_INET, of a `sockaddr_in6` for AF_INET6.
abbrev pub address_size : ℕ → ℕ
address_size family = if family == 2 then 16 else if family == 10 then 28 else 0

-- The memory has the bytes of the address, by its family, and zeros behind them.
pub record Copied (a b : Buffer) : Type 0 where
  pub bytes : (i : ℕ) → i < address_size (sa_family a) → b i ≡ a i
  pub zeros : (i : ℕ) → address_size (sa_family a) ≤ i → b i ≡ 0

module _ (a : Buffer) (n : ℕ) where
  copied_inside : (i : ℕ) → i < n → store (λ i. 0) 0 (load a 0 n) i ≡ a i
  copied_inside i lt =
      load-injective (store (λ i. 0) 0 (load a 0 n)) a 0 n i
        (rw (length-load a 0 n) at (load-store (λ i. 0) 0 (load a 0 n))) (omega arith) (omega arith)

  copied_outside : (i : ℕ) → n ≤ i → store (λ i. 0) 0 (load a 0 n) i ≡ 0
  copied_outside i le =
      store_outside (λ i. 0) 0 (load a 0 n) i (inr (omega (arith, length-load a 0 n)))

copy_address-Copied :
    (a : Buffer) → (b : Buffer) × (copy_address (some a) (λ i. 0) ≡ some b) × Copied a b
unfolding copy_address
copy_address-Copied a = elim (Bool-cases (sa_family a == 2)) [
  | inl four ↦ rw four (
    _,
    refl,
    record {
      bytes = λ i lt. copied_inside a 16 i (rw four at lt);
      zeros = λ i le. copied_outside a 16 i (rw four at le);
    },
  )
  | inr other ↦ elim (Bool-cases (sa_family a == 10)) [
    | inl six ↦
        rw (other, six)
          (
            _,
            refl,
            record {
              bytes = λ i lt. copied_inside a 28 i (rw (other, six) at lt);
              zeros = λ i le. copied_outside a 28 i (rw (other, six) at le);
            },
          )
    | inr none_of ↦
        rw (other, none_of)
          (
            _,
            refl,
            record {
              bytes = λ i lt. absurd (omega (arith, rw (other, none_of) at lt));
              zeros = λ i le. refl;
            },
          )
  ]
]

-- The destination: the broadcast or peer address where any flag is set, and zeros where none is.
abbrev pub HasDestination : ℕ → Buffer → Buffer → Type 0
HasDestination flags dest b = ((flags ≢ 0) × Copied dest b) ⊎ ((flags ≡ 0) × ((i : ℕ) → b i ≡ 0))

-- What the constructor keeps of an entry with these addresses.
pub record Keeps (ifa : IfAddrs) (a mask dest : Buffer) (n : NetworkInterface) : Type 0 where
  pub bound : n.is_bound ≡ true
  pub flags : n.flags ≡ ifa.flags
  pub network_address : Copied a n.network_address
  pub network_mask : Copied mask n.network_mask
  pub network_destination : HasDestination ifa.flags dest n.network_destination

copy_data-Keeps :
    (ifa : IfAddrs) (a mask dest : Buffer) (allocated : Bool) (d : Option Buffer)
    (n : NetworkInterface)
    → Keeps ifa a mask dest n
    → Keeps ifa a mask dest (copy_data allocated d n)
copy_data-Keeps ifa a mask dest allocated none n k = k
copy_data-Keeps ifa a mask dest false (some d) n k = k
copy_data-Keeps ifa a mask dest true (some d) n k = record {
  bound = k.bound;
  flags = k.flags;
  network_address = k.network_address;
  network_mask = k.network_mask;
  network_destination = k.network_destination;
}

-- The memory for the destination is zeros before.
copy_destination-Keeps :
    (ifa : IfAddrs) (a mask dest : Buffer) (n : NetworkInterface)
    → ifa.ifu ≡ some dest
    → n.is_bound ≡ true
    → n.flags ≡ ifa.flags
    → Copied a n.network_address
    → Copied mask n.network_mask
    → n.network_destination ≡ (λ i. 0)
    → (n' : NetworkInterface) × (copy_destination ifa n ≡ some n') × Keeps ifa a mask dest n'
unfolding copy_destination
copy_destination-Keeps ifa a mask dest n there bound flags address netmask empty =
    elim (Bool-cases (ifa.flags == 0)) [
      | inl none_set ↦ rw none_set (
        n,
        refl,
        record {
          bound = bound;
          flags = flags;
          network_address = address;
          network_mask = netmask;
          network_destination = inr ((==_iff ifa.flags 0).0 none_set, λ i. rw empty refl);
        },
      )
      | inr set ↦
          let (b, copied, same) = copy_address-Copied dest in
          rw (set, there, empty, copied)
            (
              _,
              refl,
              record {
                bound = bound;
                flags = flags;
                network_address = address;
                network_mask = netmask;
                network_destination = inl (λ zero_flags. ground arith, same);
              },
            )
    ]

-- An entry with all addresses.
abbrev pub full_entry : ℕ → Buffer → Buffer → Buffer → Option Buffer → IfAddrs
full_entry flags a mask dest d = record {
  flags = flags;
  addr = some a;
  netmask = some mask;
  ifu = some dest;
  data_ = d;
}

-- For an entry whose address is of AF_INET or AF_INET6 and which has a mask and a broadcast or peer
-- address, the constructor returns, whatever the system calls give, with an interface that is bound
-- and has the flags, the address and the mask of the entry, and its destination where any flag is
-- set: for each address the bytes that its family has, and zeros behind them.
pub construct_interface-Keeps :
    (sock res : ℕ) (allocated : Bool) (flags : ℕ) (a mask dest : Buffer) (d : Option Buffer)
    → 0 < address_size (sa_family a)
    → (n : NetworkInterface) × (construct_interface sock res allocated
          (full_entry flags a mask dest d)
        ≡ some n)
      × Keeps (full_entry flags a mask dest d) a mask dest n
unfolding construct_interface
construct_interface-Keeps sock res allocated flags a mask dest d sized =
    let ifa = full_entry flags a mask dest d in
    let (b, copied, same) = copy_address-Copied a in
    let (c, copied_mask, same_mask) = copy_address-Copied mask in
    let known : is_known (some a) ≡ true = ground (arith, sized) in
    let (n, copied_dest, keeps) =
      copy_destination-Keeps ifa a mask dest
        (record (unbound (test_is_wireless sock res) ifa) {
          network_address = b;
          network_mask = c;
          is_bound = true;
          family = 2;
        })
        refl refl refl same same_mask refl in
    rw (copied, known, copied_mask, copied_dest)
      (copy_data allocated d n, refl, copy_data-Keeps ifa a mask dest allocated d n keeps)
