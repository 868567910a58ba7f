-- ===== src/Posix/Agree.antt =====
-- `get_nic_info` against `get_nic_addresses` of utils/posix/nic_addresses.cpp.
use fb_utils.Prelude.{
  ◌≤◌, ◌≡◌, refl, sym, Bool, true, false, List, [], ◌∷◌, ◌++◌, append-nil, append_assoc, Option,
  none, some, if◌then◌else◌, Str, equal, equal_iff, Ensures, Ensures->>=, All, arith, Bool-cases,
  inl, inr,
}
use fb_utils.Posix.Nic.{
  Sockaddr, inet, inet6, packet, other, Ifaddr, AddressFamily, in_addr, in6_addr, copy,
  addresses_of, get_nic_addresses, NicInfo, add_address, add_to, add_interface, add_interfaces,
  get_nic_info,
}

-- The addresses of the family in an entry, and in the first entry of a name.
abbrev pub addresses_in : AddressFamily → NicInfo → List Str
addresses_in in_addr info = info.ipv4
addresses_in in6_addr info = info.ipv6

unfoldable pub lookup : AddressFamily → Str → List NicInfo → List Str
lookup family name [] = []
lookup family name (info ∷ infos) =
    if equal info.name name then addresses_in family info else lookup family name infos

-- A hardware address fits the eight bytes of `sockaddr_ll`.
abbrev pub Fits : Option Sockaddr → Type 0
Fits (some (packet halen address)) = halen ≤ 8
Fits _ = Unit

add_address_lem :
    (family : AddressFamily) (address : Sockaddr) (info : NicInfo)
    → Fits (some address)
    → Ensures
        (λ changed.
          (changed.name ≡ info.name)
          × (addresses_in family changed ≡ addresses_in family info ++ copy family (some address)))
        (add_address address info)
add_address_lem in_addr (inet a) info h = (refl, refl)
add_address_lem in6_addr (inet a) info h = (refl, sym (append-nil info.ipv6))
add_address_lem in_addr (inet6 a) info h = (refl, sym (append-nil info.ipv4))
add_address_lem in6_addr (inet6 a) info h = (refl, refl)
add_address_lem in_addr (packet n a) info h = ground (arith, append-nil info.ipv4)
add_address_lem in6_addr (packet n a) info h = ground (arith, append-nil info.ipv6)
add_address_lem in_addr other info h = (refl, sym (append-nil info.ipv4))
add_address_lem in6_addr other info h = (refl, sym (append-nil info.ipv6))

-- What an interface adds to the addresses of a name.
abbrev pub added : AddressFamily → Str → Str → Option Sockaddr → List Str
added family name n address = if equal n name then copy family address else []

nothing_in :
    (family : AddressFamily) (n : Str)
    → addresses_in family (record { name = n; mac = []; ipv4 = []; ipv6 = [] }) ≡ []
nothing_in in_addr n = refl
nothing_in in6_addr n = refl

step :
    (b : Bool) (x y c : List Str)
    → (if b then x ++ c else y) ≡ (if b then x else y) ++ (if b then c else [])
step true x y c = refl
step false x y c = sym (append-nil y)

-- Three names that are the same.
choose :
    (name n a b : Str) (x y c : List Str)
    → a ≡ n
    → b ≡ a
    → (if equal b name then x ++ c else y)
      ≡ (if equal a name then x else y) ++ (if equal n name then c else [])
choose name n a b x y c h k = rw (k, h) (step (equal n name) x y c)

-- The entry that has the name has been changed.
lookup_changed :
    (family : AddressFamily) (name n : Str) (address : Sockaddr) (info changed : NicInfo)
    (infos : List NicInfo)
    → info.name ≡ n
    → changed.name ≡ info.name
    → addresses_in family changed ≡ addresses_in family info ++ copy family (some address)
    → lookup family name (changed ∷ infos)
      ≡ lookup family name (info ∷ infos) ++ added family name n (some address)
unfolding lookup
lookup_changed family name n address info changed infos same named longer =
    rw (longer) (choose name n info.name changed.name _ _ _ same named)

differs : (a b c : Str) → equal a b ≡ false → equal a c ≡ true → equal b c ≡ false
differs a b c h k = ground (arith, equal_iff a b, equal_iff a c, equal_iff b c)

-- The entry has another name.
lookup_kept :
    (family : AddressFamily) (name n : Str) (address : Sockaddr) (info : NicInfo)
    (infos changed : List NicInfo)
    → equal info.name n ≡ false
    → lookup family name changed ≡ lookup family name infos ++ added family name n (some address)
    → lookup family name (info ∷ changed)
      ≡ lookup family name (info ∷ infos) ++ added family name n (some address)
unfolding lookup
lookup_kept family name n address info infos changed differ rest =
    elim (Bool-cases (equal info.name name)) [
      | inl e ↦ rw (e, differs info.name n name differ e) (sym (append-nil _))
      | inr e ↦ rw (e, rest)
    ]

add_to_lem :
    (family : AddressFamily) (name n : Str) (address : Sockaddr) (infos : List NicInfo)
    → Fits (some address)
    → Ensures
        (λ changed.
          lookup family name changed
          ≡ lookup family name infos ++ added family name n (some address))
        (add_to n address infos)
unfolding add_to lookup
add_to_lem family name n address [] h =
    let e : NicInfo = record { name = n; mac = []; ipv4 = []; ipv6 = [] } in
    Ensures->>= _ _ (add_address address e) _ (add_address_lem family address e h)
      (λ i hi. rw (hi.1, hi.0, nothing_in family n))
add_to_lem family name n address (info ∷ infos) h = elim (Bool-cases (equal info.name n)) [
  | inl e ↦ rw (e) (
      Ensures->>= _ _ (add_address address info) _ (add_address_lem family address info h) (λ i hi.
        lookup_changed family name n address info i infos ((equal_iff info.name n).0 e) hi.0 hi.1))
  | inr e ↦ rw (e) (
      Ensures->>= _ _ (add_to n address infos) _ (add_to_lem family name n address infos h)
        (λ changed hc. lookup_kept family name n address info infos changed e hc))
]

add_interface_lem :
    (family : AddressFamily) (name n : Str) (address : Option Sockaddr) (infos : List NicInfo)
    → Fits address
    → Ensures
        (λ res. lookup family name res ≡ lookup family name infos ++ added family name n address)
        (add_interface n address infos)
add_interface_lem family name n none infos h = ground (arith, append-nil (lookup family name infos))
add_interface_lem family name n (some address) infos h = add_to_lem family name n address infos h

-- A name and the addresses of the loop, from entries on.
add_interfaces_lem :
    (family : AddressFamily) (name : Str) (addrs : List Ifaddr) (infos : List NicInfo)
    → All (λ addr. Fits addr.ifa_addr) addrs
    → Ensures
        (λ res. lookup family name res ≡ lookup family name infos ++ addresses_of family name addrs)
        (add_interfaces addrs infos)
unfolding add_interfaces addresses_of
add_interfaces_lem family name [] infos h = sym (append-nil _)
add_interfaces_lem family name (addr ∷ addrs) infos h =
    Ensures->>= _ _ (add_interface addr.ifa_name addr.ifa_addr infos) _
      (add_interface_lem family name addr.ifa_name addr.ifa_addr infos h.0)
      (λ next hn.
        rw
          (
            sym (
                append_assoc (lookup family name infos)
                  (added family name addr.ifa_name addr.ifa_addr) (addresses_of family name addrs)),
            sym hn,
          )
          (add_interfaces_lem family name addrs next h.1))

-- Where every hardware address has eight bytes at most, get_nic_info comes to a list, in which the
-- first entry of a name has the IPv4 addresses and the IPv6 addresses that get_nic_addresses
-- gives for the name, in the same order; and where no entry has the name, there are none.
pub get_nic_info-Agrees :
    (family : AddressFamily) (name : Str) (addrs : List Ifaddr)
    → All (λ addr. Fits addr.ifa_addr) addrs
    → Ensures
        (λ infos. lookup family name infos ≡ get_nic_addresses family (some addrs) name)
        (get_nic_info (some addrs))
unfolding get_nic_info lookup
get_nic_info-Agrees family name addrs h = add_interfaces_lem family name addrs [] h
