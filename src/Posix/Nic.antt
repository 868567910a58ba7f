-- ===== src/Posix/Nic.antt =====
-- utils/posix/nic_addresses.cpp: the addresses of a network interface, out of the list that
-- `getifaddrs` gives, or nothing where that call fails.
use fb_utils.Prelude.{
  ℕ, List, [], ◌∷◌, ◌++◌, Option, none, some, leb, if◌then◌else◌, Str, equal, take, Result, ok,
  fault, ◌>>=◌,
}

-- A socket address by its family: the bytes of `sin_addr`, those of `sin6_addr`, `sll_halen` and
-- the bytes of `sll_addr`, or anything else.
pub data Sockaddr : Type 0 where
  inet : Str → Sockaddr
  inet6 : Str → Sockaddr
  packet : ℕ → Str → Sockaddr
  other : Sockaddr

-- `ifaddrs`, of which `ifa_addr` may be null.
pub record Ifaddr : Type 0 where
  pub ifa_name : Str
  pub ifa_addr : Option Sockaddr

-- The two instances of `AddressFamily`.
pub data AddressFamily : Type 0 where
  in_addr : AddressFamily
  in6_addr : AddressFamily

-- The test on `sa_family` and `detail::copy`: what is added to the addresses.
abbrev pub copy : AddressFamily → Option Sockaddr → List Str
copy in_addr (some (inet address)) = address ∷ []
copy in6_addr (some (inet6 address)) = address ∷ []
copy _ _ = []

-- The loop over the interfaces.
unfoldable pub addresses_of : AddressFamily → Str → List Ifaddr → List Str
unfolding equal
addresses_of family ifname [] = []
addresses_of family ifname (addr ∷ addrs) =
    (if equal addr.ifa_name ifname then copy family addr.ifa_addr else [])
    ++ addresses_of family ifname addrs

abbrev pub get_nic_addresses : AddressFamily → Option (List Ifaddr) → Str → List Str
get_nic_addresses family none ifname = []
get_nic_addresses family (some addrs) ifname = addresses_of family ifname addrs

pub record NicInfo : Type 0 where
  pub name : Str
  pub mac : Str
  pub ipv4 : List Str
  pub ipv6 : List Str

abbrev pub Outcome {ℓ} : Type ℓ → Type ℓ
Outcome A = Result {0, ℓ} ⊥ A

-- The switch on the family. `sll_addr` has eight bytes: a longer address is read past its end.
abbrev pub add_address : Sockaddr → NicInfo → Outcome NicInfo
add_address (inet address) info = ok (record info { ipv4 = info.ipv4 ++ address ∷ [] })
add_address (inet6 address) info = ok (record info { ipv6 = info.ipv6 ++ address ∷ [] })
add_address (packet halen address) info =
    if leb halen 8 then ok (record info { mac = take halen address }) else fault
add_address other info = ok info

-- The entry of the name, which is added where there is none.
unfoldable pub add_to : Str → Sockaddr → List NicInfo → Outcome (List NicInfo)
add_to name address [] = do
  info ← add_address address (record { name = name; mac = []; ipv4 = []; ipv6 = [] })
  ok (info ∷ [])
add_to name address (info ∷ infos) =
    let rest = add_to name address infos in
    if equal info.name name
    then (add_address address info >>= λ changed. ok (changed ∷ infos))
    else (rest >>= λ changed. ok (info ∷ changed))

-- One round of the loop.
abbrev pub add_interface : Str → Option Sockaddr → List NicInfo → Outcome (List NicInfo)
add_interface name none infos = ok infos
add_interface name (some address) infos = add_to name address infos

unfoldable pub add_interfaces : List Ifaddr → List NicInfo → Outcome (List NicInfo)
add_interfaces [] infos = ok infos
add_interfaces (addr ∷ addrs) infos = do
  next ← add_interface addr.ifa_name addr.ifa_addr infos
  add_interfaces addrs next

unfoldable pub get_nic_info : Option (List Ifaddr) → Outcome (List NicInfo)
get_nic_info none = ok []
get_nic_info (some addrs) = add_interfaces addrs []
