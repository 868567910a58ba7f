-- ===== src/Win/Nic.antt =====
-- utils/win/nic_addresses.cpp and nic_addresses.hpp. `GetAdaptersAddresses` is a parameter.
use fb_utils.Prelude.{
  ℕ, zero, suc, ◌*◌, Bool, true, false, List, [], ◌∷◌, ◌++◌, Option, none, some, leb, if◌then◌else◌,
  Str, equal, map, Result, ok, err, ◌>>=◌,
}

-- An address: `sa_family`, with the bytes of `sin_addr` or `sin6_addr`, and `iSockaddrLength`.
pub data Sockaddr : Type 0 where
  inet : Str → Sockaddr
  inet6 : Str → Sockaddr
  other : Sockaddr

pub record SocketAddress : Type 0 where
  pub sockaddr : Sockaddr
  pub length : ℕ

-- `IP_ADAPTER_ADDRESSES`, the chains of which are lists.
pub record Adapter : Type 0 where
  pub friendly_name : Str
  pub physical_address : Str
  pub first_unicast_address : List SocketAddress
  pub first_multicast_address : List SocketAddress
  pub first_anycast_address : List SocketAddress

pub data AddressFamily : Type 0 where
  in_addr : AddressFamily
  in6_addr : AddressFamily

pub data AddressType : Type 0 where
  unicast : AddressType
  anycast : AddressType
  multicast : AddressType

-- The flags that differ between the calls; GAA_FLAG_INCLUDE_PREFIX and GAA_FLAG_SKIP_DNS_SERVER
-- are in all of them.
pub record Flags : Type 0 where
  pub skip_unicast : Bool
  pub skip_anycast : Bool
  pub skip_multicast : Bool

-- What `GetAdaptersAddresses` answers to a buffer of some bytes: ERROR_BUFFER_OVERFLOW comes with
-- the size that is needed.
pub data Answer : Type 0 where
  success : List Adapter → Answer
  buffer_overflow : ℕ → Answer
  failed : ℕ → Answer

abbrev pub error_buffer_overflow : ℕ
error_buffer_overflow = 111

abbrev pub min_size : ℕ
min_size = 15 * 1024

-- The loop. `retries-- > 1`: the last attempt is the one that finds `retries` at 1 or 0.
unfoldable pub get_adapters_from : (ℕ → Answer) → ℕ → ℕ → Result ℕ (List Adapter)
get_adapters_from query size zero = elim (query size) [
  | success adapters ↦ ok adapters
  | buffer_overflow needed ↦ err error_buffer_overflow
  | failed result ↦ err result
]
get_adapters_from query size (suc zero) = elim (query size) [
  | success adapters ↦ ok adapters
  | buffer_overflow needed ↦ err error_buffer_overflow
  | failed result ↦ err result
]
get_adapters_from query size (suc (suc retries)) = elim (query size) [
  | success adapters ↦ ok adapters
  | buffer_overflow needed ↦ get_adapters_from query needed (suc retries)
  | failed result ↦ err result
]

unfoldable pub get_adapters_addresses : (ℕ → Answer) → ℕ → Result ℕ (List Adapter)
get_adapters_addresses query retries = get_adapters_from query min_size retries

-- The test on the family and the size, and `detail::copy`.
abbrev pub copy : AddressFamily → Sockaddr → ℕ → List Str
copy in_addr (inet address) n = if leb 4 n then address ∷ [] else []
copy in6_addr (inet6 address) n = if leb 16 n then address ∷ [] else []
copy _ _ n = []

unfoldable pub find_address : AddressFamily → List SocketAddress → List Str
find_address family [] = []
find_address family (address ∷ addresses) =
    copy family address.sockaddr address.length ++ find_address family addresses

-- The switch: the flags of the query and the chain that is searched.
abbrev pub flags_of : AddressType → Flags
flags_of unicast = record { skip_unicast = false; skip_anycast = true; skip_multicast = true }
flags_of anycast = record { skip_unicast = true; skip_anycast = false; skip_multicast = true }
flags_of multicast = record { skip_unicast = true; skip_anycast = true; skip_multicast = false }

abbrev pub chain : AddressType → Adapter → List SocketAddress
chain unicast adapter = adapter.first_unicast_address
chain anycast adapter = adapter.first_anycast_address
chain multicast adapter = adapter.first_multicast_address

-- The loop over the adapters, which ends at the first of the name.
unfoldable pub find_adapter : AddressFamily → AddressType → Str → List Adapter → List Str
find_adapter family type name [] = []
find_adapter family type name (adapter ∷ adapters) =
    let rest = find_adapter family type name adapters in
    if equal name adapter.friendly_name then find_address family (chain type adapter) else rest

-- The static `adapters` of an instance of the function: the query is made by the first call.
unfoldable pub adapters_of :
    (Flags → ℕ → Answer) → Flags → Option (List Adapter) → Result ℕ (List Adapter)
adapters_of query flags (some adapters) = ok adapters
adapters_of query flags none = get_adapters_addresses (query flags) 3

-- The result, and the static variable after the call.
unfoldable pub get_nic_addresses :
    (Flags → ℕ → Answer)
    → AddressFamily
    → Str
    → AddressType
    → Option (List Adapter)
    → Result ℕ (List Str × Option (List Adapter))
get_nic_addresses query family name type adapters = do
  known ← adapters_of query (flags_of type) adapters
  ok (find_adapter family type name known, some known)

-- With a name of bytes, which `widen` makes characters of.
unfoldable pub get_nic_addresses_narrow :
    (ℕ → ℕ)
    → (Flags → ℕ → Answer)
    → AddressFamily
    → Str
    → AddressType
    → Option (List Adapter)
    → Result ℕ (List Str × Option (List Adapter))
unfolding get_nic_addresses
get_nic_addresses_narrow widen query family name type adapters =
    get_nic_addresses query family (map widen name) type adapters

-- The function of utils/nic_addresses.hpp, for unicast addresses.
unfoldable pub get_unicast_addresses :
    (ℕ → ℕ)
    → (Flags → ℕ → Answer)
    → AddressFamily
    → Str
    → Option (List Adapter)
    → Result ℕ (List Str × Option (List Adapter))
unfolding get_nic_addresses_narrow
get_unicast_addresses widen query family ifname adapters =
    get_nic_addresses_narrow widen query family ifname unicast adapters

pub record NicInfo : Type 0 where
  pub name : Str
  pub mac : Str
  pub ipv4 : List Str
  pub ipv6 : List Str

-- The switch of `get_nic_info`, which does not look at the size.
abbrev pub info_copy : AddressFamily → Sockaddr → List Str
info_copy in_addr (inet address) = address ∷ []
info_copy in6_addr (inet6 address) = address ∷ []
info_copy _ _ = []

unfoldable pub info_addresses : AddressFamily → List SocketAddress → List Str
info_addresses family [] = []
info_addresses family (address ∷ addresses) =
    info_copy family address.sockaddr ++ info_addresses family addresses

-- `narrow` is the conversion of a wide character.
unfoldable pub to_info : (ℕ → ℕ) → Adapter → NicInfo
to_info narrow adapter = record {
  name = map narrow adapter.friendly_name;
  mac = adapter.physical_address;
  ipv4 = info_addresses in_addr adapter.first_unicast_address;
  ipv6 = info_addresses in6_addr adapter.first_unicast_address;
}

unfoldable pub get_nic_info :
    (Flags → ℕ → Answer)
    → (ℕ → ℕ)
    → Option (List Adapter)
    → Result ℕ (List NicInfo × Option (List Adapter))
get_nic_info query narrow adapters = do
  known ← adapters_of query (flags_of unicast) adapters
  ok (map (to_info narrow) known, some known)
