-- ===== src/Posix/Tests.antt =====
-- Runs of utils/posix, and an instance of its theorem.
use fb_utils.Prelude.{ℕ, elem, ◌≡◌, refl, List, [], ◌∷◌, some, codes, equal, arith, ok, Ensures}
use fb_utils.Posix.Nic.{
  Ifaddr, inet, packet, in_addr, get_nic_addresses, get_nic_info, addresses_of, add_interfaces,
  add_to,
}
use fb_utils.Posix.Thread.{alloc_set, Affinity, set_thread_cpu_set, get_thread_cpu_set, collect}
use fb_utils.Posix.Sets.{
  Documented, after, submitted, Increasing, get_thread_cpu_set-set_thread_cpu_set,
}
use fb_utils.Posix.Agree.{lookup, get_nic_info-Agrees}

abbrev interfaces : List Ifaddr
interfaces =
    record { ifa_name = codes "lo"; ifa_addr = some (inet (127 ∷ 0 ∷ 0 ∷ 1 ∷ [])) }
    ∷ record {
      ifa_name = codes "eth0";
      ifa_addr = some (packet 6 (2 ∷ 4 ∷ 6 ∷ 8 ∷ 1 ∷ 3 ∷ 0 ∷ 0 ∷ []));
    }
    ∷ record { ifa_name = codes "eth0"; ifa_addr = some (inet (10 ∷ 0 ∷ 0 ∷ 7 ∷ [])) }
    ∷ []

found : get_nic_addresses in_addr (some interfaces) (codes "eth0") ≡ (10 ∷ 0 ∷ 0 ∷ 7 ∷ []) ∷ []
unfolding addresses_of equal
found = refl

grouped :
    get_nic_info (some interfaces)
    ≡ ok (
        record { name = codes "lo"; mac = []; ipv4 = (127 ∷ 0 ∷ 0 ∷ 1 ∷ []) ∷ []; ipv6 = [] }
        ∷ record {
          name = codes "eth0";
          mac = 2 ∷ 4 ∷ 6 ∷ 8 ∷ 1 ∷ 3 ∷ [];
          ipv4 = (10 ∷ 0 ∷ 0 ∷ 7 ∷ []) ∷ [];
          ipv6 = [];
        }
        ∷ [])
unfolding get_nic_info add_interfaces add_to equal
grouped = refl

get_nic_info-Agrees_example :
    Ensures
      (λ infos.
        lookup in_addr (codes "eth0") infos
        ≡ get_nic_addresses in_addr (some interfaces) (codes "eth0"))
      (get_nic_info (some interfaces))
get_nic_info-Agrees_example =
    get_nic_info-Agrees in_addr (codes "eth0") interfaces (tt, (omega arith, (tt, tt)))

-- Sets as the lists of their members, on a machine with four processors.
abbrev machine : Affinity (List ℕ)
machine = record {
  nprocs = 4;
  alloc = λ n. ok [];
  alloc_size = λ n. 8;
  zero_s = λ size set. [];
  set_s = λ cpu size set. ok (cpu ∷ set);
  isset_s = λ cpu size set. ok (elem cpu set);
  setaffinity = λ size set. 0;
  getaffinity = λ size set. ok set;
}

machine-Documented : Documented machine
machine-Documented = record {
  has = λ set c. elem c set;
  some_processor = omega arith;
  zero_lem = λ size set c. refl;
  set_lem = λ cpu set h. (cpu ∷ set, refl, λ c. refl);
  isset_lem = λ cpu set h. refl;
}

sorted_set : get_thread_cpu_set (after machine (3 ∷ 0 ∷ 3 ∷ [])) ≡ ok (0 ∷ 3 ∷ [])
unfolding get_thread_cpu_set alloc_set collect
sorted_set = refl

get_thread_cpu_set-set_thread_cpu_set_example :
    (full : List ℕ) × (cpus : List ℕ) × (set_thread_cpu_set machine (3 ∷ 0 ∷ 3 ∷ []) 3
      ≡ submitted machine full)
    × (get_thread_cpu_set (after machine full) ≡ ok cpus)
    × Increasing cpus
    × ((c : ℕ) → elem c cpus ≡ elem c (3 ∷ 0 ∷ 3 ∷ []))
get_thread_cpu_set-set_thread_cpu_set_example =
    get_thread_cpu_set-set_thread_cpu_set machine machine-Documented (3 ∷ 0 ∷ 3 ∷ []) []
      (omega arith, (omega arith, (omega arith, tt))) refl
