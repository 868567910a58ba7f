-- ===== src/Posix/Sets.antt =====
-- What is read of a processor set after one is written, in utils/posix/thread.cpp.
use fb_utils.Prelude.{
  ℕ, zero, suc, ◌+◌, ◌≤◌, ◌<◌, ◌≡◌, refl, ap, Bool, true, false, ◌&&◌, ◌||◌, List, [], ◌∷◌, some,
  ◌==◌, ltb, leb, if◌then◌else◌, Result, ok, err, get_elem?, take, length, elem, All, arith, inl,
  inr, Bool-cases,
}
use fb_utils.Posix.Thread.{
  alloc_set, Affinity, set_all, set_thread_cpu_set, collect, get_thread_cpu_set,
}

-- The documented behaviour: there is a processor, and of the macros for the processors that there
-- are; `has` says which ones are in a set.
pub record Documented {Set : Type 0} (a : Affinity Set) : Type 0 where
  pub has : Set → ℕ → Bool
  pub some_processor : 0 < a.nprocs
  pub zero_lem : (size : ℕ) (set : Set) (c : ℕ) → has (a.zero_s size set) c ≡ false
  pub set_lem :
      (cpu : ℕ) (set : Set)
      → cpu < a.nprocs
      → (full : Set) × (a.set_s cpu a.nprocs set ≡ ok full)
        × ((c : ℕ) → has full c ≡ (c == cpu || has set c))
  pub isset_lem :
      (cpu : ℕ) (set : Set) → cpu < a.nprocs → a.isset_s cpu a.nprocs set ≡ ok (has set cpu)

-- Larger numbers follow.
abbrev pub Increasing : List ℕ → Type 0
Increasing [] = Unit
Increasing (c ∷ cs) = All (λ d. c < d) cs × Increasing cs

-- The system when the thread has the processors of a set.
abbrev pub after : {Set : Type 0} → Affinity Set → Set → Affinity Set
after a full = record a { getaffinity = λ size set. ok full }

listed : (ℕ → Bool) → ℕ → ℕ → List ℕ
listed p zero cpu = []
listed p (suc left) cpu = let rest = listed p left (suc cpu) in if p cpu then cpu ∷ rest else rest

listed-All : (p : ℕ → Bool) (left cpu low : ℕ) → low < cpu → All (λ d. low < d) (listed p left cpu)
unfolding listed
listed-All p zero cpu low h = tt
listed-All p (suc left) cpu low h = elim (Bool-cases (p cpu)) [
  | inl e ↦ rw (e) (h, listed-All p left (suc cpu) low (omega arith))
  | inr e ↦ rw (e) (listed-All p left (suc cpu) low (omega arith))
]

listed-Increasing : (p : ℕ → Bool) (left cpu : ℕ) → Increasing (listed p left cpu)
unfolding listed
listed-Increasing p zero cpu = tt
listed-Increasing p (suc left) cpu = elim (Bool-cases (p cpu)) [
  | inl e ↦
      rw (e) (listed-All p left (suc cpu) cpu (omega arith), listed-Increasing p left (suc cpu))
  | inr e ↦ rw (e) (listed-Increasing p left (suc cpu))
]

elem-listed :
    (p : ℕ → Bool) (left cpu c : ℕ)
    → elem c (listed p left cpu) ≡ ((leb cpu c && ltb c (cpu + left)) && p c)
unfolding listed
elem-listed p zero cpu c = ground arith
elem-listed p (suc left) cpu c =
    let rest = elem-listed p left (suc cpu) c in
    elim (Bool-cases (p cpu)) [
      | inl e ↦
          rw (e, rest)
            (elim (Bool-cases (c == cpu)) [
              | inl k ↦ let same : c ≡ cpu = ground arith in rw (same, e) (ground arith)
              | inr k ↦ ground arith
            ])
      | inr e ↦
          rw (e, rest)
            (elim (Bool-cases (c == cpu)) [
              | inl k ↦ let same : c ≡ cpu = ground arith in rw (same, e) (ground arith)
              | inr k ↦ ground arith
            ])
    ]

or_false : (b : Bool) → (b || false) ≡ b
or_false true = refl
or_false false = refl

or_assoc : (a b c : Bool) → (a || (b || c)) ≡ ((a || b) || c)
or_assoc true b c = refl
or_assoc false b c = refl

elem-take :
    (ids : List ℕ) (k cpu c : ℕ)
    → get_elem? ids k ≡ some cpu
    → elem c (take (suc k) ids) ≡ (elem c (take k ids) || c == cpu)
elem-take [] k cpu c e = absurd cc
elem-take (b ∷ ids) zero cpu c e = let same : b ≡ cpu = cc in rw (same) (or_false (c == cpu))
elem-take (b ∷ ids) (suc k) cpu c e =
    rw (elem-take ids k cpu c e) (or_assoc (c == b) (elem c (take k ids)) (c == cpu))

get_elem-All :
    (P : ℕ → Type 0) (ids : List ℕ) (k : ℕ)
    → All P ids
    → k < length ids
    → (cpu : ℕ) × (get_elem? ids k ≡ some cpu) × P cpu
get_elem-All P [] k h lt = absurd (omega arith)
get_elem-All P (b ∷ ids) zero h lt = (b, refl, h.0)
get_elem-All P (b ∷ ids) (suc k) h lt = get_elem-All P ids k h.1 (omega arith)

-- The identifiers are put in from the last to the first.
set_all_lem :
    {Set : Type 0} (a : Affinity Set) (d : Documented a) (ids : List ℕ) (k : ℕ) (set : Set)
    → All (λ c. c < a.nprocs) ids
    → k ≤ length ids
    → (full : Set) × (set_all a ids k set ≡ ok full)
      × ((c : ℕ) → d.has full c ≡ (elem c (take k ids) || d.has set c))
unfolding set_all
set_all_lem a d ids zero set h lt = (set, refl, λ c. refl)
set_all_lem a d ids (suc k) set h lt =
    let (cpu, found, small) = get_elem-All (λ c. c < a.nprocs) ids k h (omega arith) in
    let (next, e, has_next) = d.set_lem cpu set small in
    let (full, e', has_full) = set_all_lem a d ids k next h (omega arith) in
    (
      full,
      rw (set_all, found, e) e',
      λ c.
          rw (elem-take ids k cpu c found, has_full c, has_next c)
            (or_assoc (elem c (take k ids)) (c == cpu) (d.has set c)),
    )

collect_lem :
    {Set : Type 0} (a : Affinity Set) (d : Documented a) (left cpu : ℕ) (set : Set)
    → cpu + left ≤ a.nprocs
    → collect a left cpu set ≡ ok (listed (d.has set) left cpu)
unfolding collect listed
collect_lem a d zero cpu set h = refl
collect_lem a d (suc left) cpu set h =
    rw (d.isset_lem cpu set (omega arith), collect_lem a d left (suc cpu) set (omega arith)) refl

-- The system is asked to give the thread this set.
abbrev pub submitted : {Set : Type 0} → Affinity Set → Set → Result {0, 0} ℕ Unit
submitted a full =
    let error = a.setaffinity (a.alloc_size a.nprocs) full in
    if error == 0 then ok tt else err error

small_elem : (n : ℕ) (ids : List ℕ) (c : ℕ) → All (λ c. c < n) ids → elem c ids ≡ true → c < n
small_elem n [] c h e = absurd cc
small_elem n (b ∷ ids) c h e = elim (Bool-cases (c == b)) [
  | inl k ↦ let below : b < n = h.0 in ground arith
  | inr k ↦ small_elem n ids c h.1 (rw (k) at e)
]

take_all : (ids : List ℕ) → take (length ids) ids ≡ ids
take_all [] = refl
take_all (b ∷ ids) = ap (◌∷◌ b) (take_all ids)

same_members :
    (p : ℕ → Bool) (n : ℕ) (ids : List ℕ) (c : ℕ)
    → All (λ c. c < n) ids
    → p c ≡ elem c ids
    → elem c (listed p n 0) ≡ elem c ids
same_members p n ids c h e = elim (Bool-cases (elem c ids)) [
  | inl k ↦
      let below : c < n = small_elem n ids c h k in rw (elem-listed p n 0 c, e, k) (ground arith)
  | inr k ↦ rw (elem-listed p n 0 c, e, k) (ground arith)
]

-- Where the identifiers are those of processors that there are and a set can be allocated,
-- set_thread_cpu_set submits a set of which get_thread_cpu_set, on a system that gives it back, makes
-- just those identifiers, each once and in increasing order.
pub get_thread_cpu_set-set_thread_cpu_set :
    {Set : Type 0} (a : Affinity Set) (d : Documented a) (ids : List ℕ) (empty : Set)
    → All (λ c. c < a.nprocs) ids
    → a.alloc a.nprocs ≡ ok empty
    → (full : Set) × (cpus : List ℕ) × (set_thread_cpu_set a ids (length ids) ≡ submitted a full)
      × (get_thread_cpu_set (after a full) ≡ ok cpus)
      × Increasing cpus
      × ((c : ℕ) → elem c cpus ≡ elem c ids)
unfolding set_thread_cpu_set get_thread_cpu_set alloc_set
get_thread_cpu_set-set_thread_cpu_set a d ids empty h e =
    let some_processor = d.some_processor in
    let counted : (a.nprocs == 0) ≡ false = ground arith in
    let zeroed = a.zero_s (a.alloc_size a.nprocs) empty in
    let (full, done, has_full) = set_all_lem a d ids (length ids) zeroed h (omega arith) in
    let has_ids : (c : ℕ) → d.has full c ≡ elem c ids = λ c.
      rw (has_full c, d.zero_lem (a.alloc_size a.nprocs) empty c, take_all ids)
        (or_false (elem c ids)) in
    (
      full,
      listed (d.has full) a.nprocs 0,
      rw (alloc_set, counted, e, done) refl,
      rw (alloc_set, counted, e) (collect_lem a d a.nprocs 0 full (omega arith)),
      listed-Increasing (d.has full) a.nprocs 0,
      λ c. same_members (d.has full) a.nprocs ids c h (has_ids c),
    )
