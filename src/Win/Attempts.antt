-- ===== src/Win/Attempts.antt =====
-- The loop of `get_adapters_addresses` of utils/win/nic_addresses.cpp.
use fb_utils.Prelude.{ℕ, zero, suc, ◌≡◌, refl, ◌↔◌, List, ok, arith}
use fb_utils.Win.Nic.{
  Adapter, Answer, success, buffer_overflow, failed, get_adapters_from, get_adapters_addresses,
  min_size,
}

-- The system gives the adapters to a buffer of `size` bytes, or, within the attempts, to one of the
-- size that it has last asked for.
pub data Serves (query : ℕ → Answer) : ℕ → ℕ → List Adapter → Type 0 where
  at_once :
      {size n : ℕ} {adapters : List Adapter}
      → query size ≡ success adapters
      → Serves query size (suc n) adapters
  after_overflow :
      {size needed n : ℕ} {adapters : List Adapter}
      → query size ≡ buffer_overflow needed
      → Serves query needed n adapters
      → Serves query size (suc n) adapters

-- No retries are an attempt too.
abbrev pub attempts : ℕ → ℕ
attempts zero = 1
attempts (suc retries) = suc retries

data Asked (query : ℕ → Answer) (size : ℕ) : Type 0 where
  succeeds : {adapters : List Adapter} → query size ≡ success adapters → Asked query size
  overflows : {needed : ℕ} → query size ≡ buffer_overflow needed → Asked query size
  fails : {error : ℕ} → query size ≡ failed error → Asked query size

ask : (query : ℕ → Answer) (size : ℕ) (answer : Answer) → query size ≡ answer → Asked query size
ask query size (success adapters) e = succeeds e
ask query size (buffer_overflow needed) e = overflows e
ask query size (failed error) e = fails e

from-Serves :
    (query : ℕ → Answer) (size retries : ℕ) (adapters : List Adapter)
    → get_adapters_from query size retries ≡ ok adapters
    → Serves query size (attempts retries) adapters
unfolding get_adapters_from
from-Serves query size zero adapters h = at_once (ground arith)
from-Serves query size (suc zero) adapters h = at_once (ground arith)
from-Serves query size (suc (suc retries)) adapters h = elim (ask query size _ refl) [
  | succeeds e ↦ at_once (ground arith)
  | overflows e ↦
      after_overflow e (from-Serves query _ (suc retries) adapters (rw (get_adapters_from, e) at h))
  | fails e ↦ absurd (ground arith)
]

Serves-from :
    (query : ℕ → Answer) (size retries : ℕ) (adapters : List Adapter)
    → Serves query size (attempts retries) adapters
    → get_adapters_from query size retries ≡ ok adapters
unfolding get_adapters_from
Serves-from query size zero adapters (at_once e) = rw (get_adapters_from, e)
Serves-from query size (suc zero) adapters (at_once e) = rw (get_adapters_from, e)
Serves-from query size zero adapters (after_overflow e s) = elim s [ ]
Serves-from query size (suc zero) adapters (after_overflow e s) = elim s [ ]
Serves-from query size (suc (suc retries)) adapters (at_once e) = rw (get_adapters_from, e)
Serves-from query size (suc (suc retries)) adapters (after_overflow e s) =
    rw (get_adapters_from, e) (Serves-from query _ (suc retries) adapters s)

-- get_adapters_addresses returns adapters exactly when the system gives them within the attempts,
-- the first of 15 KiB and each other of the size that the system has just asked for, with an
-- attempt for each of the retries, and one where there are none.
pub get_adapters_addresses_iff :
    (query : ℕ → Answer) (retries : ℕ) (adapters : List Adapter)
    → (get_adapters_addresses query retries ≡ ok adapters)
      ↔ Serves query min_size (attempts retries) adapters
unfolding get_adapters_addresses
get_adapters_addresses_iff query retries adapters =
    (from-Serves query min_size retries adapters, Serves-from query min_size retries adapters)
