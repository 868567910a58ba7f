-- ===== src/Ini/Token/Progress.antt =====
-- The loop of `tokenize` of utils/ini_parser/ini_parser.cpp: it comes to its end, and what it
-- returns are well-formed tokens.
use Prim.Native.Nat.add
use fb_utils.Prelude.{
  ℕ, zero, suc, ◌+◌, ◌≤◌, ◌<◌, ◌≡◌, refl, ap, Bool, true, false, not, List, [], ◌∷◌, some,
  Bool-cases, Option-cases, Str, ok, err, timeout, fault, Ensures, length, drop, arith, inl, inr,
  index_from, find_if, find_first_not_of, at, All, All-append, ◌>>=◌,
}
use fb_utils.Ini.Error.{Outcome}
use fb_utils.Ini.Value.{space, is_space}
use fb_utils.Ini.Token.{Token, Scan, Step, next, finished, scan_at, tokenize_from, tokenize, start}
use fb_utils.Ini.Token.Shape.{IsToken, Produces, find_if_bounds, scan_at-Produces}

-- The byte at the position that a search gives passes the test.
index_from-at :
    (p : ℕ → Bool) (k : ℕ) (s : Str) {i : ℕ}
    → index_from p k s ≡ some i
    → (j : ℕ) × (i ≡ k + j) × (p (at s j) ≡ true)
unfolding index_from
index_from-at p k [] h = cc
index_from-at p k (c ∷ cs) {i} h = elim (Bool-cases (p c)) [
  | inl e ↦ (0, ground arith, e)
  | inr e ↦
      let (j, q, t) = index_from-at p (suc k) cs {i = i} (ground arith) in (suc j, omega arith, t)
]

at-drop : (n j : ℕ) (s : Str) → at (drop n s) j ≡ at s (n + j)
at-drop zero j s = ap (at s) (omega arith)
at-drop (suc n) j [] = refl
at-drop (suc n) j (c ∷ s) = rw (add.suc) (at-drop n j s)

pub find_if-at :
    (p : ℕ → Bool) (s : Str) (pos : ℕ) {i : ℕ} → find_if p s pos ≡ some i → p (at s i) ≡ true
unfolding find_if
find_if-at p s pos {i} h =
    let (j, e, t) = index_from-at p pos (drop pos s) h in rw (e, ← at-drop pos j s) t

not-true : (b : Bool) → not b ≡ true → b ≡ false
not-true b h = ground arith

module _ (input : Str) where
  -- The rest of the loop behind one round.
  abbrev resume : ℕ → Outcome Step → Outcome (List Token)
  resume fuel step = step >>= elim [
    | finished tokens ↦ ok tokens
    | next st' ↦ tokenize_from input fuel (st'.last + 1) st'
  ]

  resume-Tokens :
      (fuel first : ℕ) (st : Scan) (step : Outcome Step)
      → All IsToken st.res
      → Produces input first st step
      → ((st' : Scan)
          → All IsToken st'.res
          → first ≤ st'.last
          → st'.last < length input
          → Ensures (All IsToken) (tokenize_from input fuel (st'.last + 1) st'))
      → Ensures (All IsToken) (resume fuel step)
  resume-Tokens fuel first st (ok (next st')) w (t, e, wt, low, high) ih =
      ih st' (rw e (All-append IsToken st.res (t ∷ []) w (wt, tt))) low high
  resume-Tokens fuel first st (ok (finished ts)) w (t, e, wt) ih =
      rw e (All-append IsToken st.res (t ∷ []) w (wt, tt))
  resume-Tokens fuel first st (err e) w p ih = tt
  resume-Tokens fuel first st fault w p ih = absurd p
  resume-Tokens fuel first st timeout w p ih = absurd p

  tokenize_from-Tokens :
      (fuel pos : ℕ) (st : Scan)
      → All IsToken st.res
      → length input < fuel + pos
      → pos ≤ length input
      → Ensures (All IsToken) (tokenize_from input fuel pos st)
  unfolding tokenize_from
  tokenize_from-Tokens zero pos st w h k = absurd (omega arith)
  tokenize_from-Tokens (suc fuel) pos st w h k =
      elim (Option-cases (find_first_not_of input space pos)) [
        | inl e ↦ rw (e, Ensures) w
        | inr (first, e) ↦
            let (low, high) = find_if_bounds _ input pos e in
            let solid = not-true (is_space (at input first)) (find_if-at _ input pos e) in
            rw (e, Ensures)
              (resume-Tokens fuel first st (scan_at input first st) w
                (scan_at-Produces input first st high solid)
                (λ st' w' low' high'.
                  tokenize_from-Tokens fuel (st'.last + 1) st' w' (omega arith) (omega arith)))
      ]

-- The tokenizer comes to an end, with an exception or with well-formed tokens.
pub tokenize-IsToken : (input : Str) → Ensures (All IsToken) (tokenize input)
unfolding tokenize
tokenize-IsToken input =
    tokenize_from-Tokens input (suc (length input)) 0 start tt (omega arith) (omega arith)
