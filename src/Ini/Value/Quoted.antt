-- ===== src/Ini/Value/Quoted.antt =====
-- What stands between quotes: `find_quote` and `process_quoted_value` of
-- utils/ini_parser/ini_parser.cpp, against escaping and unescaping by recursion.
use fb_utils.Prelude.{
  ℕ, zero, suc, ◌+◌, ◌≤◌, ◌≡◌, ◌≢◌, refl, ap, ◌∙◌, true, [], ◌∷◌, ◌++◌, append_assoc, append-nil,
  some, ◌==◌, Bool-cases, if◌then◌else◌, Str, elem, ok, Settles, length, arith, inl, inr, ◌↔◌,
}
use fb_utils.Ini.Value.{
  escapee, break_at, quoted_from, process_quoted_value, find_quote_from, find_quote,
}

-- No bare quote, and every backslash escapes a backslash or a quote.
pub data IsEscaped : Str → Type 0 where
  nil : IsEscaped []
  plain : {c : ℕ} {s : Str} → c ≢ b'"' → c ≢ b'\\' → IsEscaped s → IsEscaped (c ∷ s)
  escaped : {d : ℕ} {s : Str} → elem d escapee ≡ true → IsEscaped s → IsEscaped (b'\\' ∷ d ∷ s)

abbrev pub unescape : Str → Str
unescape [] = []
unescape (c ∷ []) = c ∷ []
unescape (c ∷ d ∷ s) =
    let skipped = d ∷ unescape s in
    let kept = c ∷ unescape (d ∷ s) in if c == b'\\' then skipped else kept

abbrev pub escape : Str → Str
escape [] = []
escape (c ∷ s) = if elem c escapee then b'\\' ∷ c ∷ escape s else c ∷ escape s

pub escape-IsEscaped : (s : Str) → IsEscaped (escape s)
escape-IsEscaped [] = nil
escape-IsEscaped (c ∷ s) = elim (Bool-cases (elem c escapee)) [
  | inl e ↦ rw e (escaped e (escape-IsEscaped s))
  | inr e ↦ rw e (plain (ground arith) (ground arith) (escape-IsEscaped s))
]

unescape_plain : (c : ℕ) (s : Str) → c ≢ b'\\' → unescape (c ∷ s) ≡ c ∷ unescape s
unescape_plain c [] h = refl
unescape_plain c (d ∷ s) h = ground arith

pub unescape-escape : (s : Str) → unescape (escape s) ≡ s
unescape-escape [] = refl
unescape-escape (c ∷ s) = elim (Bool-cases (elem c escapee)) [
  | inl e ↦ rw (e, unescape-escape s)
  | inr e ↦ rw (e, unescape_plain c (escape s) (ground arith), unescape-escape s)
]

quoted_from-plain :
    (fuel : ℕ) (res lead : Str) (c : ℕ) (s : Str)
    → c ≢ b'\\'
    → quoted_from (suc fuel) res lead (c ∷ s) ≡ quoted_from (suc fuel) res (lead ++ (c ∷ [])) s
unfolding quoted_from
quoted_from-plain fuel res lead c s h =
    ground (arith, append_assoc lead (c ∷ []) (break_at b'\\' s).0)

quoted_from-unescape :
    {s : Str}
    → IsEscaped s
    → (fuel : ℕ) (res lead : Str) → length s ≤ fuel
    → quoted_from (suc fuel) res lead s ≡ ok (res ++ (lead ++ unescape s))
unfolding quoted_from
quoted_from-unescape nil fuel res lead h = refl
quoted_from-unescape (plain {c} {s} q b e) fuel res lead h =
    quoted_from-plain fuel res lead c s b
    ∙ quoted_from-unescape e fuel res (lead ++ (c ∷ [])) (omega arith)
    ∙ rw (unescape_plain c s b, append_assoc)
quoted_from-unescape (escaped {d} {s} m e) zero res lead h = absurd (omega arith)
quoted_from-unescape (escaped {d} {s} m e) (suc fuel) res lead h =
    quoted_from-unescape e fuel (res ++ (lead ++ [])) (d ∷ []) (omega arith)
    ∙ rw (append-nil, append_assoc)

-- An escaped value is unquoted to what it stands for: the assertion on a backslash at the end
-- holds, and the loop comes to its end.
pub process_quoted_value-unescape :
    {s : Str} → IsEscaped s → process_quoted_value s ≡ ok (unescape s)
unfolding process_quoted_value
process_quoted_value-unescape {s} e = quoted_from-unescape e (length s) [] [] (omega arith)

-- Every text is unquoted from its escaped form.
pub process_quoted_value-escape : (s : Str) → process_quoted_value (escape s) ≡ ok s
process_quoted_value-escape s =
    process_quoted_value-unescape (escape-IsEscaped s) ∙ rw (unescape-escape s)

find_quote_from_plain :
    (i c : ℕ) (s : Str)
    → c ≢ b'"'
    → c ≢ b'\\'
    → find_quote_from i (c ∷ s) ≡ find_quote_from (suc i) s
unfolding find_quote_from
find_quote_from_plain i c [] q b = ground arith
find_quote_from_plain i c (d ∷ s) q b = ground arith

find_quote_from_escaped :
    (i d : ℕ) (s : Str)
    → elem d escapee ≡ true
    → find_quote_from i (b'\\' ∷ d ∷ s) ≡ find_quote_from (suc (suc i)) s
unfolding find_quote_from
find_quote_from_escaped i d s m = rw m

find_quote_from_quote : (i : ℕ) (rest : Str) → find_quote_from i (b'"' ∷ rest) ≡ ok (some i)
unfolding find_quote_from
find_quote_from_quote i [] = refl
find_quote_from_quote i (c ∷ rest) = refl

find_quote_from-IsEscaped :
    {s : Str} (i : ℕ) (rest : Str)
    → IsEscaped s
    → find_quote_from i (s ++ (b'"' ∷ rest)) ≡ ok (some (i + length s))
find_quote_from-IsEscaped i rest nil =
    find_quote_from_quote i rest ∙ ap (λ k. ok (some k)) (omega arith)
find_quote_from-IsEscaped i rest (plain {c} {s} q b e) =
    find_quote_from_plain i c _ q b
    ∙ find_quote_from-IsEscaped (suc i) rest e
    ∙ ap (λ k. ok (some k)) (omega arith)
find_quote_from-IsEscaped i rest (escaped {d} {s} m e) =
    find_quote_from_escaped i d _ m
    ∙ find_quote_from-IsEscaped (suc (suc i)) rest e
    ∙ ap (λ k. ok (some k)) (omega arith)

pub find_quote-IsEscaped :
    {s : Str} (rest : Str) → IsEscaped s → find_quote (s ++ (b'"' ∷ rest)) ≡ ok (some (length s))
unfolding find_quote
find_quote-IsEscaped rest e =
    find_quote_from-IsEscaped 0 rest e ∙ ap (λ k. ok (some k)) (omega arith)

-- `s` begins with an escaped value of `k` bytes and a quote.
pub record StopsAt (s : Str) (k : ℕ) : Type 0 where
  pub before : Str
  pub after : Str
  pub splits : s ≡ before ++ (b'"' ∷ after)
  pub position : length before ≡ k
  pub is_escaped : IsEscaped before

StopsAt-plain :
    {s : Str} {k : ℕ} (c : ℕ) → c ≢ b'"' → c ≢ b'\\' → StopsAt s k → StopsAt (c ∷ s) (suc k)
StopsAt-plain c q b t = record {
  before = c ∷ t.before;
  after = t.after;
  splits = ap (◌∷◌ c) t.splits;
  position = ap suc t.position;
  is_escaped = plain q b t.is_escaped;
}

StopsAt-escaped :
    {s : Str} {k : ℕ} (d : ℕ)
    → elem d escapee ≡ true
    → StopsAt s k
    → StopsAt (b'\\' ∷ d ∷ s) (suc (suc k))
StopsAt-escaped d m t = record {
  before = b'\\' ∷ d ∷ t.before;
  after = t.after;
  splits = ap (λ x. b'\\' ∷ d ∷ x) t.splits;
  position = ap (λ k. suc (suc k)) t.position;
  is_escaped = escaped m t.is_escaped;
}

StopsAt-here : (rest : Str) → StopsAt (b'"' ∷ rest) 0
StopsAt-here rest = record {
  before = [];
  after = rest;
  splits = refl;
  position = refl;
  is_escaped = nil;
}

-- The position found, less that of the text's own start.
abbrev From : ℕ → Str → ℕ → Type 0
From i s j = (k : ℕ) × (j ≡ i + k) × StopsAt s k

From-quote : {i j c : ℕ} (s : Str) → c ≡ b'"' → j ≡ i → From i (c ∷ s) j
From-quote {i} s q e = rw q (0, omega arith, StopsAt-here s)

From-plain :
    (i : ℕ) {j c : ℕ} {s : Str} → c ≢ b'"' → c ≢ b'\\' → From (suc i) s j → From i (c ∷ s) j
From-plain i {c} q b (k, e, t) = (suc k, omega arith, StopsAt-plain c q b t)

From-escaped :
    (i : ℕ) {j c d : ℕ} {s : Str}
    → c ≡ b'\\'
    → elem d escapee ≡ true
    → From (suc (suc i)) s j
    → From i (c ∷ d ∷ s) j
From-escaped i {d} b m (k, e, t) = rw b (suc (suc k), omega arith, StopsAt-escaped d m t)

find_quote_from-StopsAt : (i : ℕ) (s : Str) {j : ℕ} → find_quote_from i s ≡ ok (some j) → From i s j
unfolding find_quote_from
find_quote_from-StopsAt i [] h = cc
find_quote_from-StopsAt i (c ∷ []) h = elim (Bool-cases (c == b'"')) [
  | inl q ↦ From-quote [] (ground arith) (ground arith)
  | inr q ↦ absurd (ground arith)
]
find_quote_from-StopsAt i (c ∷ d ∷ s) h = elim (Bool-cases (c == b'"')) [
  | inl q ↦ From-quote (d ∷ s) (ground arith) (ground arith)
  | inr q ↦ elim (Bool-cases (c == b'\\')) [
    | inr b ↦
        From-plain i (ground arith) (ground arith)
          (find_quote_from-StopsAt (suc i) (d ∷ s) (ground arith))
    | inl b ↦ elim (Bool-cases (elem d escapee)) [
      | inl m ↦
          From-escaped i (ground arith) m (find_quote_from-StopsAt (suc (suc i)) s (ground arith))
      | inr m ↦ absurd (ground arith)
    ]
  ]
]

-- `find_quote` gives the position `k` exactly when the text is an escaped value of `k` bytes, a
-- quote, and whatever follows.
pub find_quote_iff : (s : Str) (k : ℕ) → (find_quote s ≡ ok (some k)) ↔ StopsAt s k
unfolding find_quote
find_quote_iff s k = (
  λ h. let (j, e, t) = find_quote_from-StopsAt 0 s h in rw (let x : k ≡ j = omega arith in x) t,
  λ t. rw (t.splits, ← t.position) (find_quote-IsEscaped t.after t.is_escaped),
)

find_quote_from-Settles : (i : ℕ) (s : Str) → Settles (find_quote_from i s)
unfolding find_quote_from
find_quote_from-Settles i [] = tt
find_quote_from-Settles i (c ∷ []) = elim (Bool-cases (c == b'"')) [
  | inl q ↦ rw q tt
  | inr q ↦ rw q (elim (Bool-cases (c == b'\\')) [ inl b ↦ rw b tt | inr b ↦ rw b tt ])
]
find_quote_from-Settles i (c ∷ d ∷ s) =
    ground (arith, find_quote_from-Settles (suc i) (d ∷ s), find_quote_from-Settles (suc (suc i)) s)

pub find_quote-Settles : (s : Str) → Settles (find_quote s)
unfolding find_quote
find_quote-Settles s = find_quote_from-Settles 0 s
