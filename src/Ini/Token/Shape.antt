-- ===== src/Ini/Token/Shape.antt =====
-- What one round of the tokenizer of utils/ini_parser/ini_parser.cpp adds, and where it goes on.
use fb_utils.Prelude.{
  ℕ, zero, suc, ◌+◌, ◌-◌, ◌≤◌, ◌<◌, ◌≡◌, ◌≢◌, refl, ap, Bool, true, false, [], ◌∷◌, ◌++◌, Option,
  none, some, ◌==◌, Bool-cases, if◌then◌else◌, Str, ok, err, fault, timeout, length, drop, arith,
  inl, inr, index_from, find_if, is_nil, length-drop, at, ◌||◌, substr, take-length-append,
  length-append, starts_with, codes, Settles-cases,
}
use fb_utils.Ini.Error.{Outcome}
use fb_utils.Ini.Value.{find_quote, is_space}
use fb_utils.Ini.Value.Quoted.{IsEscaped, find_quote_iff, find_quote-Settles}
use fb_utils.Ini.Token.{
  Token, token, Scan, Step, next, finished, text_found, text_at, scan_text, bracket_found,
  bracket_at, scan_bracket, is_include, comment_at, scan_comment, quote_at, scan_quote, scan_at,
}

-- A position that a search gives lies from its start on, inside the text.
index_from_bounds :
    (p : ℕ → Bool) (k : ℕ) (s : Str) {i : ℕ}
    → index_from p k s ≡ some i
    → (k ≤ i) × (i < k + length s)
unfolding index_from
index_from_bounds p k [] h = cc
index_from_bounds p k (c ∷ cs) {i} h = elim (Bool-cases (p c)) [
  | inl e ↦ ground arith
  | inr e ↦ ground (arith, index_from_bounds p (suc k) cs {i = i})
]

pub find_if_bounds :
    (p : ℕ → Bool) (s : Str) (pos : ℕ) {i : ℕ}
    → find_if p s pos ≡ some i
    → (pos ≤ i) × (i < length s)
unfolding find_if
find_if_bounds p s pos {i} h =
    let (low, high) = index_from_bounds p pos (drop pos s) h in
    (low, omega (arith, length-drop pos s))

-- A quoted token is escaped, and a text token begins with a byte that is no space.
pub data IsToken : Token → Type 0 where
  quoted : {s : Str} → IsEscaped s → IsToken (token b'"' s)
  text : {c : ℕ} {s : Str} → is_space c ≡ false → IsToken (token b't' (c ∷ s))
  mark : {k : ℕ} {s : Str} → k ≢ b'"' → k ≢ b't' → IsToken (token k s)

drop-at : (s : Str) (i : ℕ) → i < length s → drop i s ≡ at s i ∷ drop (suc i) s
drop-at [] i h = absurd (omega arith)
drop-at (c ∷ s) zero h = refl
drop-at (c ∷ s) (suc i) h = drop-at s i (omega arith)

starts_with-length : (s p : Str) → starts_with s p ≡ true → length p ≤ length s
starts_with-length s [] h = omega arith
starts_with-length [] (p ∷ ps) h = cc
starts_with-length (c ∷ s) (p ∷ ps) h = ground (arith, starts_with-length s ps)

module _ (input : Str) where
  -- A round throws, or adds one token; the loop goes on behind `first` and inside the text.
  abbrev pub Produces : ℕ → Scan → Outcome Step → Type 0
  Produces first st (ok (next st')) =
      (t : Token) × (st'.res ≡ st.res ++ (t ∷ []))
      × IsToken t
      × (first ≤ st'.last)
      × (st'.last < length input)
  Produces first st (ok (finished ts)) = (t : Token) × (ts ≡ st.res ++ (t ∷ [])) × IsToken t
  Produces first st (err e) = Unit
  Produces first st fault = ⊥
  Produces first st timeout = ⊥

  found_bounds :
      (b : Bool) (p : ℕ → Bool) (first last : ℕ)
      → (if b then none else find_if p input (first + 1)) ≡ some last
      → (first + 1 ≤ last) × (last < length input)
  found_bounds true p first last h = cc
  found_bounds false p first last h = find_if_bounds p input (first + 1) h

  module _ (first : ℕ) (st : Scan) (inside : first < length input) where
    module _ (solid : is_space (at input first) ≡ false) where
      text-drop : IsToken (token b't' (drop first input))
      text-drop = rw (drop-at input first inside) (text solid)

      text-substr : (n : ℕ) → IsToken (token b't' (substr input first (suc n)))
      text-substr n = rw (drop-at input first inside) (text solid)

      text_at-Produces :
          (found : Option ℕ)
          → ((last : ℕ) → found ≡ some last → (first + 1 ≤ last) × (last < length input))
          → Produces first st (ok (text_at input first st found))
      unfolding text_at
      text_at-Produces none h = (token b't' (drop first input), refl, text-drop)
      text_at-Produces (some last) h =
          let e : last - first ≡ suc (last - first - 1) = omega (arith, h last refl) in
          (
            token b't' (substr input first (last - first)),
            refl,
            rw e (text-substr (last - first - 1)),
            ground (arith, h last refl),
            ground (arith, h last refl),
          )

      scan_text-Produces : Produces first st (ok (scan_text input first st))
      unfolding scan_text text_found
      scan_text-Produces = text_at-Produces _ (found_bounds (st.last + 1 == length input) _ first)

    bracket_at-Produces :
        (found : Option ℕ)
        → ((last : ℕ) → found ≡ some last → (first + 1 ≤ last) × (last < length input))
        → Produces first st (bracket_at input first st found)
    unfolding bracket_at
    bracket_at-Produces none h = tt
    bracket_at-Produces (some last) h = (
      token b'[' _,
      refl,
      mark (omega arith) (omega arith),
      omega (arith, h last refl),
      (h last refl).1,
    )

    quote_at-Produces :
        (found : Option ℕ)
        → find_quote (drop (first + 1) input) ≡ ok found
        → Produces first st (quote_at input first st found)
    unfolding quote_at
    quote_at-Produces none h = tt
    quote_at-Produces (some pos) h =
        let stops = (find_quote_iff (drop (first + 1) input) pos).0 h in
        let size = ap length stops.splits in
        (
          token b'"' (substr input (first + 1) pos),
          refl,
          rw (stops.splits, ← stops.position, take-length-append) (quoted stops.is_escaped),
          omega arith,
          omega (
            arith,
            size,
            length-append stops.before (b'"' ∷ stops.after),
            length-drop (first + 1) input,
            stops.position,
          ),
        )

    scan_quote-Produces : Produces first st (scan_quote input first st)
    unfolding scan_quote
    scan_quote-Produces =
        elim (Settles-cases (find_quote (drop (first + 1) input)) (find_quote-Settles _)) [
          | inl (found, e) ↦ rw e (quote_at-Produces found e)
          | inr (_, e) ↦ rw e tt
        ]

    comment_at-Produces :
        (c : ℕ) (b : Bool)
        → c ≢ b'"'
        → c ≢ b't'
        → (b ≡ true → first + 7 < length input)
        → Produces first st (ok (comment_at input c first st b))
    unfolding comment_at
    comment_at-Produces c true q t h =
        (token b'i' _, refl, mark (omega arith) (omega arith), omega arith, h refl)
    comment_at-Produces c false q t h = (token c _, refl, mark q t)

    scan_comment-Produces :
        (c : ℕ) → c ≢ b'"' → c ≢ b't' → Produces first st (ok (scan_comment input c first st))
    unfolding scan_comment is_include
    scan_comment-Produces c q t =
        comment_at-Produces c _ q t (λ (h : is_include input c first st ≡ true).
          let found : starts_with (drop (first + 1) input) (codes "include") ≡ true =
            unfold is_include in ground arith in
          omega (
            arith,
            starts_with-length (drop (first + 1) input) (codes "include") found,
            length-drop (first + 1) input,
          ))

    bracket_or_text :
        (b : Bool)
        → is_space (at input first) ≡ false
        → Produces first st (
            if b
            then bracket_at input first st (bracket_found input first st)
            else ok (scan_text input first st))
    unfolding bracket_found
    bracket_or_text true solid =
        bracket_at-Produces _ (found_bounds (st.last + 1 == length input) _ first)
    bracket_or_text false solid = scan_text-Produces solid

    scan_bracket-Produces :
        is_space (at input first) ≡ false → Produces first st (scan_bracket input first st)
    unfolding scan_bracket
    scan_bracket-Produces solid = bracket_or_text (is_nil st.res) solid

    -- A byte other than a space begins a token.
    pub scan_at-Produces :
        is_space (at input first) ≡ false → Produces first st (scan_at input first st)
    unfolding scan_at
    scan_at-Produces solid = elim (Bool-cases (at input first == b'"')) [
      | inl q ↦ rw q scan_quote-Produces
      | inr q ↦ rw q (elim (Bool-cases (at input first == b'#' || at input first == b';')) [
        | inl c ↦ rw c (scan_comment-Produces (at input first) (ground arith) (ground arith))
        | inr c ↦ rw c (elim (Bool-cases (at input first == b'=')) [
          | inl e ↦ rw e (
            token (at input first) (substr input first 1),
            refl,
            mark (ground arith) (ground arith),
            omega arith,
            inside,
          )
          | inr e ↦ rw e (elim (Bool-cases (at input first == b'[')) [
            | inl b ↦ rw b (scan_bracket-Produces solid)
            | inr b ↦ rw b (scan_text-Produces solid)
          ])
        ])
      ])
    ]
