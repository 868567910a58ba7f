-- ===== src/Ini/Token/Brackets.antt =====
-- How utils/ini_parser/ini_parser.cpp tokenizes the line of a section.
use fb_utils.Prelude.{
  ℕ, suc, ◌+◌, ◌-◌, ◌≡◌, ◌≢◌, refl, sym, ap, ◌∙◌, false, [], ◌∷◌, ◌++◌, some, Str, ok, length,
  arith, All, length-append, ◌==◌, index_from, find_if, take-length-append, drop-drop,
  drop-length-append, drop,
}
use fb_utils.Ini.Token.{
  token, tokenize_from, tokenize, scan_at, scan_bracket, bracket_found, bracket_at,
}
use fb_utils.Ini.Token.Steps.{tokenize_from-end}

first_bracket :
    (k : ℕ) (v rest : Str)
    → All (λ c. c ≢ b']') v
    → index_from (λ c. c == b']') k (v ++ (b']' ∷ rest)) ≡ some (k + length v)
unfolding index_from
first_bracket k [] rest h = ap (λ n. some n) (omega arith)
first_bracket k (c ∷ v) rest (h, hs) =
    let e : (c == b']') ≡ false = ground arith in
    let n : suc k + length v ≡ k + suc (length v) = omega arith in
    rw (e, first_bracket (suc k) v rest hs, n) refl

past_bracket : (v : Str) → drop (1 + length v + 1) (b'[' ∷ (v ++ (b']' ∷ []))) ≡ []
past_bracket v =
    let n : 1 + length v + 1 ≡ suc (length v + 1) = omega arith in
    rw (n) (
      sym (drop-drop (length v) 1 (v ++ (b']' ∷ [])))
      ∙ ap (drop 1) (drop-length-append v (b']' ∷ [])))

pub tokenize_section :
    (v : Str)
    → All (λ c. c ≢ b']') v
    → tokenize (b'[' ∷ (v ++ (b']' ∷ []))) ≡ ok (token b'[' v ∷ [])
unfolding tokenize tokenize_from find_if scan_at scan_bracket bracket_found bracket_at index_from
tokenize_section v h =
    let some_bytes : (0 + 1 == suc (length (v ++ (b']' ∷ [])))) ≡ false =
      ground (arith, length-append v (b']' ∷ [])) in
    let size : 1 + length v - 0 - 1 ≡ length v = omega arith in
    rw (tokenize, tokenize_from, scan_at, bracket_found, some_bytes, first_bracket 1 v [] h)
      (rw (size, take-length-append v (b']' ∷ []))
        (tokenize_from-end (b'[' ∷ (v ++ (b']' ∷ []))) (length (v ++ (b']' ∷ [])))
          (1 + length v + 1) (record { res = token b'[' v ∷ []; last = 1 + length v })
          (past_bracket v)))
