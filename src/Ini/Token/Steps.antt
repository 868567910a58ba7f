-- ===== src/Ini/Token/Steps.antt =====
-- Single rounds of the tokenizer of utils/ini_parser/ini_parser.cpp, on what is left of the line.
use fb_utils.Prelude.{
  ℕ, suc, ◌+◌, ◌≡◌, refl, ap, sym, ◌∙◌, false, [], ◌∷◌, ◌++◌, none, some, Str, ok, length, drop,
  drop-drop, drop-length-append, take-length-append, index_from, find_if, find_first_not_of, at,
  get_or, get_or-drop,
}
use fb_utils.Ini.Value.{space, is_space}
use fb_utils.Ini.Value.Quoted.{IsEscaped, find_quote-IsEscaped}
use fb_utils.Ini.Token.{token, Scan, next, scan_at, scan_quote, quote_at, tokenize_from}

module _ (input : Str) (fuel pos : ℕ) (st : Scan) where
  -- Nothing is left.
  pub tokenize_from-end : drop pos input ≡ [] → tokenize_from input (suc fuel) pos st ≡ ok st.res
  unfolding tokenize_from
  tokenize_from-end e =
      let none_left : find_first_not_of input space pos ≡ none =
        unfold find_if index_from in rw (find_if, e) in
      rw (tokenize_from, none_left)

  find_here :
      (c : ℕ) (rest : Str)
      → drop pos input ≡ c ∷ rest
      → is_space c ≡ false
      → find_first_not_of input space pos ≡ some pos
  unfolding find_if index_from
  find_here c rest e s = rw (e, s)

  at_here : (c : ℕ) (rest : Str) → drop pos input ≡ c ∷ rest → at input pos ≡ c
  at_here c rest e = get_or-drop pos input 0 ∙ ap (λ s. get_or s 0 0) e

  pub drop-suc : (c : ℕ) (rest : Str) → drop pos input ≡ c ∷ rest → drop (pos + 1) input ≡ rest
  drop-suc c rest e = sym (drop-drop pos 1 input) ∙ ap (drop 1) e

  scan_at-quoted :
      (v rest : Str)
      → IsEscaped v
      → drop pos input ≡ b'"' ∷ (v ++ (b'"' ∷ rest))
      → scan_at input pos st
        ≡ ok (next (record { res = st.res ++ (token b'"' v ∷ []); last = pos + 1 + length v }))
  unfolding scan_at scan_quote quote_at
  scan_at-quoted v rest w e = rw (
    scan_at,
    at_here b'"' _ e,
    drop-suc b'"' _ e,
    find_quote-IsEscaped rest w,
    quote_at,
    drop-suc b'"' _ e,
    take-length-append,
  )

  scan_at-equals :
      (rest : Str)
      → drop pos input ≡ b'=' ∷ rest
      → scan_at input pos st
        ≡ ok (next (record { res = st.res ++ (token b'=' (b'=' ∷ []) ∷ []); last = pos }))
  unfolding scan_at
  scan_at-equals rest e = rw (scan_at, at_here b'=' _ e, e)

  -- A quoted token.
  pub tokenize_from-quoted :
      (v rest : Str)
      → IsEscaped v
      → drop pos input ≡ b'"' ∷ (v ++ (b'"' ∷ rest))
      → tokenize_from input (suc fuel) pos st
        ≡ tokenize_from input fuel
            (pos + 1 + length v + 1)
            (record { res = st.res ++ (token b'"' v ∷ []); last = pos + 1 + length v })
  unfolding tokenize_from
  tokenize_from-quoted v rest w e =
      rw (tokenize_from, find_here b'"' _ e refl, scan_at-quoted v rest w e)

  -- The byte `=`.
  pub tokenize_from-equals :
      (rest : Str)
      → drop pos input ≡ b'=' ∷ rest
      → tokenize_from input (suc fuel) pos st
        ≡ tokenize_from input fuel
            (pos + 1)
            (record { res = st.res ++ (token b'=' (b'=' ∷ []) ∷ []); last = pos })
  unfolding tokenize_from
  tokenize_from-equals rest e = rw (tokenize_from, find_here b'=' _ e refl, scan_at-equals rest e)

  -- What is left behind a quoted value.
  pub drop-quoted :
      (v rest : Str)
      → drop pos input ≡ b'"' ∷ (v ++ (b'"' ∷ rest))
      → drop (pos + 1 + length v + 1) input ≡ rest
  drop-quoted v rest e =
      sym (drop-drop (pos + 1 + length v) 1 input)
      ∙ ap (drop 1) (
          sym (drop-drop (pos + 1) (length v) input)
          ∙ ap (drop (length v)) (drop-suc b'"' _ e)
          ∙ drop-length-append v (b'"' ∷ rest))
