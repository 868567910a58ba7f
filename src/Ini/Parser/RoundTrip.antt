-- ===== src/Ini/Parser/RoundTrip.antt =====
-- Pairs written with quotes are read back by utils/ini_parser/ini_parser.cpp.
use fb_utils.Prelude.{
  ℕ, suc, ◌+◌, ◌-◌, ◌≡◌, ◌≢◌, refl, sym, ap, ◌∙◌, true, false, ◌||◌, List, [], ◌∷◌, ◌++◌, map,
  append_assoc, append-nil, some, Bool-cases, if◌then◌else◌, Str, codes, ok, length, arith, inl,
  inr, All, All-append, elem, is_nil, length-append, ◌==◌,
}
use fb_utils.Ini.Value.{trim, escapee}
use fb_utils.Ini.Value.Quoted.{IsEscaped, escape, escape-IsEscaped, process_quoted_value-escape}
use fb_utils.Ini.Token.{token, Scan, tokenize_from, tokenize, start}
use fb_utils.Ini.Token.Steps.{
  tokenize_from-end, tokenize_from-quoted, tokenize_from-equals, drop-suc, drop-quoted,
}
use fb_utils.Ini.Parser.{
  FileSystem, Pairs, IniParser, Run, process_key, erase_comment, entry_value, entry_tail, entry,
  lines, process_tokens, parse_line, parse_lines, run_parser, parse_, parse_stream,
}

abbrev pub quote : Str → Str
quote s = b'"' ∷ (escape s ++ (b'"' ∷ []))

-- `"key"="value"`
abbrev pub print_entry : Str × Str → Str
print_entry (key, value) = quote key ++ (b'=' ∷ quote value)

abbrev pub print : Pairs → Str
print [] = []
print (e ∷ es) = print_entry e ++ (b'\n' ∷ print es)

abbrev pub NoNewline : Str → Type 0
NoNewline = All (λ c. c ≢ b'\n')

-- The key is behind the prefix of its section.
abbrev pub with_prefix : Str → Str × Str → Str × Str
with_prefix prefix (key, value) = (prefix ++ key, value)

-- A key that is not only spaces, and a key and a value without line breaks.
abbrev pub IsPrintable : Str × Str → Type 0
IsPrintable (key, value) = (trim key ≢ []) × NoNewline key × NoNewline value

-- A line of two escaped values has three tokens.
tokenize_line :
    (input k v : Str)
    → IsEscaped k
    → IsEscaped v
    → input ≡ b'"' ∷ (k ++ (b'"' ∷ b'=' ∷ b'"' ∷ (v ++ (b'"' ∷ []))))
    → tokenize input ≡ ok (token b'"' k ∷ token b'=' (b'=' ∷ []) ∷ token b'"' v ∷ [])
unfolding tokenize
tokenize_line input k v wk wv e =
    let p1 = 0 + 1 + length k + 1 in
    let p2 = p1 + 1 in
    let e1 = drop-quoted input 0 0 start k _ e in
    let e2 = drop-suc input 0 p1 start b'=' _ e1 in
    let e3 = drop-quoted input 0 p2 start v [] e2 in
    let size : length input ≡ suc (suc (suc (length input - 3))) =
      omega (arith, ap length e, length-append k (b'"' ∷ b'=' ∷ b'"' ∷ (v ++ (b'"' ∷ [])))) in
    let n = length input - 3 in
    let q = token b'"' k ∷ [] in
    let st1 : Scan = record { res = q; last = 0 + 1 + length k } in
    let st2 : Scan = record { res = q ++ (token b'=' (b'=' ∷ []) ∷ []); last = p1 } in
    let st3 : Scan = record { res = st2.res ++ (token b'"' v ∷ []); last = p2 + 1 + length v } in
    ap (λ fuel. tokenize_from input (suc fuel) 0 start) size
    ∙ tokenize_from-quoted input (suc (suc (suc n))) 0 start k _ wk e
    ∙ tokenize_from-equals input (suc (suc n)) p1 st1 _ e1
    ∙ tokenize_from-quoted input (suc n) p2 st2 v [] wv e2
    ∙ tokenize_from-end input n (p2 + 1 + length v + 1) st3 e3

print_entry_lem :
    (k v : Str)
    → print_entry (k, v) ≡ b'"' ∷ (escape k ++ (b'"' ∷ b'=' ∷ b'"' ∷ (escape v ++ (b'"' ∷ []))))
print_entry_lem k v = ap (◌∷◌ b'"') (append_assoc (escape k) (b'"' ∷ []) _)

pub is_nil-ne : (s : Str) → s ≢ [] → is_nil s ≡ false
is_nil-ne [] h = absurd (h refl)
is_nil-ne (c ∷ s) h = refl

not_blank : (k : Str) → trim k ≢ [] → is_nil k || is_nil (trim k) ≡ false
not_blank [] h = absurd (h (unfold trim in refl))
not_blank (c ∷ k) h = is_nil-ne (trim (c ∷ k)) h

-- The switch on the tokens of such a line.
entry-quoted :
    (prefix k v : Str)
    → trim k ≢ []
    → entry prefix (token b'"' (escape k)) (token b'=' (b'=' ∷ []) ∷ token b'"' (escape v) ∷ [])
      ≡ ok (prefix ++ k, v)
unfolding entry process_key entry_tail entry_value
entry-quoted prefix k v h =
    rw (process_quoted_value-escape k, not_blank k h, process_quoted_value-escape v)

module _ (fs : FileSystem) (run : Run fs) where
  parse_line-print_entry :
      (k v : Str) (p : IniParser) (prefix : Str)
      → IsPrintable (k, v)
      → parse_line fs run (print_entry (k, v)) (p, prefix)
        ≡ ok (record p { values = p.values ++ ((prefix ++ k, v) ∷ []) }, prefix)
  unfolding parse_line process_tokens erase_comment
  parse_line-print_entry k v p prefix (h, _, _) = rw (
    parse_line,
    tokenize_line _ _ _ (escape-IsEscaped k) (escape-IsEscaped v) (print_entry_lem k v),
    entry-quoted prefix k v h,
  )

  -- The lines of pairs add the pairs with the prefix.
  pub parse_lines-print :
      (es : Pairs) (n : ℕ) (p : IniParser) (prefix : Str) (rest : List Str)
      → All IsPrintable es
      → parse_lines fs run n (map print_entry es ++ rest) (p, prefix)
        ≡ parse_lines fs run
            (n + length es)
            rest
            (record p { values = p.values ++ map (with_prefix prefix) es }, prefix)
  unfolding parse_lines
  parse_lines-print [] n p prefix rest w =
      rw (append-nil p.values) (ap (λ n. parse_lines fs run n rest (p, prefix)) (omega arith))
  parse_lines-print (e ∷ es) n p prefix rest (w, ws) =
      let size : suc n + length es ≡ n + suc (length es) = omega arith in
      rw (parse_line-print_entry e.0 e.1 p prefix w) (
        parse_lines-print es (suc n) (record p { values = p.values ++ (with_prefix prefix e ∷ []) })
          prefix rest ws
        ∙ rw (size, append_assoc p.values (with_prefix prefix e ∷ []) (map (with_prefix prefix) es))
            refl)

pub NoNewline-append : (s t : Str) → NoNewline s → NoNewline t → NoNewline (s ++ t)
NoNewline-append = All-append (λ c. c ≢ b'\n')

-- Escaping adds only backslashes.
pub All-escape : (b : ℕ) (s : Str) → b'\\' ≢ b → All (λ c. c ≢ b) s → All (λ c. c ≢ b) (escape s)
All-escape b [] k w = tt
All-escape b (c ∷ s) k (h, w) = elim (Bool-cases (elem c escapee)) [
  | inl e ↦ rw e (k, (h, All-escape b s k w))
  | inr e ↦ rw e (h, All-escape b s k w)
]

pub lines-newline : (l rest : Str) → NoNewline l → lines (l ++ (b'\n' ∷ rest)) ≡ l ∷ lines rest
unfolding lines
lines-newline [] rest w = refl
lines-newline (c ∷ l) rest (h, w) =
    let e : (c == b'\n') ≡ false = ground arith in rw (e, lines-newline l rest w)

pub NoNewline-quote : (s : Str) → NoNewline s → NoNewline (quote s)
NoNewline-quote s w = (
  omega arith,
  NoNewline-append (escape s) _ (All-escape b'\n' s (omega arith) w) (omega arith, tt),
)

pub lines-print :
    (es : Pairs) (rest : Str)
    → All IsPrintable es
    → lines (print es ++ rest) ≡ map print_entry es ++ lines rest
lines-print [] rest w = refl
lines-print (e ∷ es) rest (w, ws) =
    ap lines (append_assoc (print_entry e) (b'\n' ∷ print es) rest)
    ∙ lines-newline (print_entry e) (print es ++ rest) (
        NoNewline-append (quote e.0) _ (NoNewline-quote e.0 w.1)
          (omega arith, NoNewline-quote e.1 w.2))
    ∙ ap (◌∷◌ (print_entry e)) (lines-print es rest ws)

pub no_prefix : (es : Pairs) → map (with_prefix []) es ≡ es
no_prefix [] = refl
no_prefix (e ∷ es) = ap (◌∷◌ e) (no_prefix es)

whole_print : (es : Pairs) → All IsPrintable es → lines (print es) ≡ map print_entry es ++ []
unfolding lines
whole_print es w = ap lines (sym (append-nil (print es))) ∙ lines-print es [] w

-- Whatever printable pairs are written with quotes and escapes, `parse` on a stream gives them
-- back in order, if the stream's own path is absolute.
parse_stream-print :
    (fs : FileSystem) (fuel : ℕ) (filename root : Str) (es : Pairs)
    → All IsPrintable es
    → fs.weakly_canonical
        (if fs.is_directory filename then fs.join filename (codes "this.ini") else filename)
      ≡ some root
    → fs.is_absolute root ≡ true
    → parse_stream fs (suc fuel) (print es) filename ≡ ok es
unfolding parse_stream parse_ run_parser
parse_stream-print fs fuel filename root es w named abs =
    rw
      (
        named,
        abs,
        whole_print es w,
        parse_lines-print fs (run_parser fs fuel) es 1 _ [] [] w,
        no_prefix es,
      )
      refl
