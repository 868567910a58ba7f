-- ===== src/Ini/Parser/Total.antt =====
-- The parser of utils/ini_parser/ini_parser.cpp comes to an end: no assertion fails, and the
-- includes are bounded by the files there are.
use fb_utils.Prelude.{
  ℕ, zero, suc, ◌≤◌, ◌<◌, ◌≡◌, ◌⊎◌, inl, inr, refl, ap, sym, Bool-cases, true, false, Option, none,
  codes, fault, ◌>>=◌, List, [], ◌∷◌, ◌++◌, some, ◌==◌, if◌then◌else◌, Str, Settles, Settles->>=,
  Ensures, Ensures->>=, Ensures-if, Ensures-Settles, Settles-Ensures, length, arith, All, is_nil,
}
use fb_utils.Ini.Error.{cannot_open_include, filesystem_error, at_line}
use fb_utils.Ini.Token.{Token, tokenize}
use fb_utils.Ini.Token.Shape.{IsToken}
use fb_utils.Ini.Token.Progress.{tokenize-IsToken}
use fb_utils.Ini.Parser.{
  FileSystem, IniParser, Run, include_name, from_path, or_throw, enter_include, include_from,
  open_include, process_include, erase_comment, section_prefix, entry, rethrow, lines,
  process_tokens, parse_line, parse_lines, run_parser, parse_, parse_stream, parse_file,
}
use fb_utils.Ini.Parser.Lines.{
  include_name-Settles, entry-Settles, section_prefix-Settles, erase_comment-IsToken,
}
use fb_utils.Ini.Parser.Includes.{
  Visited, rethrow-Ensures, rethrow-Settles, or_throw-Settles, or_throw-eq-ok, back-some, Keeps,
  KeepsFirst, unvisited, unvisited-concat-lt, concat-cons, pop_back-concat,
}

module _ (fs : FileSystem) (files : List Str)
    (listed : (p q : Str) → fs.canonical p ≡ some q → Visited q files)
    (absolute : (p q : Str) → fs.canonical p ≡ some q → fs.is_absolute q ≡ true) where
  -- A call on a file that is not being read, by a parser with the includes `inc`.
  abbrev IsGood : List Str → Run fs → Type 0
  IsGood inc run =
      (content target : Str) (p : IniParser)
      → p.includes ≡ inc
      → from_path target inc ≡ []
      → Visited target files
      → fs.is_absolute target ≡ true
      → Ensures (Keeps inc) (run content target p)

  module _ (first : Str) (others : List Str) (run : Run fs)
      (good : IsGood (first ∷ others) run) where
    abbrev inc : List Str
    inc = first ∷ others

    enter_include-Keeps :
        (filename f target : Str) (p : IniParser) (found : List Str)
        → p.includes ≡ inc
        → from_path target inc ≡ found
        → Visited target files
        → fs.is_absolute target ≡ true
        → Ensures (Keeps inc) (enter_include fs run filename f target p found)
    unfolding enter_include
    enter_include-Keeps filename f target p [] e free known abs = good f target p e free known abs
    enter_include-Keeps filename f target p (i ∷ rest) e free known abs = tt

    open_include-Keeps :
        (filename : Str) (p : IniParser)
        → p.includes ≡ inc
        → Ensures (Keeps inc) (open_include fs run filename p)
    unfolding open_include
    open_include-Keeps filename p e =
        let (includer, last) = back-some first others in
        let file_path =
          if fs.is_absolute filename
          then filename
          else fs.join (fs.parent_path includer) filename in
        let opened = or_throw (fs.open_file file_path) (cannot_open_include filename file_path) in
        let resolved = or_throw (fs.canonical file_path) (filesystem_error file_path) in
        rw (e, last, include_from)
          (Settles-Ensures (Keeps inc) opened _ (or_throw-Settles _ _) (λ f _.
            Settles-Ensures (Keeps inc) resolved _ (or_throw-Settles _ _) (λ target known.
              let canonical = or_throw-eq-ok (fs.canonical file_path) _ known in
              enter_include-Keeps filename f target p _ e (ap (from_path target) (sym e))
                (listed file_path target canonical) (absolute file_path target canonical))))

    process_include-Keeps :
        (t : Token) (ts : List Token) (p : IniParser)
        → All IsToken ts
        → p.includes ≡ inc
        → Ensures (Keeps inc) (process_include fs run (t ∷ ts) p)
    unfolding process_include
    process_include-Keeps t [] p w e = tt
    process_include-Keeps t (u ∷ []) p w e =
        Settles-Ensures (Keeps inc) (include_name u) _ (include_name-Settles w.0) (λ filename _.
          Ensures-if (Keeps inc) (is_nil filename) _ _ (λ _. tt)
            (λ _. open_include-Keeps filename p e))
    process_include-Keeps t (u ∷ v ∷ more) p w e = tt

    process_tokens-Keeps :
        (ts : List Token) (p : IniParser) (prefix : Str)
        → All IsToken ts
        → p.includes ≡ inc
        → Ensures (KeepsFirst inc) (process_tokens fs run ts (p, prefix))
    unfolding process_tokens
    process_tokens-Keeps [] p prefix w e = e
    process_tokens-Keeps (t ∷ ts) p prefix (w, ws) e =
        Ensures-if (KeepsFirst inc) (t.first == b'i') _ _
          (λ _.
            Ensures->>= (Keeps inc) (KeepsFirst inc) (process_include fs run (t ∷ ts) p) _
              (process_include-Keeps t ts p ws e) (λ q k. k))
          (λ _.
            Ensures-if (KeepsFirst inc) (t.first == b'[') _ _
              (λ _.
                Settles-Ensures (KeepsFirst inc) (section_prefix t ts) _
                  (section_prefix-Settles t ts) (λ prefix' _. e))
              (λ _.
                Settles-Ensures (KeepsFirst inc) (entry prefix t ts) _
                  (entry-Settles prefix ts w ws) (λ pair _. e)))

    parse_line-Keeps :
        (line : Str) (p : IniParser) (prefix : Str)
        → p.includes ≡ inc
        → Ensures (KeepsFirst inc) (parse_line fs run line (p, prefix))
    unfolding parse_line
    parse_line-Keeps line p prefix e =
        Ensures->>= (All IsToken) (KeepsFirst inc) (tokenize line) _ (tokenize-IsToken line)
          (λ tokens w.
            process_tokens-Keeps (erase_comment tokens) p prefix (erase_comment-IsToken tokens w) e)

    parse_lines-Keeps :
        (line_n : ℕ) (ls : List Str) (p : IniParser) (prefix : Str)
        → p.includes ≡ inc
        → Ensures (KeepsFirst inc) (parse_lines fs run line_n ls (p, prefix))
    unfolding parse_lines
    parse_lines-Keeps line_n [] p prefix e = e
    parse_lines-Keeps line_n (l ∷ ls) p prefix e =
        Ensures->>= (KeepsFirst inc) (KeepsFirst inc)
          (rethrow (at_line line_n) (parse_line fs run l (p, prefix))) _
          (rethrow-Ensures (KeepsFirst inc) _ _ (parse_line-Keeps l p prefix e))
          (λ (s : IniParser × Str) (k : KeepsFirst inc s).
            parse_lines-Keeps (suc line_n) ls s.0 s.1 k)

  run_parser-Keeps :
      (fuel : ℕ) (content filename : Str) (p : IniParser)
      → fs.is_absolute filename ≡ true
      → unvisited (p.includes ++ (filename ∷ [])) files < fuel
      → Ensures (Keeps p.includes) (run_parser fs fuel content filename p)
  unfolding run_parser
  run_parser-Keeps zero content filename p abs h = absurd (omega arith)
  run_parser-Keeps (suc fuel) content filename p abs h =
      let (first, others, e) = concat-cons p.includes filename in
      let entered = record p { includes = p.includes ++ (filename ∷ []) } in
      rw abs (
        Ensures->>= (KeepsFirst (first ∷ others)) (Keeps p.includes)
          (parse_lines fs (run_parser fs fuel) 1 (lines content) (entered, [])) _
          (parse_lines-Keeps first others (run_parser fs fuel)
            (λ f target q k free known abs'. rw (← k) (
              run_parser-Keeps fuel f target q abs' (
                rw k (
                  omega (
                    arith,
                    unvisited-concat-lt (first ∷ others) target files free known,
                    ap (λ inc. unvisited inc files) e,
                  )))))
            1 (lines content) entered [] e)
          (λ (s : IniParser × Str) (k : KeepsFirst (first ∷ others) s).
            rw (k, ← e) (pop_back-concat p.includes filename)))

  unvisited-le-length : (inc fs' : List Str) → unvisited inc fs' ≤ length fs'
  unvisited-le-length inc [] = omega arith
  unvisited-le-length inc (f ∷ rest) = ground (arith, unvisited-le-length inc rest)

  parse_-Settles :
      (fuel : ℕ) (content root : Str)
      → fs.is_absolute root ≡ true
      → length files < fuel
      → Settles (parse_ fs fuel content root)
  unfolding parse_
  parse_-Settles fuel content root abs h =
      Settles->>= (run_parser fs fuel content root (record { values = []; includes = [] })) _
        (Ensures-Settles (Keeps []) _ (
          run_parser-Keeps fuel content root (record { values = []; includes = [] }) abs
            (omega (arith, unvisited-le-length (root ∷ []) files))))
        (λ q _. tt)

  -- Where the canonical paths are all in a list of files and absolute, a depth of one more than
  -- the files suffices for every file: `parse` comes to a result or to an exception, and no
  -- assertion fails on the way.
  pub parse_file-Settles :
      (fuel : ℕ) (filename : Str) → length files < fuel → Settles (parse_file fs fuel filename)
  unfolding parse_file
  parse_file-Settles fuel filename h =
      Settles->>= (or_throw (fs.open_file filename) _) _ (or_throw-Settles _ _) (λ content _.
        rethrow-Settles _ _ (
          Settles->>= (or_throw (fs.canonical filename) _) _ (or_throw-Settles _ _) (λ root e.
            parse_-Settles fuel content root
              (absolute filename root (or_throw-eq-ok (fs.canonical filename) _ e)) h)))

  parse_-fault :
      (fuel : ℕ) (content root : Str)
      → fs.is_absolute root ≡ false
      → 0 < fuel
      → parse_ fs fuel content root ≡ fault
  unfolding parse_ run_parser
  parse_-fault zero content root e h = absurd (omega (arith, h))
  parse_-fault (suc fuel) content root e h = rw (run_parser, e) refl

  -- With what `weakly_canonical` gives.
  stream_of-Settles :
      (fuel : ℕ) (content named : Str) (o : Option Str)
      → fs.weakly_canonical named ≡ o
      → length files < fuel
      → Settles (or_throw o (filesystem_error named) >>= (λ root. parse_ fs fuel content root))
        ⊎ ((root : Str) × (fs.weakly_canonical named ≡ some root)
            × (fs.is_absolute root ≡ false)
            × ((or_throw o (filesystem_error named) >>= (λ root. parse_ fs fuel content root))
                ≡ fault))
  stream_of-Settles fuel content named none e h = inl tt
  stream_of-Settles fuel content named (some root) e h = elim (Bool-cases (fs.is_absolute root)) [
    | inl k ↦ inl (parse_-Settles fuel content root k h)
    | inr k ↦ inr (root, e, k, parse_-fault fuel content root k (omega arith))
  ]

  -- Where the canonical paths lie in a list of files and are absolute, `parse` on a stream ends with
  -- pairs or an exception, with an include depth above the number of the files; or the path of the
  -- stream has a weakly canonical path that is not absolute, and then the assertion fails.
  pub parse_stream-Settles :
      (fuel : ℕ) (content filename : Str)
      → length files < fuel
      → Settles (parse_stream fs fuel content filename)
        ⊎ ((root : Str) × (fs.weakly_canonical
                (if fs.is_directory filename then fs.join filename (codes "this.ini") else filename)
              ≡ some root)
            × (fs.is_absolute root ≡ false)
            × (parse_stream fs fuel content filename ≡ fault))
  unfolding parse_stream
  parse_stream-Settles fuel content filename h =
      stream_of-Settles fuel content
        (if fs.is_directory filename then fs.join filename (codes "this.ini") else filename) _ refl
        h
