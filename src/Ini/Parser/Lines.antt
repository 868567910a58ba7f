-- ===== src/Ini/Parser/Lines.antt =====
-- The steps of utils/ini_parser/ini_parser.cpp for the tokens of a line fail no assertion.
use fb_utils.Prelude.{
  ℕ, ◌-◌, ◌≡◌, refl, Bool, true, false, not, ◌||◌, List, [], ◌∷◌, Option, none, some, ◌==◌,
  Bool-cases, if◌then◌else◌, Str, ok, Settles, Settles->>=, length, drop, arith, inl, inr, All,
  is_nil, at, substr, take-length-append,
}
use fb_utils.Ini.Error.{Outcome}
use fb_utils.Ini.Value.{trim, process_quoted_value, find_quote}
use fb_utils.Ini.Value.Quoted.{
  IsEscaped, find_quote-Settles, find_quote_iff, process_quoted_value-unescape,
}
use fb_utils.Ini.Token.{Token}
use fb_utils.Ini.Token.Shape.{IsToken, quoted, text, mark}
use fb_utils.Ini.Parser.{
  process_key, include_name, erase_comment, section_prefix, quoted_section, entry_value, entry_tail,
  entry,
}

pub IsEscaped-second : {t : Token} → IsToken t → t.first ≡ b'"' → IsEscaped t.second
IsEscaped-second (quoted e) h = e
IsEscaped-second (text _) h = absurd (omega arith)
IsEscaped-second (mark q _) h = absurd (q h)

pub process_quoted_value-Settles : {s : Str} → IsEscaped s → Settles (process_quoted_value s)
process_quoted_value-Settles e = rw (process_quoted_value-unescape e) tt

pub Settles-if {ℓ} :
    {A : Type ℓ} (b : Bool) (m n : Outcome A)
    → (b ≡ true → Settles m)
    → (b ≡ false → Settles n)
    → Settles (if b then m else n)
Settles-if true m n h k = h refl
Settles-if false m n h k = k refl

pub process_key-Settles : {t : Token} → IsToken t → Settles (process_key t)
unfolding process_key
process_key-Settles {t} w =
    Settles-if (t.first == b't') _ _ (λ _. tt)
      (λ _.
        Settles-if (t.first == b'"') _ _
          (λ q.
            Settles->>= (process_quoted_value t.second) _
              (process_quoted_value-Settles (IsEscaped-second w (ground arith)))
              (λ res _. Settles-if (is_nil res || is_nil (trim res)) _ _ (λ _. tt) (λ _. tt)))
          (λ _. tt))

pub include_name-Settles : {t : Token} → IsToken t → Settles (include_name t)
unfolding include_name
include_name-Settles {t} w =
    Settles-if (t.first == b't') _ _ (λ _. tt)
      (λ _.
        Settles-if (t.first == b'"') _ _
          (λ q.
            Settles->>= (process_quoted_value t.second) _
              (process_quoted_value-Settles (IsEscaped-second w (ground arith))) (λ res _. tt))
          (λ _. tt))

pub entry_value-Settles : {t : Token} (more : List Token) → IsToken t → Settles (entry_value t more)
unfolding entry_value
entry_value-Settles {t} [] w =
    Settles-if (t.first == b't') _ _ (λ _. tt)
      (λ _.
        Settles-if (t.first == b'"') _ _
          (λ q. process_quoted_value-Settles (IsEscaped-second w (ground arith))) (λ _. tt))
entry_value-Settles {t} (u ∷ more) w =
    Settles-if (t.first == b't' || t.first == b'"') _ _ (λ _. tt) (λ _. tt)

pub entry_tail-Settles : (ts : List Token) → All IsToken ts → Settles (entry_tail ts)
unfolding entry_tail
entry_tail-Settles [] w = tt
entry_tail-Settles (t ∷ []) w = Settles-if (not (t.first == b'=')) _ _ (λ _. tt) (λ _. tt)
entry_tail-Settles (t ∷ u ∷ more) w =
    Settles-if (not (t.first == b'=')) _ _ (λ _. tt) (λ _. entry_value-Settles more w.1.0)

pub entry-Settles :
    (prefix : Str) {t : Token} (others : List Token)
    → IsToken t
    → All IsToken others
    → Settles (entry prefix t others)
unfolding entry
entry-Settles prefix {t} others w ws =
    Settles->>= (process_key t) _ (process_key-Settles w)
      (λ name _. Settles->>= (entry_tail others) _ (entry_tail-Settles others ws) (λ value _. tt))

-- The quotes of a section's name enclose an escaped value.
pub section_value-Settles :
    (name : Str) (i : ℕ)
    → find_quote (drop 1 name) ≡ ok (some i)
    → Settles (process_quoted_value (substr name 1 i))
section_value-Settles name i e =
    let stops = (find_quote_iff (drop 1 name) i).0 e in
    process_quoted_value-Settles
      (rw (stops.splits, ← stops.position, take-length-append) stops.is_escaped)

pub quoted_section-Settles :
    (t : Token) (name : Str) (pos : Option ℕ)
    → find_quote (drop 1 name) ≡ ok pos
    → Settles (quoted_section t name pos)
unfolding quoted_section
quoted_section-Settles t name none e = tt
quoted_section-Settles t name (some i) e =
    Settles-if (not (i == length name - 2)) _ _ (λ _. tt)
      (λ same.
        let k : length name - 2 ≡ i = ground arith in
        Settles->>= (process_quoted_value (substr name 1 (length name - 2))) _
          (rw k (section_value-Settles name i e))
          (λ prefix _. Settles-if (is_nil (trim prefix)) _ _ (λ _. tt) (λ _. tt)))

pub section_prefix-Settles : (t : Token) (others : List Token) → Settles (section_prefix t others)
unfolding section_prefix
section_prefix-Settles t others =
    let name = trim t.second in
    Settles-if (length name == 0) _ _ (λ _. tt)
      (λ _.
        Settles-if (not (is_nil others)) _ _ (λ _. tt)
          (λ _.
            Settles-if (at name 0 == b'"') _ _
              (λ _.
                Settles->>= (find_quote (drop 1 name)) _ (find_quote-Settles (drop 1 name))
                  (λ pos e. quoted_section-Settles t name pos e))
              (λ _. tt)))

pub erase_comment-IsToken : (ts : List Token) → All IsToken ts → All IsToken (erase_comment ts)
unfolding erase_comment
erase_comment-IsToken [] w = tt
erase_comment-IsToken (t ∷ ts) (w, ws) = elim (Bool-cases (t.first == b'#' || t.first == b';')) [
  | inl e ↦ rw e tt
  | inr e ↦ rw e (w, erase_comment-IsToken ts ws)
]
