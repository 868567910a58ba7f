-- ===== src/Log/Lines.antt =====
-- What utils/log.hpp writes, as lines.
use fb_utils.Prelude.{
  ℕ, ◌≡◌, ◌≢◌, refl, false, List, [], ◌∷◌, ◌++◌, append-nil, append_assoc, if◌then◌else◌, ◌==◌, Str,
  All, inl, inr, Bool-cases, arith,
}
use fb_utils.Log.{
  Rte, Formatted, formatted, format_error, Method, level_of, LogState, log, call, run, write_out,
  cleared, fill,
}

-- The pieces of a text in front of each line feed, the first one behind `line`.
unfoldable pub pieces : Str → Str → List Str
pieces line [] = []
pieces line (c ∷ text) = if c == b'\n' then line ∷ pieces [] text else pieces (line ++ c ∷ []) text

abbrev pub concat : List Str → Str
concat [] = []
concat (text ∷ texts) = text ++ concat texts

-- Formatting gives a text without a line feed.
abbrev pub IsLine : Formatted → Type 0
IsLine (formatted text) = All (λ c. c ≢ b'\n') text
IsLine (format_error text what) = ⊥

abbrev pub text_of : Formatted → Str
text_of (formatted text) = text
text_of (format_error text what) = what

-- The texts of the calls that DPDK lets through.
abbrev pub texts : {F : Type 0} → Rte F → List (ℕ × Method × F) → List Str
texts rte [] = []
texts rte ((logtype, method, fmt) ∷ calls) =
    if rte.can_log logtype (rte.value (level_of method))
    then text_of (rte.vformat fmt) ∷ texts rte calls
    else texts rte calls

pieces-append :
    (line text rest : Str)
    → All (λ c. c ≢ b'\n') text
    → pieces line ((text ++ b'\n' ∷ []) ++ rest) ≡ (line ++ text) ∷ pieces [] rest
unfolding pieces
pieces-append line [] rest h = rw (append-nil line) refl
pieces-append line (c ∷ text) rest h =
    let h0 : c ≢ b'\n' = h.0 in
    let other : (c == b'\n') ≡ false = ground arith in
    rw (other, pieces-append (line ++ c ∷ []) text rest h.1, append_assoc line (c ∷ []) text) refl

-- What the calls write, each at once.
abbrev pub entry_texts : {F : Type 0} → Rte F → List (ℕ × Method × F) → List Str
entry_texts rte [] = []
entry_texts rte ((logtype, method, fmt) ∷ calls) =
    if rte.can_log logtype (rte.value (level_of method))
    then fill [] (rte.vformat fmt) ∷ entry_texts rte calls
    else entry_texts rte calls

-- What is in the buffer before does not matter.
run-entry_texts :
    {F : Type 0} (rte : Rte F) (calls : List (ℕ × Method × F)) (s : LogState)
    → (run rte calls s).calls ≡ s.calls ++ entry_texts rte calls
unfolding run call log
run-entry_texts rte [] s = rw (append-nil s.calls) refl
run-entry_texts rte ((logtype, method, fmt) ∷ calls) s =
    elim (Bool-cases (rte.can_log logtype (rte.value (level_of method)))) [
      | inl e ↦
          let text = fill [] (rte.vformat fmt) in
          rw (run, e, run-entry_texts rte calls (write_out (record (cleared s) { buffer = text })))
            (append_assoc s.calls (text ∷ []) (entry_texts rte calls))
      | inr e ↦ rw (run, e) (run-entry_texts rte calls s)
    ]

pieces-fill :
    (o : Formatted) (rest : Str)
    → IsLine o
    → pieces [] (fill [] o ++ rest) ≡ text_of o ∷ pieces [] rest
pieces-fill (formatted text) rest h = pieces-append [] text rest h
pieces-fill (format_error text what) rest h = absurd h

pieces-entry_texts :
    {F : Type 0} (rte : Rte F) (calls : List (ℕ × Method × F))
    → All (λ call. IsLine (rte.vformat call.2)) calls
    → pieces [] (concat (entry_texts rte calls)) ≡ texts rte calls
unfolding pieces
pieces-entry_texts rte [] h = refl
pieces-entry_texts rte ((logtype, method, fmt) ∷ calls) h =
    elim (Bool-cases (rte.can_log logtype (rte.value (level_of method)))) [
      | inl e ↦
          rw
            (
              e,
              pieces-fill (rte.vformat fmt) (concat (entry_texts rte calls)) h.0,
              pieces-entry_texts rte calls h.1,
            )
            refl
      | inr e ↦ rw (e) (pieces-entry_texts rte calls h.1)
    ]

-- Where every call formats to a text without a line feed, the lines that are written from a state
-- without any are just the texts of the calls that DPDK lets through, in order, whatever the buffer
-- holds at first.
pub run-texts :
    {F : Type 0} (rte : Rte F) (calls : List (ℕ × Method × F)) (buffer : Str)
    → All (λ call. IsLine (rte.vformat call.2)) calls
    → pieces [] (concat (run rte calls (record { buffer = buffer; calls = [] })).calls)
      ≡ texts rte calls
run-texts rte calls buffer h =
    rw (run-entry_texts rte calls (record { buffer = buffer; calls = [] }))
      (pieces-entry_texts rte calls h)
