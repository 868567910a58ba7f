-- ===== src/ProgramOptions/ConsoleSink/Last.antt =====
-- Which sink utils/program_options/console_sink.cpp gives.
use fb_utils.Prelude.{
  ℕ, suc, ◌≡◌, ◌⊎◌, refl, ap, ◌∙◌, List, [], ◌∷◌, Option, none, some, true, ◌==◌, Str, Result, ok,
  err, fault, timeout, ◌>>=◌, arith, inl, inr, Bool-cases,
}
use fb_utils.ProgramOptions.ConsoleSink.{
  Params, Parsers, Sink, World, no_sinks, sink_of, create_sink, reset, console_sink, locked, set,
}

-- Calls of the factory, and owners that go.
pub data Command : Type 0 where
  create : Params → Command
  lock : Command
  drop : ℕ → Command

module _ (b : Parsers) where
  -- A call that throws leaves the world as it was.
  abbrev pub made : World b → Result Str (ℕ × World b) → World b
  made w (ok (id, next)) = next
  made w (err what) = w
  made w fault = w
  made w timeout = w

  abbrev pub step : Command → World b → World b
  step (create params) w = made w (create_sink b params w)
  step lock w = (console_sink b w).1
  step (drop id) w = reset b id w

  unfoldable pub run : List Command → World b → World b
  run [] w = w
  run (c ∷ commands) w = run commands (step c w)

  -- The sink of the last creation that has not thrown.
  abbrev pub latest : Option (Sink b) → Result Str (Sink b) → Option (Sink b)
  latest before (ok sink) = some sink
  latest before (err what) = before
  latest before fault = before
  latest before timeout = before

  abbrev pub after_command : Command → Option (Sink b) → Option (Sink b)
  after_command (create params) before = latest before (sink_of b params)
  after_command lock before = before
  after_command (drop id) before = before

  unfoldable pub last_made : List Command → Option (Sink b) → Option (Sink b)
  last_made [] before = before
  last_made (c ∷ commands) before = last_made commands (after_command c before)

  -- The sink that the weak pointer is for.
  abbrev at : World b → Option ℕ → Option (Sink b)
  at w none = none
  at w (some id) = w.sinks id

  abbrev pointed : World b → Option (Sink b)
  pointed w = at w w.console_sink

  created :
      (w : World b) (r : Result Str (Sink b))
      → pointed (
          made w (
            r >>= (λ sink. ok (
              w.fresh,
              record w {
                sinks = set b w.fresh (some sink) w.sinks;
                fresh = suc w.fresh;
                owners = set b w.fresh 1 w.owners;
                console_sink = some w.fresh;
              },
            ))))
        ≡ latest (pointed w) r
  created w (ok sink) = let same : (w.fresh == w.fresh) ≡ true = ground arith in rw (same) refl
  created w (err what) = refl
  created w fault = refl
  created w timeout = refl

  step-create :
      (w : World b) (params : Params)
      → pointed (made w (create_sink b params w)) ≡ latest (pointed w) (sink_of b params)
  unfolding create_sink
  step-create w params = created w (sink_of b params)

  pointed-locked : (o : Option ℕ) (w : World b) → pointed (locked b o w).1 ≡ pointed w
  pointed-locked none w = refl
  pointed-locked (some id) w = elim (Bool-cases (w.owners id == 0)) [
    | inl k ↦ rw (k) refl
    | inr k ↦ rw (k) refl
  ]

  pointed-step : (w : World b) (c : Command) → pointed (step c w) ≡ after_command c (pointed w)
  unfolding reset console_sink
  pointed-step w (create params) = step-create w params
  pointed-step w lock = pointed-locked w.console_sink w
  pointed-step w (drop id) = refl

  pointed-run :
      (commands : List Command) (w : World b)
      → pointed (run commands w) ≡ last_made commands (pointed w)
  unfolding run last_made
  pointed-run [] w = refl
  pointed-run (c ∷ commands) w =
      pointed-run commands (step c w) ∙ ap (λ o. last_made commands o) (pointed-step w c)

  -- What `lock` gives: the sink of the weak pointer, or nothing where that has no owner.
  locked-cases :
      (o : Option ℕ) (w : World b)
      → ((id : ℕ) × ((locked b o w).0 ≡ some id) × (w.sinks id ≡ at w o))
        ⊎ (((locked b o w).0 ≡ none)
            × ((at w o ≡ none) ⊎ ((id : ℕ) × (o ≡ some id) × (w.owners id ≡ 0))))
  locked-cases none w = inr (refl, inl refl)
  locked-cases (some id) w = elim (Bool-cases (w.owners id == 0)) [
    | inl k ↦ rw (k) (inr (refl, inr (id, refl, ground arith)))
    | inr k ↦ rw (k) (inl (id, refl, refl))
  ]

  -- After any calls of the factory and any owners going, `console_sink` gives the sink of the last
  -- creation that has not thrown; or it gives none, and none has been made or the one that the weak
  -- pointer is for has no owner.
  pub console_sink-Last :
      (commands : List Command)
      → ((id : ℕ) × ((console_sink b (run commands (no_sinks b))).0 ≡ some id)
          × ((run commands (no_sinks b)).sinks id ≡ last_made commands none))
        ⊎ (((console_sink b (run commands (no_sinks b))).0 ≡ none)
            × ((last_made commands none ≡ none)
                ⊎ ((id : ℕ) × ((run commands (no_sinks b)).console_sink ≡ some id)
                    × ((run commands (no_sinks b)).owners id ≡ 0))))
  unfolding console_sink
  console_sink-Last commands =
      let w = run commands (no_sinks b) in
      rw (← pointed-run commands (no_sinks b)) (locked-cases w.console_sink w)
