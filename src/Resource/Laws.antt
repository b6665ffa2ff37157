-- ===== src/Resource/Laws.antt =====
-- What holds of a resource after any sequence of runs and answers, in any order.
use skyvirt_kubeui.Prelude.{
  ℕ, ◌<◌, ◌≡◌, refl, ap, ◌∙◌, arith, true, false, not, Option, none, some, List, [], ◌∷◌, All, inl,
  inr, Bool-cases,
}
use skyvirt_kubeui.Resource.{
  Resource, Event, effect, cleanup, success, failure, first_render, is_current, run_effect, unmount,
  resolved, rejected, on_event, on_events,
}

not_current : (o : Option ℕ) (r run : ℕ) → o ≡ some run → r < run → is_current o r ≡ false
not_current o r run c h = rw c (ground arith)

module _ {T : Type 0} where
  -- The skeleton shows exactly until the first answer, and before it there is nothing to show.
  abbrev pub IsConsistent : Resource T → Type 0
  IsConsistent s =
      (s.loading ≡ not (s.settled)) × (s.settled ≡ false → (s.data_of ≡ none) × (s.error ≡ none))

  on_event-IsConsistent :
      (e : Event T) (s : Resource T) → IsConsistent s → IsConsistent (on_event e s)
  unfolding run_effect unmount resolved rejected
  on_event-IsConsistent effect s (l, d) = (ground arith, d)
  on_event-IsConsistent cleanup s h = h
  on_event-IsConsistent (success r v) s h = elim (Bool-cases (is_current (s.current) r)) [
    | inl b ↦ rw b (refl, λ e. cc)
    | inr n ↦ rw n h
  ]
  on_event-IsConsistent (failure r m) s h = elim (Bool-cases (is_current (s.current) r)) [
    | inl b ↦ rw b (refl, λ e. cc)
    | inr n ↦ rw n h
  ]

  on_events-IsConsistent :
      (es : List (Event T)) (s : Resource T) → IsConsistent s → IsConsistent (on_events es s)
  on_events-IsConsistent [] s h = h
  on_events-IsConsistent (e ∷ es) s h =
      on_events-IsConsistent es (on_event e s) (on_event-IsConsistent e s h)

  -- After any runs and answers since the first render, the resource is loading exactly while no
  -- answer has been taken, and till then it has neither data nor an error.
  pub first_render-IsConsistent : (es : List (Event T)) → IsConsistent (on_events es first_render)
  first_render-IsConsistent es = on_events-IsConsistent es first_render (refl, λ _. (refl, refl))

  on_event-settled :
      (e : Event T) (s : Resource T) → s.settled ≡ true → (on_event e s).settled ≡ true
  unfolding run_effect unmount resolved rejected
  on_event-settled effect s h = h
  on_event-settled cleanup s h = h
  on_event-settled (success r v) s h = elim (Bool-cases (is_current (s.current) r)) [
    | inl b ↦ rw b refl
    | inr n ↦ rw n h
  ]
  on_event-settled (failure r m) s h = elim (Bool-cases (is_current (s.current) r)) [
    | inl b ↦ rw b refl
    | inr n ↦ rw n h
  ]

  on_events-settled :
      (es : List (Event T)) (s : Resource T) → s.settled ≡ true → (on_events es s).settled ≡ true
  on_events-settled [] s h = h
  on_events-settled (e ∷ es) s h = on_events-settled es (on_event e s) (on_event-settled e s h)

  -- Once an answer has been taken, no later run or answer brings the skeleton back.
  pub on_events-no_skeleton :
      (before es : List (Event T))
      → (on_events before first_render).settled ≡ true
      → (on_events es (on_events before first_render)).loading ≡ false
  on_events-no_skeleton before es h =
      (on_events-IsConsistent es _ (first_render-IsConsistent before)).0
      ∙ ap not (on_events-settled es _ h)

  -- An answer of a run before the last one.
  abbrev pub IsStale : ℕ → Event T → Type 0
  IsStale run effect = ⊥
  IsStale run cleanup = ⊥
  IsStale run (success r v) = r < run
  IsStale run (failure r m) = r < run

  stale_answer :
      (e : Event T) (s : Resource T) (run : ℕ)
      → s.current ≡ some run
      → IsStale run e
      → on_event e s ≡ s
  unfolding resolved rejected
  stale_answer effect s run c h = elim h [ ]
  stale_answer cleanup s run c h = elim h [ ]
  stale_answer (success r v) s run c h = rw (not_current (s.current) r run c h) refl
  stale_answer (failure r m) s run c h = rw (not_current (s.current) r run c h) refl

  stale_answers :
      (es : List (Event T)) (s : Resource T) (run : ℕ)
      → s.current ≡ some run
      → All (IsStale run) es
      → on_events es s ≡ s
  stale_answers [] s run c h = refl
  stale_answers (e ∷ es) s run c (h, hs) =
      ap (on_events es) (stale_answer e s run c h) ∙ stale_answers es s run c hs

  started_current : (s : Resource T) → (run_effect s).current ≡ some (s.started)
  unfolding run_effect
  started_current s = refl

  -- Answers of earlier runs that arrive after a new run has begun, in any number and order, change
  -- nothing: what the new run brings, data or an error, is taken as if they had not come.
  pub run_effect-stale :
      (s : Resource T) (late : List (Event T)) (answer : Event T)
      → All (IsStale (s.started)) late
      → on_event answer (on_events late (run_effect s)) ≡ on_event answer (run_effect s)
  run_effect-stale s late answer h =
      ap (on_event answer) (stale_answers late (run_effect s) (s.started) (started_current s) h)
