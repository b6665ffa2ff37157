-- ===== src/Resource.antt =====
-- The fetch of a resource, web/src/hooks/useResource.ts. A run of the effect has a number; its
-- `cancelled` is false while it is the current one.
pub mod Laws
mod Tests
use skyvirt_kubeui.Prelude.{
  ℕ, suc, ◌+◌, String, Bool, true, false, Option, none, some, List, [], ◌∷◌, if◌then◌else◌, eqb,
}

pub record Resource (T : Type 0) : Type 0 where
  pub data_of : Option T
  pub loading : Bool
  pub error : Option String
  pub settled : Bool
  pub current : Option ℕ
  pub started : ℕ

-- `!cancelled`, for the run of that number
abbrev pub is_current : Option ℕ → ℕ → Bool
is_current none run = false
is_current (some r) run = eqb r run

module _ {T : Type 0} where
  -- The state of the first render, before the effect runs.
  abbrev pub first_render : Resource T
  first_render = record {
    data_of = none;
    loading = true;
    error = none;
    settled = false;
    current = none;
    started = 0;
  }

  -- The effect runs, after `refresh` or a change of the dependencies: the cleanup cancels the run
  -- before it.
  unfoldable pub run_effect : Resource T → Resource T
  run_effect s = record s {
    loading = if s.settled then s.loading else true;
    current = some (s.started);
    started = s.started + 1;
  }

  -- The cleanup when the component goes away.
  unfoldable pub unmount : Resource T → Resource T
  unmount s = record s { current = none }

  -- `.then((result) => …)` and `.catch((err) => …)` of a run
  unfoldable pub resolved : ℕ → T → Resource T → Resource T
  resolved run result s =
      if is_current (s.current) run
      then record s { data_of = some result; loading = false; error = none; settled = true }
      else s

  unfoldable pub rejected : ℕ → String → Resource T → Resource T
  rejected run message s =
      if is_current (s.current) run
      then record s { loading = false; error = some message; settled = true }
      else s

pub data Event (T : Type 0) : Type 0 where
  effect : Event T
  cleanup : Event T
  success : ℕ → T → Event T
  failure : ℕ → String → Event T

module _ {T : Type 0} where
  abbrev pub on_event : Event T → Resource T → Resource T
  on_event effect s = run_effect s
  on_event cleanup s = unmount s
  on_event (success run result) s = resolved run result s
  on_event (failure run message) s = rejected run message s

  abbrev pub on_events : List (Event T) → Resource T → Resource T
  on_events [] s = s
  on_events (e ∷ es) s = on_events es (on_event e s)
