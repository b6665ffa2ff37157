-- ===== src/Resource/Tests.antt =====
-- A resource that is fetched twice, the first answer coming late.
use skyvirt_kubeui.Prelude.{ℕ, ◌≡◌, refl, arith, true, false, none, some, List, [], ◌∷◌}
use skyvirt_kubeui.Resource.{
  Resource, Event, effect, success, failure, first_render, run_effect, rejected, on_event,
  on_events,
}
use skyvirt_kubeui.Resource.Laws.{run_effect-stale}

abbrev run : List (Event ℕ)
run = effect ∷ failure 0 "timeout" ∷ effect ∷ []

run_settled : (on_events run first_render).settled ≡ true
unfolding run_effect rejected
run_settled = refl

abbrev waiting : Resource ℕ
waiting = record {
  data_of = none;
  loading = true;
  error = none;
  settled = false;
  current = some 0;
  started = 1;
}

run_effect-stale_example :
    on_event (success 1 20) (on_events (success 0 10 ∷ []) (run_effect waiting))
    ≡ on_event (success 1 20) (run_effect waiting)
run_effect-stale_example =
    run_effect-stale waiting (success 0 10 ∷ []) (success 1 20) (omega arith, tt)
