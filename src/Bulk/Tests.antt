-- ===== src/Bulk/Tests.antt =====
-- A run of three items by two workers, and the witnesses of the theorems on bulk operations.
use skyvirt_kubeui.Prelude.{◌≡◌, ◌<◌, ◌≤◌, refl, String, none, some, List, [], ◌∷◌, length, arith}
use skyvirt_kubeui.Bulk.{Run, start, shift, settle, shifts, settles, Reach, here, next, outcome}
use skyvirt_kubeui.Bulk.Invariant.{total}
use skyvirt_kubeui.Bulk.Progress.{
  is_awaiting, IsComplete, measure, concurrency_bounded, Step-measure, run_bulk-IsComplete, Ends,
  run_bulk-Ends,
}

abbrev pods : List String
pods = "a" ∷ "b" ∷ []

-- One worker: `a` resolves, `b` is rejected, the worker returns.
abbrev after_a : Run String
after_a = settle (shift (start 1 pods) [] [] pods) "a" none [] []

abbrev after_b : Run String
after_b = settle (shift after_a [] [] ("b" ∷ [])) "b" (some "denied") [] []

abbrev final : Run String
final = shift after_b [] [] []

Reach-final : Reach (start 1 pods) final
unfolding start shift settle
Reach-final =
    next
      (next
        (next (next (next here (shifts [] [] refl)) (settles [] [] "a" none refl))
          (shifts [] [] refl))
        (settles [] [] "b" (some "denied") refl))
      (shifts [] [] refl)

final_run :
    outcome pods final ≡ record { ok = 1; failed = record { item = "b"; error = "denied" } ∷ [] }
unfolding outcome start shift settle
final_run = refl

run_bulk-IsComplete_example : IsComplete pods final
unfolding start shift settle
run_bulk-IsComplete_example = run_bulk-IsComplete 1 pods final (omega arith) Reach-final tt

concurrency_bounded_example :
    (total is_awaiting final.workers ≤ 1) × (total is_awaiting final.workers ≤ length pods)
concurrency_bounded_example = concurrency_bounded 1 pods Reach-final

Step-measure_example : measure (shift after_b [] [] []) < measure after_b
unfolding start shift settle
Step-measure_example = Step-measure after_b (shift after_b [] [] []) (shifts [] [] refl)

run_bulk-Ends_example : Ends pods (start 1 pods)
run_bulk-Ends_example = run_bulk-Ends 1 pods (omega arith)
