-- ===== src/Bulk/Progress.antt =====
-- Bounded concurrency, termination, and what the promise resolves to.
use native.Mathlib.Decide.{dec_lt}
use skyvirt_kubeui.Prelude.{
  ℕ, zero, suc, ◌+◌, ◌*◌, ◌≤◌, ◌<◌, min, ◌≡◌, refl, ap, ◌∙◌, ◌⊎◌, inl, inr, String, Bool, true,
  Option, none, List, [], ◌∷◌, ◌++◌, length, arith,
}
use skyvirt_kubeui.Bulk.{
  Worker, idle, awaiting, returned, Failure, Run, start, shift, settle, Step, shifts, settles,
  Reach, here, next, outcome,
}
use skyvirt_kubeui.Bulk.Invariant.{
  total, swapped, count, count_settled, failures, successes, successes_lem, has_returned, one,
  in_flight, Inv, Reach-start,
}

module _ {T : Type 0} where
  abbrev pub is_awaiting : Worker T → ℕ
  is_awaiting (awaiting _) = 1
  is_awaiting _ = 0

  total-le : (ws : List (Worker T)) → total is_awaiting ws ≤ total one ws
  total-le [] = omega arith
  total-le (idle ∷ ws) = omega (arith, total-le ws)
  total-le (awaiting x ∷ ws) = omega (arith, total-le ws)
  total-le (returned ∷ ws) = omega (arith, total-le ws)

  -- At no time are more operations in flight than the limit, or than there are items.
  pub concurrency_bounded :
      (c : ℕ) (items : List T) {s : Run T}
      → Reach (start c items) s
      → (total is_awaiting s.workers ≤ c) × (total is_awaiting s.workers ≤ length items)
  concurrency_bounded c items {s} r =
      omega (arith, total-le s.workers, (Reach-start c items r).staffed)

  abbrev weight : Worker T → ℕ
  weight idle = 1
  weight (awaiting _) = 2
  weight returned = 0

  -- The work left.
  pub measure : Run T → ℕ
  measure s = 2 * length s.queue + total weight s.workers

  shift-measure :
      (s : Run T) (before after : List (Worker T))
      → s.workers ≡ before ++ idle ∷ after
      → (q : List T) → s.queue ≡ q
      → measure (shift s before after q) < measure s
  unfolding measure shift
  shift-measure s before after w [] e =
      omega (arith, swapped weight s.workers before idle returned after w, ap {A = List T} length e)
  shift-measure s before after w (x ∷ q) e =
      omega
        (arith, swapped weight s.workers before idle (awaiting x) after w, ap {A = List T} length e)

  -- Every step leaves less work, so a run ends once its operations settle.
  pub Step-measure : (s t : Run T) → Step s t → measure t < measure s
  Step-measure s t (shifts before after w) = shift-measure s before after w s.queue refl
  Step-measure s t (settles before after x o w) =
      unfold measure settle in
      omega (arith, swapped weight s.workers before (awaiting x) idle after w)

  abbrev pub AllReturned : List (Worker T) → Type 0
  AllReturned [] = Unit
  AllReturned (returned ∷ ws) = AllReturned ws
  AllReturned (_ ∷ ws) = ⊥

  -- A worker that has not returned, if there is one.
  abbrev Busy : List (Worker T) → Type 0
  Busy ws =
      (before : List (Worker T)) × (after : List (Worker T)) × (w : Worker T) × (ws
        ≡ before ++ w ∷ after)
      × (has_returned w ≡ 0)

  find-Busy : (ws : List (Worker T)) → AllReturned ws ⊎ Busy ws
  find-Busy [] = inl tt
  find-Busy (idle ∷ ws) = inr ([], ws, idle, refl, refl)
  find-Busy (awaiting x ∷ ws) = inr ([], ws, awaiting x, refl, refl)
  find-Busy (returned ∷ ws) = elim (find-Busy ws) [
    | inl all ↦ inl all
    | inr (before, after, w, e, h) ↦ inr (returned ∷ before, after, w, ap (λ r. returned ∷ r) e, h)
  ]

  Step-of :
      (s : Run T) (before after : List (Worker T)) (w : Worker T)
      → s.workers ≡ before ++ w ∷ after
      → has_returned w ≡ 0
      → (t : Run T) × Step s t
  Step-of s before after idle e h = (shift s before after s.queue, shifts before after e)
  Step-of s before after (awaiting x) e h =
      (settle s x none before after, settles before after x none e)
  Step-of s before after returned e h = absurd (omega arith)

  -- A run that has not ended can go on: some worker has a step.
  no_deadlock : (s : Run T) → AllReturned s.workers ⊎ ((t : Run T) × Step s t)
  no_deadlock s = elim (find-Busy s.workers) [
    | inl all ↦ inl all
    | inr (before, after, w, e, h) ↦ inr (Step-of s before after w e h)
  ]

  returned_all :
      (ws : List (Worker T))
      → AllReturned ws
      → (total has_returned ws ≡ total one ws) × ((p : T → Bool) → total (in_flight p) ws ≡ 0)
  returned_all [] h = (refl, λ p. refl)
  returned_all (returned ∷ ws) h =
      (omega (arith, (returned_all ws h).0), λ p. omega (arith, (returned_all ws h).1 p))
  returned_all (idle ∷ ws) h = absurd h
  returned_all (awaiting x ∷ ws) h = absurd h

  count-length-zero : (p : T → Bool) (q : List T) → length q ≡ 0 → count p q ≡ 0
  count-length-zero p [] h = refl
  count-length-zero p (x ∷ q) h = absurd (omega arith)

  count-all : (q : List T) → count (λ _. true) q ≡ length q
  count-all [] = refl
  count-all (x ∷ q) = omega (arith, count-all q)

  count_settled-all : (q : List (T × Option String)) → count_settled (λ _. true) q ≡ length q
  count_settled-all [] = refl
  count_settled-all ((x, o) ∷ q) = omega (arith, count_settled-all q)

  -- What a run with a positive limit has done when every worker has returned.
  pub record IsComplete (items : List T) (s : Run T) : Type 0 where
    -- every item was run exactly once
    pub each_once : (p : T → Bool) → count_settled p s.settled ≡ count p items
    -- the last progress report is "all of them"
    pub reported : s.done ≡ length items
    -- `ok` counts the operations that resolved
    pub succeeded : (outcome items s).ok ≡ successes s.settled
    -- `failed` lists the ones that were rejected, each with its error
    pub rejected : (outcome items s).failed ≡ failures s.settled

  drained_queue :
      (c : ℕ) (items : List T) (s : Run T)
      → 0 < c
      → Inv (min c (length items)) items s
      → AllReturned s.workers
      → length s.queue ≡ 0
  drained_queue c items s pos inv all = elim (dec_lt 0 (total has_returned s.workers)) [
    | yes some_returned ↦ inv.drained some_returned
    | no none_returned ↦ omega (
      arith,
      inv.staffed,
      (returned_all s.workers all).0,
      inv.conserved (λ _. true),
      count-all s.queue,
      count-all items,
    )
  ]

  settled_once :
      (c : ℕ) (items : List T) (s : Run T)
      → 0 < c
      → Inv (min c (length items)) items s
      → AllReturned s.workers
      → (p : T → Bool) → count_settled p s.settled ≡ count p items
  settled_once c items s pos inv all p = omega (
    arith,
    inv.conserved p,
    (returned_all s.workers all).1 p,
    count-length-zero p s.queue (drained_queue c items s pos inv all),
  )

  -- When the limit is positive and every worker has returned, every item was run exactly once,
  -- the last progress report is the number of items, `ok` counts the operations that resolved, and
  -- `failed` lists the rejected ones with their errors in the order of their settling.
  pub run_bulk-IsComplete :
      (c : ℕ) (items : List T) (s : Run T)
      → 0 < c
      → Reach (start c items) s
      → AllReturned s.workers
      → IsComplete items s
  unfolding outcome
  run_bulk-IsComplete c items s pos r all =
      let inv = Reach-start c items r in
      let once = settled_once c items s pos inv all in
      let n : length s.settled ≡ length items =
        omega (arith, once (λ _. true), count_settled-all s.settled, count-all items) in
      record {
        each_once = once;
        reported = inv.counted ∙ n;
        succeeded =
            omega (
              arith,
              n,
              successes_lem s.settled,
              ap {A = List (Failure T)} length inv.failures_kept,
            );
        rejected = inv.failures_kept;
      }

  -- A run that ends whatever the schedule is: it has ended and is complete, or it has a step and
  -- ends after each of its steps.
  pub data Ends (items : List T) : Run T → Type 0 where
    finished : {s : Run T} → AllReturned s.workers → IsComplete items s → Ends items s
    runs_on :
        {s : Run T}
        → (t : Run T) × Step s t
        → ((u : Run T) → Step s u → Ends items u)
        → Ends items s

  Ends-within :
      (n c : ℕ) (items : List T) (s : Run T)
      → 0 < c
      → Reach (start c items) s
      → measure s < n
      → Ends items s
  Ends-within zero c items s pos r h = absurd (omega arith)
  Ends-within (suc n) c items s pos r h = elim (no_deadlock s) [
    | inl all ↦ finished all (run_bulk-IsComplete c items s pos r all)
    | inr some_step ↦
        runs_on some_step
          (λ u st. Ends-within n c items u pos (next r st) (omega (arith, Step-measure s u st)))
  ]

  -- When the limit is positive, every run ends, whichever worker runs next at each point and
  -- however the operations settle: as long as a worker has not returned there is a step, and after
  -- finitely many steps every worker has returned, every item was run exactly once, and the
  -- outcome counts the resolved and lists the rejected ones.
  pub run_bulk-Ends : (c : ℕ) (items : List T) → 0 < c → Ends items (start c items)
  run_bulk-Ends c items pos =
      Ends-within (suc (measure (start c items))) c items (start c items) pos here (omega arith)
