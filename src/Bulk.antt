-- ===== src/Bulk.antt =====
-- `runBulk` of web/src/hooks/useRowSelection.ts: an operation over items with bounded concurrency.
-- The workers are coroutines on one thread. A step runs one of them up to its next `await`, or from
-- an `await` on; which one is the choice of the event loop and of the requests' timing.
pub mod Invariant
pub mod Progress
mod Tests
use skyvirt_kubeui.Prelude.{
  ℕ, zero, suc, ◌+◌, ◌-◌, min, ◌≡◌, String, Option, none, some, List, [], ◌∷◌, ◌++◌, length,
}

pub data Worker (T : Type 0) : Type 0 where
  idle : Worker T
  awaiting : T → Worker T
  returned : Worker T

pub record Failure (T : Type 0) : Type 0 where
  pub item : T
  pub error : String

-- `settled` records each item whose operation has settled, with its outcome: no message if it
-- resolved, the error's message if it was rejected. The code keeps only their number, in `done`, and
-- the failures.
pub record Run (T : Type 0) : Type 0 where
  pub queue : List T
  pub workers : List (Worker T)
  pub failed : List (Failure T)
  pub done : ℕ
  pub settled : List (T × Option String)

pub record Outcome (T : Type 0) : Type 0 where
  pub ok : ℕ
  pub failed : List (Failure T)

module _ {T : Type 0} where
  abbrev pub replicate_idle : ℕ → List (Worker T)
  replicate_idle zero = []
  replicate_idle (suc n) = idle ∷ replicate_idle n

  -- `Array.from({ length: Math.min(concurrency, items.length) }, worker)`
  unfoldable pub start : ℕ → List T → Run T
  start concurrency items = record {
    queue = items;
    workers = replicate_idle (min concurrency (length items));
    failed = [];
    done = 0;
    settled = [];
  }

  -- `queue.shift()` by the worker between `before` and `after`: it returns on an empty queue, and
  -- otherwise calls `fn` and awaits it.
  unfoldable pub shift : Run T → List (Worker T) → List (Worker T) → List T → Run T
  shift s before after [] = record s { workers = before ++ returned ∷ after }
  shift s before after (item ∷ rest) = record s {
    queue = rest;
    workers = before ++ awaiting item ∷ after;
  }

  abbrev pub record_failure : T → Option String → List (Failure T) → List (Failure T)
  record_failure item none failed = failed
  record_failure item (some e) failed = failed ++ record { item = item; error = e } ∷ []

  -- After the `await`: the failure if any, the count, and on to the next round.
  unfoldable pub settle : Run T → T → Option String → List (Worker T) → List (Worker T) → Run T
  settle s item outcome before after = record s {
    workers = before ++ idle ∷ after;
    failed = record_failure item outcome s.failed;
    done = s.done + 1;
    settled = s.settled ++ (item, outcome) ∷ [];
  }

  pub data Step (s : Run T) : Run T → Type 0 where
    shifts :
        (before after : List (Worker T))
        → s.workers ≡ before ++ idle ∷ after
        → Step s (shift s before after s.queue)
    settles :
        (before after : List (Worker T)) (item : T) (outcome : Option String)
        → s.workers ≡ before ++ awaiting item ∷ after
        → Step s (settle s item outcome before after)

  pub data Reach (s : Run T) : Run T → Type 0 where
    here : Reach s s
    next : {t u : Run T} → Reach s t → Step t u → Reach s u

  -- What the promise resolves to, once every worker has returned.
  unfoldable pub outcome : List T → Run T → Outcome T
  outcome items s = record { ok = length items - length s.failed; failed = s.failed }
