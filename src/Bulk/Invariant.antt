-- ===== src/Bulk/Invariant.antt =====
-- Each item runs exactly once, whatever the interleaving.
use skyvirt_kubeui.Prelude.{
  ℕ, zero, suc, ◌+◌, ◌<◌, min, ◌≡◌, refl, sym, ap, ◌∙◌, String, Bool, Option, none, some, List, [],
  ◌∷◌, ◌++◌, length, arith, if◌then◌else◌, length-append,
}
use skyvirt_kubeui.Bulk.{
  Worker, idle, awaiting, returned, Failure, Run, start, replicate_idle, shift, record_failure,
  settle, Step, shifts, settles, Reach, here, next,
}

module _ {T : Type 0} where
  abbrev pub total : (Worker T → ℕ) → List (Worker T) → ℕ
  total f [] = 0
  total f (w ∷ ws) = f w + total f ws

  pub total-split :
      (f : Worker T → ℕ) (before : List (Worker T)) (w : Worker T) (after : List (Worker T))
      → total f (before ++ w ∷ after) ≡ total f before + f w + total f after
  total-split f [] w after = omega arith
  total-split f (v ∷ before) w after = omega (arith, total-split f before w after)

  -- How many items of a list pass a test. Two lists with the same counts, for every test, hold the
  -- same items as often.
  abbrev pub count : (T → Bool) → List T → ℕ
  count p [] = 0
  count p (x ∷ xs) = (if p x then 1 else 0) + count p xs

  abbrev pub count_settled : (T → Bool) → List (T × Option String) → ℕ
  count_settled p [] = 0
  count_settled p ((x, _) ∷ xs) = (if p x then 1 else 0) + count_settled p xs

  count_settled-append :
      (p : T → Bool) (xs : List (T × Option String)) (x : T) (o : Option String)
      → count_settled p (xs ++ (x, o) ∷ []) ≡ count_settled p xs + (if p x then 1 else 0)
  count_settled-append p [] x o = omega arith
  count_settled-append p ((y, _) ∷ xs) x o = omega (arith, count_settled-append p xs x o)

  -- The failures among the settled items, in order, and the number of successes.
  abbrev pub failures : List (T × Option String) → List (Failure T)
  failures [] = []
  failures ((x, none) ∷ xs) = failures xs
  failures ((x, some e) ∷ xs) = record { item = x; error = e } ∷ failures xs

  abbrev pub successes : List (T × Option String) → ℕ
  successes [] = 0
  successes ((x, none) ∷ xs) = suc (successes xs)
  successes ((x, some e) ∷ xs) = successes xs

  failures-append :
      (xs : List (T × Option String)) (x : T) (o : Option String)
      → failures (xs ++ (x, o) ∷ []) ≡ record_failure x o (failures xs)
  failures-append [] x none = refl
  failures-append [] x (some e) = refl
  failures-append ((y, none) ∷ xs) x o = failures-append xs x o
  failures-append ((y, some e) ∷ xs) x none =
      ap (λ r. record { item = y; error = e } ∷ r) (failures-append xs x none)
  failures-append ((y, some e) ∷ xs) x (some e') =
      ap (λ r. record { item = y; error = e } ∷ r) (failures-append xs x (some e'))

  pub successes_lem :
      (xs : List (T × Option String)) → successes xs + length (failures xs) ≡ length xs
  successes_lem [] = refl
  successes_lem ((x, none) ∷ xs) = omega (arith, successes_lem xs)
  successes_lem ((x, some e) ∷ xs) = omega (arith, successes_lem xs)

  abbrev pub in_flight : (T → Bool) → Worker T → ℕ
  in_flight p idle = 0
  in_flight p (awaiting x) = if p x then 1 else 0
  in_flight p returned = 0

  abbrev pub has_returned : Worker T → ℕ
  has_returned returned = 1
  has_returned _ = 0

  abbrev pub one : Worker T → ℕ
  one _ = 1

  pub record Inv (workers : ℕ) (items : List T) (s : Run T) : Type 0 where
    -- Queued, in flight and settled items together are the items.
    pub conserved :
        (p : T → Bool)
        → count p s.queue + total (in_flight p) s.workers + count_settled p s.settled
          ≡ count p items
    pub failures_kept : s.failed ≡ failures s.settled
    pub counted : s.done ≡ length s.settled
    pub staffed : total one s.workers ≡ workers
    pub drained : 0 < total has_returned s.workers → length s.queue ≡ 0

  -- How the total over the workers changes when one of them does.
  pub swapped :
      (f : Worker T → ℕ) (ws before : List (Worker T)) (v w : Worker T) (after : List (Worker T))
      → ws ≡ before ++ v ∷ after
      → total f (before ++ w ∷ after) + f v ≡ total f ws + f w
  swapped f ws before v w after e =
      omega (arith, ap (total f) e, total-split f before v after, total-split f before w after)

  shift-Inv :
      (n : ℕ) (items : List T) (s : Run T) (before after : List (Worker T))
      → s.workers ≡ before ++ idle ∷ after
      → Inv n items s
      → (q : List T) → s.queue ≡ q
      → Inv n items (shift s before after q)
  unfolding shift
  shift-Inv n items s before after w inv [] e = record {
    conserved = λ p.
        omega
          (arith, inv.conserved p, swapped (in_flight p) s.workers before idle returned after w);
    failures_kept = inv.failures_kept;
    counted = inv.counted;
    staffed = omega (arith, inv.staffed, swapped one s.workers before idle returned after w);
    drained = λ _. ap length e;
  }
  shift-Inv n items s before after w inv (x ∷ q) e = record {
    conserved = λ p. omega (
      arith,
      inv.conserved p,
      ap (count p) e,
      swapped (in_flight p) s.workers before idle (awaiting x) after w,
    );
    failures_kept = inv.failures_kept;
    counted = inv.counted;
    staffed = omega (arith, inv.staffed, swapped one s.workers before idle (awaiting x) after w);
    drained = λ h. absurd (
        omega (
          arith,
          inv.drained,
          ap {A = List T} length e,
          swapped has_returned s.workers before idle (awaiting x) after w,
        ));
  }

  settle-Inv :
      (n : ℕ) (items : List T) (s : Run T) (x : T) (o : Option String)
      (before after : List (Worker T))
      → s.workers ≡ before ++ awaiting x ∷ after
      → Inv n items s
      → Inv n items (settle s x o before after)
  unfolding settle
  settle-Inv n items s x o before after w inv = record {
    conserved = λ p. omega (
      arith,
      inv.conserved p,
      count_settled-append p s.settled x o,
      swapped (in_flight p) s.workers before (awaiting x) idle after w,
    );
    failures_kept = ap (record_failure x o) inv.failures_kept ∙ sym (failures-append s.settled x o);
    counted = omega (arith, inv.counted, length-append s.settled ((x, o) ∷ []));
    staffed = omega (arith, inv.staffed, swapped one s.workers before (awaiting x) idle after w);
    drained = λ h.
        omega (arith, inv.drained, swapped has_returned s.workers before (awaiting x) idle after w);
  }

  pub Step-Inv : (n : ℕ) (items : List T) (s t : Run T) → Step s t → Inv n items s → Inv n items t
  Step-Inv n items s t (shifts before after w) inv =
      shift-Inv n items s before after w inv s.queue refl
  Step-Inv n items s t (settles before after x o w) inv =
      settle-Inv n items s x o before after w inv

  total-replicate : (f : Worker T → ℕ) (n : ℕ) → f idle ≡ 0 → total f (replicate_idle n) ≡ 0
  total-replicate f zero h = refl
  total-replicate f (suc n) h = omega (arith, total-replicate f n h)

  staffed-replicate : (f : Worker T → ℕ) (n : ℕ) → f idle ≡ 1 → total f (replicate_idle n) ≡ n
  staffed-replicate f zero h = refl
  staffed-replicate f (suc n) h = omega (arith, staffed-replicate f n h)

  start-Inv : (c : ℕ) (items : List T) → Inv (min c (length items)) items (start c items)
  unfolding start
  start-Inv c items = record {
    conserved = λ p. omega (arith, total-replicate (in_flight p) (min c (length items)) refl);
    failures_kept = refl;
    counted = refl;
    staffed = staffed-replicate one (min c (length items)) refl;
    drained = λ h. absurd (omega (arith, total-replicate has_returned (min c (length items)) refl));
  }

  pub Reach-Inv : (n : ℕ) (items : List T) (s t : Run T) → Reach s t → Inv n items s → Inv n items t
  Reach-Inv n items s t here inv = inv
  Reach-Inv n items s u (next {t} r st) inv = Step-Inv n items t u st (Reach-Inv n items s t r inv)

  pub Reach-start :
      (c : ℕ) (items : List T) {s : Run T}
      → Reach (start c items) s
      → Inv (min c (length items)) items s
  Reach-start c items {s} r =
      Reach-Inv (min c (length items)) items (start c items) s r (start-Inv c items)
