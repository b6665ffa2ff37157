-- ===== src/Live/Status.antt =====
-- The one status that stands for several watches.
use skyvirt_kubeui.Prelude.{
  ℕ, zero, suc, ◌<◌, ◌≡◌, refl, Bool, true, false, List, [], ◌∷◌, length, every, arith, get_or,
}
use skyvirt_kubeui.Watch.{WatchStatus, live}
use skyvirt_kubeui.Live.{Sub, active, aggregate, on_status, is_paused, is_live}

-- The watch number `i` is known to be unavailable.
abbrev pub IsGone : ℕ → List Sub → Type 0
IsGone i [] = ⊥
IsGone zero (s ∷ subs) = s.unavailable ≡ true
IsGone (suc i) (s ∷ subs) = IsGone i subs

-- A report that a watch is unavailable is never taken back, by that watch or by another.
pub on_status-IsGone :
    (i j : ℕ) (st : WatchStatus) (subs : List Sub) → IsGone i subs → IsGone i (on_status j st subs)
unfolding on_status
on_status-IsGone i j st [] g = absurd g
on_status-IsGone zero zero st (s ∷ subs) g = ground arith
on_status-IsGone zero (suc j) st (s ∷ subs) g = g
on_status-IsGone (suc i) zero st (s ∷ subs) g = g
on_status-IsGone (suc i) (suc j) st (s ∷ subs) g = on_status-IsGone i j st subs g

active-on_status :
    (i : ℕ) (st : WatchStatus) (subs : List Sub)
    → IsGone i subs
    → active (on_status i st subs) ≡ active subs
unfolding on_status active
active-on_status i st [] g = absurd g
active-on_status zero st (s ∷ subs) g = ground arith
active-on_status (suc i) st (s ∷ subs) g = ground (arith, active-on_status i st subs g)

every-active :
    (p : Sub → Bool) (subs : List Sub) → every p (active subs) ≡ false → every p subs ≡ false
unfolding active
every-active p [] h = cc
every-active p (s ∷ subs) h = ground (arith, every-active p subs)

-- The indicator does not oscillate: while some watch that is available is not paused, no report of
-- an unavailable watch changes the aggregated status.
pub aggregate-on_status_gone :
    (i : ℕ) (st : WatchStatus) (subs : List Sub)
    → IsGone i subs
    → every (λ (s : Sub). is_paused s.status) (active subs) ≡ false
    → aggregate (on_status i st subs) ≡ aggregate subs
unfolding aggregate
aggregate-on_status_gone i st subs g busy = ground (
  arith,
  active-on_status i st subs g,
  every-active (λ (s : Sub). is_paused s.status) subs busy,
  every-active (λ (s : Sub). is_paused s.status) (on_status i st subs)
      (rw (active-on_status i st subs g) busy),
)

every-get :
    (p : Sub → Bool) (subs : List Sub) (i : ℕ) (d : Sub)
    → every p subs ≡ true
    → i < length subs
    → p (get_or subs i d) ≡ true
every-get p [] i d h l = elim l [ ]
every-get p (s ∷ subs) zero d h l = ground arith
every-get p (s ∷ subs) (suc i) d h l = ground (arith, every-get p subs i d)

-- "Live" is shown only if every watch that is available is live.
pub aggregate-live :
    (subs : List Sub) (i : ℕ) (d : Sub)
    → aggregate subs ≡ live
    → i < length (active subs)
    → (get_or (active subs) i d).status ≡ live
unfolding aggregate
aggregate-live subs i d h l =
    let all : every (λ (s : Sub). is_live s.status) (active subs) ≡ true = ground arith in
    is_live_iff (get_or (active subs) i d).status
      (every-get (λ (s : Sub). is_live s.status) (active subs) i d all l)
  where
    is_live_iff : (st : WatchStatus) → is_live st ≡ true → st ≡ live
    is_live_iff live e = refl
    is_live_iff st e = cc
