-- ===== src/Watch/Range.antt =====
-- The backoff of a watch connection stays in its range, and doubles up to the limit.
use native.Mathlib.Decide.{dec_le}
use native.Mathlib.Nat.{pow-suc}
use skyvirt_kubeui.Prelude.{ℕ, zero, suc, ◌*◌, ◌≤◌, min, ◌≡◌, sym, ap, ◌∙◌, ◌^◌, true, false, arith}
use skyvirt_kubeui.Watch.{
  Watch, malformed, frame, close_ws, reconnect, on_open, on_message, on_close, on_visibility,
  close_connection, open_watch_connection, base_backoff, max_backoff,
}
use skyvirt_kubeui.Watch.Steps.{
  Step, opens, receives, closes, fails, fires, sees, disposes, IsReachable, starts, goes_on,
}

cap_product : (c p : ℕ) → 1 ≤ p → min (min c max_backoff * p) max_backoff ≡ min (c * p) max_backoff
cap_product c p h = elim (dec_le c max_backoff) [
  | yes below ↦ let e : min c max_backoff ≡ c = omega arith in rw e
  | no above ↦ let e : min c max_backoff ≡ max_backoff = omega arith in rw e (grind arith)
]

pow_pos : (n : ℕ) → 1 ≤ 2 ^ n
pow_pos zero = omega arith
pow_pos (suc n) = omega (arith, pow-suc 2 n, pow_pos n)

pub double_min :
    (b n : ℕ) → min (min (b * 2) max_backoff * 2 ^ n) max_backoff ≡ min (b * 2 ^ suc n) max_backoff
double_min b n =
    cap_product (b * 2) (2 ^ n) (pow_pos n)
    ∙ ap (λ k. min k max_backoff)
        (let e : b * 2 * 2 ^ n ≡ b * (2 ^ n * 2) = grind arith in
          e ∙ ap (λ k. b * k) (sym (pow-suc 2 n)))

module _ {Row : Type 0} where
  abbrev pub InRange : Watch Row → Type 0
  InRange s = (base_backoff ≤ s.backoff) × (s.backoff ≤ max_backoff)

  Step-InRange : (s t : Watch Row) → Step s t → InRange s → InRange t
  unfolding on_open on_message on_close on_visibility reconnect close_ws close_connection
  Step-InRange s t (opens i now l e) h = h
  Step-InRange s t (receives i malformed l e) h = h
  Step-InRange s t (receives i (frame ev) l e) h = ground arith
  Step-InRange s t (closes i now l e) h = ground arith
  Step-InRange s t (fails i l e) h = ground arith
  Step-InRange s t (fires e) h = ground arith
  Step-InRange s t (sees hidden) h = ground arith
  Step-InRange s t disposes h = ground arith

  -- In every state of a connection the delay of the next attempt is between 500 ms and 15 s.
  pub IsReachable-InRange : {s : Watch Row} → IsReachable s → InRange s
  unfolding open_watch_connection
  IsReachable-InRange (starts true) = omega arith
  IsReachable-InRange (starts false) = omega arith
  IsReachable-InRange (goes_on {s} {t} r st) = Step-InRange s t st (IsReachable-InRange r)
