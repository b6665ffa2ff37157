-- ===== src/Watch/Laws.antt =====
-- What ends a connection for good, and how long a failing one waits.
use skyvirt_kubeui.Prelude.{
  ℕ, ◌-◌, ◌*◌, ◌≤◌, min, ◌≡◌, refl, ap, ◌∙◌, ◌^◌, ◌<◌, Bool, true, false, not, ◌&&◌, some, List, [],
  ◌∷◌, length, All, arith, if◌then◌else◌, ltb, leb, eq_refl,
}
use skyvirt_kubeui.Watch.{
  Watch, WatchEvent, EventType, unavailable, malformed, frame, opened, closing, close_ws, reconnect,
  on_open, on_message, on_close, on_visibility, close_connection, base_backoff, max_backoff,
  stable_ms,
}
use skyvirt_kubeui.Watch.Steps.{
  Step, opens, receives, closes, fails, fires, sees, disposes, Reach, here, next,
}
use skyvirt_kubeui.Watch.Range.{double_min}
use skyvirt_kubeui.Watch.Ending.{is_ending, Step-is_ending}

module _ {Row : Type 0} where
  Step-closed :
      (s t : Watch Row) → Step s t → s.closed ≡ true → (t.closed ≡ true) × (t.sockets ≡ s.sockets)
  unfolding on_open on_message on_close on_visibility reconnect close_ws close_connection
  Step-closed s t (opens i now l e) h = (h, refl)
  Step-closed s t (receives i malformed l e) h = (h, refl)
  Step-closed s t (receives i (frame ev) l e) h = ground arith
  Step-closed s t (closes i now l e) h = ground arith
  Step-closed s t (fails i l e) h = ground arith
  Step-closed s t (fires e) h = ground arith
  Step-closed s t (sees hidden) h = ground arith
  Step-closed s t disposes h = ground arith

  -- Once closed, a connection stays closed and opens no socket, whatever happens.
  pub Reach-closed :
      {s t : Watch Row} → Reach s t → s.closed ≡ true → (t.closed ≡ true) × (t.sockets ≡ s.sockets)
  Reach-closed here h = (h, refl)
  Reach-closed (next {t} {u} r st) h =
      let (c, n) = Reach-closed r h in let (c', n') = Step-closed t u st c in (c', n' ∙ n)

  Reach-is_ending :
      {s t : Watch Row}
      → Reach s t
      → s.closed ≡ true
      → (i : ℕ) → is_ending (s.ready i) ≡ true
      → is_ending (t.ready i) ≡ true
  Reach-is_ending here c i h = h
  Reach-is_ending (next {t} {u} r st) c i h =
      Step-is_ending t u st (Reach-closed r c).0 i (Reach-is_ending r c i h)

  on_not_installed :
      (ev : WatchEvent Row) (s : Watch Row)
      → ev.type ≡ EventType.error
      → ev.code ≡ some "not_installed"
      → 0 < s.sockets
      → s.ready (s.sockets - 1) ≡ opened
      → ((on_message (frame ev) s).status ≡ unavailable)
        × ((on_message (frame ev) s).closed ≡ true)
        × ((on_message (frame ev) s).sockets ≡ s.sockets)
        × ((on_message (frame ev) s).ready (s.sockets - 1) ≡ closing)
  unfolding on_message close_ws
  on_not_installed ev s e c pos o = ground (arith, eq_refl "not_installed")

  -- The server's "not installed", while the socket opened last is open, closes the connection for
  -- good: right after the frame the status is `unavailable` and `close()` has been called on the
  -- socket; from then on, whatever happens, no socket is opened and that one never is open again.
  pub not_installed_final :
      (ev : WatchEvent Row) (s t : Watch Row)
      → ev.type ≡ EventType.error
      → ev.code ≡ some "not_installed"
      → 0 < s.sockets
      → s.ready (s.sockets - 1) ≡ opened
      → Reach (on_message (frame ev) s) t
      → ((on_message (frame ev) s).status ≡ unavailable)
        × ((on_message (frame ev) s).ready (s.sockets - 1) ≡ closing)
        × (t.sockets ≡ s.sockets)
        × (is_ending (t.ready (s.sockets - 1)) ≡ true)
  not_installed_final ev s t e c pos o r =
      let (u, k, n, shut) = on_not_installed ev s e c pos o in
      (u, shut, (Reach-closed r k).1 ∙ n, Reach-is_ending r k (s.sockets - 1) (ap is_ending shut))

  -- After a close and the timer, the next attempt waits twice as long as the last, up to 15 s; but
  -- after a connection without error frames that stayed up for 5 s it starts again from twice 500 ms.
  pub backoff-reconnect-on_close :
      (i now : ℕ) (s : Watch Row)
      → s.closed ≡ false
      → (reconnect (on_close i now s)).backoff ≡ (
          if not s.saw_error && ltb 0 s.opened_at && leb stable_ms (now - s.opened_at)
          then base_backoff * 2
          else min (s.backoff * 2) max_backoff)
  unfolding reconnect on_close
  backoff-reconnect-on_close i now s alive = ground arith

  -- The attempts that end at the given times, each followed by the timer.
  unfoldable pub fail_rounds : List ℕ → Watch Row → Watch Row
  fail_rounds [] s = s
  fail_rounds (now ∷ times) s = fail_rounds times (reconnect (on_close (s.sockets - 1) now s))

  -- The last connection to open had been up for 5 s at this time, and has had no error frame.
  abbrev pub was_healthy : Watch Row → ℕ → Bool
  was_healthy s now = not s.saw_error && ltb 0 s.opened_at && leb stable_ms (now - s.opened_at)

  round_keeps :
      (i now : ℕ) (s : Watch Row)
      → s.closed ≡ false
      → ((reconnect (on_close i now s)).closed ≡ false)
        × ((reconnect (on_close i now s)).saw_error ≡ s.saw_error)
        × ((reconnect (on_close i now s)).opened_at ≡ s.opened_at)
        × ((reconnect (on_close i now s)).backoff
            ≡ (if was_healthy s now then base_backoff * 2 else min (s.backoff * 2) max_backoff))
  unfolding reconnect on_close
  round_keeps i now s alive = ground arith

  was_healthy-round :
      (i now : ℕ) (s : Watch Row)
      → s.closed ≡ false
      → (was : Bool) (times : List ℕ) → All (λ at. was_healthy s at ≡ was) times
      → All (λ at. was_healthy (reconnect (on_close i now s)) at ≡ was) times
  was_healthy-round i now s alive was times h =
      let (_, bad, at, _) = round_keeps i now s alive in rw bad (rw at h)

  fail_rounds_unhealthy :
      (times : List ℕ) (s : Watch Row)
      → s.closed ≡ false
      → All (λ at. was_healthy s at ≡ false) times
      → s.backoff ≤ max_backoff
      → (fail_rounds times s).backoff ≡ min (s.backoff * 2 ^ length times) max_backoff
  unfolding fail_rounds
  fail_rounds_unhealthy [] s alive un le = omega arith
  fail_rounds_unhealthy (now ∷ times) s alive (u, un) le =
      let (a, _, _, e) = round_keeps (s.sockets - 1) now s alive in
      let e' : (reconnect (on_close (s.sockets - 1) now s)).backoff
          ≡ min (s.backoff * 2) max_backoff =
        e ∙ ap (λ w. if w then base_backoff * 2 else min (s.backoff * 2) max_backoff) u in
      fail_rounds_unhealthy times (reconnect (on_close (s.sockets - 1) now s)) a
        (was_healthy-round (s.sockets - 1) now s alive false times un) (omega (arith, e'))
      ∙ ap (λ k. min (k * 2 ^ length times) max_backoff) e'
      ∙ double_min s.backoff (length times)

  fail_rounds_healthy :
      (now : ℕ) (times : List ℕ) (s : Watch Row)
      → s.closed ≡ false
      → All (λ at. was_healthy s at ≡ true) (now ∷ times)
      → (fail_rounds (now ∷ times) s).backoff ≡ base_backoff * 2
  unfolding fail_rounds
  fail_rounds_healthy now [] s alive (u, un) =
      let (_, _, _, e) = round_keeps (s.sockets - 1) now s alive in
      e ∙ ap (λ w. if w then base_backoff * 2 else min (s.backoff * 2) max_backoff) u
  fail_rounds_healthy now (later ∷ times) s alive (u, un) =
      let (a, _, _, _) = round_keeps (s.sockets - 1) now s alive in
      fail_rounds_healthy later times (reconnect (on_close (s.sockets - 1) now s)) a
        (was_healthy-round (s.sockets - 1) now s alive true (later ∷ times) un)

  -- The backoff of a watch that is not closed and whose backoff is at most 15 s, after attempts in
  -- a row without an opening, each of them ended by a close event and followed by the retry's timer.
  -- If the last connection that opened had no error frame and each of the close events comes 5 s or
  -- more after its opening, the backoff is 1 s however many attempts there are. If none of them does,
  -- or no connection has opened, or the last one had an error frame, the backoff is `2 ^ n` times the
  -- first after `n` attempts, cut at 15 s.
  pub backoff-fail_rounds :
      (was : Bool) (now : ℕ) (times : List ℕ) (s : Watch Row)
      → s.closed ≡ false
      → All (λ at. was_healthy s at ≡ was) (now ∷ times)
      → s.backoff ≤ max_backoff
      → (fail_rounds (now ∷ times) s).backoff
        ≡ (if was then base_backoff * 2 else min (s.backoff * 2 ^ length (now ∷ times)) max_backoff)
  backoff-fail_rounds true now times s alive h le = fail_rounds_healthy now times s alive h
  backoff-fail_rounds false now times s alive h le =
      fail_rounds_unhealthy (now ∷ times) s alive h le
