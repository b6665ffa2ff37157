-- ===== src/Watch/Ending.antt =====
-- A closed connection's sockets do not open again.
use skyvirt_kubeui.Prelude.{ℕ, ◌-◌, ◌≡◌, refl, sym, ap, ◌∙◌, Bool, true, false, arith}
use skyvirt_kubeui.Watch.{
  Watch, malformed, frame, Ready, opening, opened, closing, closed, after_close, update, close_ws,
  reconnect, on_open, on_message, on_close, on_visibility, close_connection,
}
use skyvirt_kubeui.Watch.Steps.{Step, opens, receives, closes, fails, fires, sees, disposes}

-- A socket that `close()` was called on, or that is closed.
abbrev pub is_ending : Ready → Bool
is_ending closing = true
is_ending closed = true
is_ending _ = false

after_close-is_ending : (r : Ready) → is_ending (after_close r) ≡ true
after_close-is_ending opening = refl
after_close-is_ending opened = refl
after_close-is_ending closing = refl
after_close-is_ending closed = refl

is_ending-opening : (r : Ready) → r ≡ opening → is_ending r ≡ true → ⊥
is_ending-opening r e h = let e' : is_ending r ≡ false = ap is_ending e in absurd (cc)

update-is_ending :
    (f : ℕ → Ready) (j : ℕ) (r : Ready) (i : ℕ)
    → (j ≡ i → is_ending r ≡ true)
    → is_ending (f i) ≡ true
    → is_ending (update f j r i) ≡ true
update-is_ending f j r i new old = ground arith

module _ {Row : Type 0} where
  close_ws-is_ending :
      (s : Watch Row) (i : ℕ)
      → is_ending (s.ready i) ≡ true
      → is_ending ((close_ws s).ready i) ≡ true
  unfolding close_ws
  close_ws-is_ending s i h = ground (arith, after_close-is_ending (s.ready (s.sockets - 1)))

  pub Step-is_ending :
      (s t : Watch Row)
      → Step s t
      → s.closed ≡ true
      → (i : ℕ) → is_ending (s.ready i) ≡ true
      → is_ending (t.ready i) ≡ true
  unfolding on_open on_message on_close on_visibility reconnect close_connection
  Step-is_ending s t (opens j now l e) c i h =
      update-is_ending s.ready j opened i
        (λ same. absurd (is_ending-opening (s.ready i) (ap s.ready (sym same) ∙ e) h)) h
  Step-is_ending s t (receives j malformed l e) c i h = h
  Step-is_ending s t (receives j (frame ev) l e) c i h =
      ground (arith, after_close-is_ending (s.ready (s.sockets - 1)))
  Step-is_ending s t (closes j now l e) c i h =
      ground (arith, after_close-is_ending (s.ready (s.sockets - 1)))
  Step-is_ending s t (fails j l e) c i h = close_ws-is_ending s i h
  Step-is_ending s t (fires e) c i h =
      ground (arith, after_close-is_ending (s.ready (s.sockets - 1)))
  Step-is_ending s t (sees hidden) c i h =
      ground (arith, after_close-is_ending (s.ready (s.sockets - 1)))
  Step-is_ending s t disposes c i h =
      ground (arith, after_close-is_ending (s.ready (s.sockets - 1)))
