-- ===== src/Watch/Sockets.antt =====
-- How many sockets a connection keeps.
use skyvirt_kubeui.Prelude.{ℕ, suc, ◌+◌, ◌-◌, ◌<◌, ◌≡◌, refl, true, false, Bool, arith}
use skyvirt_kubeui.Watch.{
  Watch, WatchStatus, paused, connecting, malformed, frame, opening, closed, is_closed, close_ws,
  reconnect, on_open, on_message, ws_gone, on_close, on_visibility, close_connection,
  open_watch_connection,
}
use skyvirt_kubeui.Watch.Steps.{Step, opens, receives, closes, fails, fires, sees, disposes}

module _ {Row : Type 0} where
  -- Only the socket opened last may be alive, and none is while a retry is pending.
  pub record OneSocket (s : Watch Row) : Type 0 where
    pub others : (i : ℕ) → suc i < s.sockets → s.ready i ≡ closed
    pub waiting : s.reconnect_timer ≡ true → (i : ℕ) → i < s.sockets → s.ready i ≡ closed

  -- The tab is not shown while a retry is pending.
  abbrev pub IsCalm : {s t : Watch Row} → Step s t → Type 0
  IsCalm {s} (sees false) = s.reconnect_timer ≡ false
  IsCalm _ = Unit

  Step-OneSocket : (s t : Watch Row) (st : Step s t) → IsCalm st → OneSocket s → OneSocket t
  unfolding on_open on_message on_close on_visibility reconnect close_ws close_connection
  Step-OneSocket s t (opens i now l e) c h = record {
    others = λ j k. ground (arith, h.others j, h.others i);
    waiting = λ w j k. ground (arith, h.waiting, h.waiting w i);
  }
  Step-OneSocket s t (receives i malformed l e) c h = h
  Step-OneSocket s t (receives i (frame ev) l e) c h = record {
    others = λ j k. ground (arith, h.others j);
    waiting = λ w j k. ground (arith, λ (w : s.reconnect_timer ≡ true). h.waiting w j);
  }
  Step-OneSocket s t (closes i now l e) c h = record {
    others = λ j k. ground (arith, h.others j);
    waiting = λ w j k.
        ground (arith, h.others i, h.others j, λ (w : s.reconnect_timer ≡ true). h.waiting w j);
  }
  Step-OneSocket s t (fails i l e) c h = record {
    others = λ j k. ground (arith, h.others j);
    waiting = λ w j k. ground (arith, λ (w : s.reconnect_timer ≡ true). h.waiting w j);
  }
  Step-OneSocket s t (fires e) c h = record {
    others = λ j k. ground (arith, h.others j, h.waiting e j);
    waiting = λ w j k. ground arith;
  }
  Step-OneSocket s t (sees true) c h = record {
    others = λ j k. ground (arith, h.others j);
    waiting = λ w j k. ground (arith, λ (w : s.reconnect_timer ≡ true). h.waiting w j);
  }
  Step-OneSocket s t (sees false) c h = record {
    others = λ j k. ground (arith, h.others j, h.others (s.sockets - 1));
    waiting = λ w j k. ground (arith, λ (w : s.reconnect_timer ≡ true). h.waiting w j);
  }
  Step-OneSocket s t disposes c h = record {
    others = λ j k. ground (arith, h.others j);
    waiting = λ w j k. ground arith;
  }

  start-OneSocket :
      (hidden : Bool) (status : WatchStatus)
      → OneSocket (open_watch_connection {Row = Row} hidden status)
  unfolding open_watch_connection
  start-OneSocket true status = record { others = λ j k. refl; waiting = λ w j k. refl }
  start-OneSocket false status = record {
    others = λ j k. ground arith;
    waiting = λ w j k. ground arith;
  }

  pub data CalmReach : Watch Row → Type 0 where
    starts : (hidden : Bool) → CalmReach (open_watch_connection hidden connecting)
    goes_on : {s t : Watch Row} → CalmReach s → (st : Step s t) → IsCalm st → CalmReach t

  pub CalmReach-OneSocket : {s : Watch Row} → CalmReach s → OneSocket s
  CalmReach-OneSocket (starts hidden) = start-OneSocket hidden connecting
  CalmReach-OneSocket (goes_on {s} {t} r st c) = Step-OneSocket s t st c (CalmReach-OneSocket r)

  -- As long as the tab is never shown while a retry is pending, at most one socket is not closed.
  pub one_socket :
      {s : Watch Row}
      → CalmReach s
      → (i j : ℕ) → i < s.sockets
      → j < s.sockets
      → is_closed (s.ready i) ≡ false
      → is_closed (s.ready j) ≡ false
      → i ≡ j
  one_socket {s} r i j k l a b =
      let h = CalmReach-OneSocket r in ground (arith, h.others i, h.others j)

  -- If the tab is shown while a retry is pending and its socket is closed, the pending timer opens
  -- a second socket beside the one opened at once, and closing the connection leaves the first of
  -- the two open.
  pub shown_while_waiting-leaks :
      (s : Watch Row)
      → s.closed ≡ false
      → s.listening ≡ true
      → s.reconnect_timer ≡ true
      → ws_gone s ≡ true
      → ((reconnect (on_visibility false s)).sockets ≡ s.sockets + 2)
        × ((reconnect (on_visibility false s)).ready s.sockets ≡ opening)
        × ((reconnect (on_visibility false s)).ready (s.sockets + 1) ≡ opening)
        × ((close_connection (reconnect (on_visibility false s))).ready s.sockets ≡ opening)
  unfolding on_visibility reconnect close_connection
  shown_while_waiting-leaks s alive on pending gone =
      (ground arith, ground arith, ground arith, ground arith)

  -- Hiding and showing the tab after the server's "not installed", which closed the connection,
  -- leaves the status at `paused`.
  pub hidden_and_shown-paused :
      (s : Watch Row)
      → s.closed ≡ true
      → s.listening ≡ true
      → ((on_visibility false (on_visibility true s)).status ≡ paused)
        × ((on_visibility false (on_visibility true s)).sockets ≡ s.sockets)
  unfolding on_visibility
  hidden_and_shown-paused s c on = (ground arith, ground arith)
