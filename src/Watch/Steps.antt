-- ===== src/Watch/Steps.antt =====
-- What the browser may do with a watch connection, as a step relation: socket events, the timer,
-- the tab's visibility, and the call of the function that closes the connection.
use skyvirt_kubeui.Prelude.{ℕ, ◌<◌, ◌≡◌, Bool, true, false}
use skyvirt_kubeui.Watch.{
  Watch, connecting, Frame, opening, opened, is_closed, close_ws, reconnect, on_open, on_message,
  on_close, on_visibility, close_connection, open_watch_connection,
}

module _ {Row : Type 0} where
  pub data Step (s : Watch Row) : Watch Row → Type 0 where
    opens : (i now : ℕ) → i < s.sockets → s.ready i ≡ opening → Step s (on_open i now s)
    -- the browser delivers messages of open sockets only
    receives :
        (i : ℕ) (f : Frame Row) → i < s.sockets → s.ready i ≡ opened → Step s (on_message f s)
    closes : (i now : ℕ) → i < s.sockets → is_closed (s.ready i) ≡ false → Step s (on_close i now s)
    -- `ws.onerror`
    fails : (i : ℕ) → i < s.sockets → is_closed (s.ready i) ≡ false → Step s (close_ws s)
    fires : s.reconnect_timer ≡ true → Step s (reconnect s)
    sees : (hidden : Bool) → Step s (on_visibility hidden s)
    disposes : Step s (close_connection s)

  pub data Reach (s : Watch Row) : Watch Row → Type 0 where
    here : Reach s s
    next : {t u : Watch Row} → Reach s t → Step t u → Reach s u

  -- The states of a connection.
  pub data IsReachable : Watch Row → Type 0 where
    starts : (hidden : Bool) → IsReachable (open_watch_connection hidden connecting)
    goes_on : {s t : Watch Row} → IsReachable s → Step s t → IsReachable t
