-- ===== src/Watch.antt =====
-- One watch connection, `openWatchConnection` of web/src/hooks/useWatch.ts: a WebSocket with
-- exponential backoff that rests while the tab is hidden. A state holds the closure's variables and
-- what the browser holds for it: every socket that it has opened, by number, and the pending timer.
-- The variable `ws` is the socket opened last.
pub mod Steps
pub mod Range
pub mod Ending
pub mod Laws
pub mod Sockets
mod Tests
use skyvirt_kubeui.Prelude.{
  ℕ, zero, suc, ◌+◌, ◌-◌, ◌*◌, min, String, Bool, true, false, not, ◌&&◌, ◌||◌, Option, none, some,
  List, [], ◌∷◌, ◌++◌, if◌then◌else◌, ltb, leb, eqb, ◌==◌,
}
use skyvirt_kubeui.Prelude.Dict.{Dict}

pub data WatchStatus : Type 0 where
  connecting live paused error unavailable : WatchStatus

pub data EventType : Type 0 where
  added modified deleted error : EventType

pub record WatchEvent (Row : Type 0) : Type 0 where
  pub type : EventType
  pub kind : String
  pub namespace : Option String
  pub name : Option String
  pub resource_version : Option String
  pub error : Option String
  pub code : Option String
  pub object : Option Row

-- `JSON.parse` of a frame: it throws, or gives an event.
pub data Frame (Row : Type 0) : Type 0 where
  malformed : Frame Row
  frame : WatchEvent Row → Frame Row

-- `WebSocket.readyState`: CONNECTING, OPEN, CLOSING, CLOSED.
pub data Ready : Type 0 where
  opening opened closing closed : Ready

abbrev pub base_backoff : ℕ
base_backoff = 500

abbrev pub max_backoff : ℕ
max_backoff = 15000

abbrev pub stable_ms : ℕ
stable_ms = 5000

pub record Watch (Row : Type 0) : Type 0 where
  pub sockets : ℕ
  pub ready : ℕ → Ready
  pub backoff : ℕ
  pub reconnect_timer : Bool
  pub closed : Bool
  pub opened_at : ℕ
  pub saw_error : Bool
  -- `document.hidden`, and whether the listener of its changes is registered
  pub hidden : Bool
  pub listening : Bool
  -- the status reported last, and the events handed to `onEvent`
  pub status : WatchStatus
  pub delivered : List (WatchEvent Row)

abbrev pub update : (ℕ → Ready) → ℕ → Ready → ℕ → Ready
update f i r j = if eqb i j then r else f j

abbrev pub query_namespace : Option String → Dict String
query_namespace none = []
query_namespace (some ns) = if ns == "" || ns == "all" then [] else ("namespace", ns) ∷ []

abbrev pub query_token : Option String → Dict String
query_token none = []
query_token (some t) = if t == "" then [] else ("token", t) ∷ []

-- The query of the socket's address.
pub watch_query : String → Option String → Option String → Dict String
watch_query kind namespace token = ("kind", kind) ∷ (query_namespace namespace ++ query_token token)

abbrev pub is_closed : Ready → Bool
is_closed closed = true
is_closed _ = false

-- `readyState` after `close()`
abbrev pub after_close : Ready → Ready
after_close closed = closed
after_close _ = closing

abbrev pub is_not_installed : Option String → Bool
is_not_installed none = false
is_not_installed (some c) = c == "not_installed"

abbrev pub is_error : EventType → Bool
is_error EventType.error = true
is_error _ = false

module _ {Row : Type 0} where
  unfoldable pub connect : Watch Row → Watch Row
  connect s = if s.closed || s.hidden then s else (record s {
    status = connecting;
    sockets = s.sockets + 1;
    ready = update s.ready s.sockets opening;
  })

  -- `ws?.close()`
  unfoldable pub close_ws : Watch Row → Watch Row
  close_ws s = if eqb s.sockets 0 then s else (record s {
    ready = update s.ready (s.sockets - 1) (after_close (s.ready (s.sockets - 1)));
  })

  -- `!ws || ws.readyState === WebSocket.CLOSED`
  abbrev pub ws_gone : Watch Row → Bool
  ws_gone s = eqb s.sockets 0 || is_closed (s.ready (s.sockets - 1))

  unfoldable pub schedule_reconnect : Watch Row → Watch Row
  schedule_reconnect s =
      if s.closed || s.reconnect_timer then s else (record s { reconnect_timer = true })

  -- The timer's callback.
  unfoldable pub reconnect : Watch Row → Watch Row
  unfolding connect
  reconnect s =
      connect (record s { reconnect_timer = false; backoff = min (s.backoff * 2) max_backoff })

  -- `ws.onopen` of socket `i`, which the browser has made open.
  unfoldable pub on_open : ℕ → ℕ → Watch Row → Watch Row
  on_open i now s = record s {
    ready = update s.ready i opened;
    opened_at = now;
    saw_error = false;
    status = live;
  }

  unfoldable pub on_event : WatchEvent Row → Watch Row → Watch Row
  unfolding close_ws
  on_event ev s =
      if is_error ev.type
      then (if is_not_installed ev.code
          then close_ws (record s { saw_error = true; closed = true; status = unavailable })
          else (record s { saw_error = true; status = WatchStatus.error }))
      else (record s { delivered = s.delivered ++ ev ∷ [] })

  -- `ws.onmessage`
  unfoldable pub on_message : Frame Row → Watch Row → Watch Row
  unfolding on_event
  on_message malformed s = s
  on_message (frame ev) s = on_event ev s

  -- `ws.onclose` of socket `i`, which the browser has closed.
  unfoldable pub on_close : ℕ → ℕ → Watch Row → Watch Row
  unfolding schedule_reconnect
  on_close i now s =
      if s.closed
      then (record s { ready = update s.ready i closed })
      else schedule_reconnect (record s {
        ready = update s.ready i closed;
        backoff =
            if not s.saw_error && ltb 0 s.opened_at && leb stable_ms (now - s.opened_at)
            then base_backoff
            else s.backoff;
        status = if s.saw_error then WatchStatus.error else connecting;
      })

  -- The tab is hidden or shown.
  unfoldable pub on_visibility : Bool → Watch Row → Watch Row
  unfolding connect close_ws
  on_visibility hidden s =
      if not s.listening
      then (record s { hidden = hidden })
      else if hidden
      then close_ws (record s { hidden = true; status = paused })
      else if ws_gone s
      then connect (record s { hidden = false })
      else (record s { hidden = false })

  -- The function that `openWatchConnection` returns.
  unfoldable pub close_connection : Watch Row → Watch Row
  unfolding close_ws
  close_connection s =
      close_ws (record s { closed = true; listening = false; reconnect_timer = false })

  -- `openWatchConnection` itself, in a tab that is hidden or not.
  unfoldable pub open_watch_connection : Bool → WatchStatus → Watch Row
  unfolding connect
  open_watch_connection hidden status = connect (record {
    sockets = 0;
    ready = λ _. closed;
    backoff = base_backoff;
    reconnect_timer = false;
    closed = false;
    opened_at = 0;
    saw_error = false;
    hidden = hidden;
    listening = true;
    status = status;
    delivered = [];
  })
