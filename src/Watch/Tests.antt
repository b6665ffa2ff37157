-- ===== src/Watch/Tests.antt =====
-- Runs of a watch connection, and the witnesses of its theorems.
use skyvirt_kubeui.Prelude.{
  ℕ, ◌+◌, ◌*◌, ◌^◌, min, ◌≡◌, refl, true, false, none, some, String, [], ◌∷◌, arith,
}
use skyvirt_kubeui.Watch.{
  Watch, WatchEvent, EventType, connecting, unavailable, frame, opening, closing, on_open,
  on_message, on_close, on_visibility, reconnect, close_connection, open_watch_connection,
  max_backoff,
}
use skyvirt_kubeui.Watch.Steps.{closes, sees, disposes, here, next, IsReachable, starts, goes_on}
use skyvirt_kubeui.Watch.Ending.{is_ending}
use skyvirt_kubeui.Watch.Laws.{not_installed_final, fail_rounds, backoff-fail_rounds}
use skyvirt_kubeui.Watch.Sockets.{
  CalmReach, one_socket, shown_while_waiting-leaks, hidden_and_shown-paused,
}
use skyvirt_kubeui.Watch.Sockets

abbrev fresh : Watch String
fresh = open_watch_connection false connecting

-- The tab is hidden before the socket opens; its close event schedules a retry.
abbrev hidden_tab : Watch String
hidden_tab = on_close 0 1000 (on_visibility true fresh)

IsReachable-hidden_tab : IsReachable hidden_tab
unfolding open_watch_connection on_visibility on_close
IsReachable-hidden_tab =
    goes_on (goes_on (starts false) (sees true)) (closes 0 1000 (omega arith) refl)

shown_while_waiting-leaks_example :
    ((reconnect (on_visibility false hidden_tab)).sockets ≡ hidden_tab.sockets + 2)
    × ((reconnect (on_visibility false hidden_tab)).ready hidden_tab.sockets ≡ opening)
    × ((reconnect (on_visibility false hidden_tab)).ready (hidden_tab.sockets + 1) ≡ opening)
    × ((close_connection (reconnect (on_visibility false hidden_tab))).ready hidden_tab.sockets
        ≡ opening)
unfolding open_watch_connection on_visibility on_close
shown_while_waiting-leaks_example = shown_while_waiting-leaks hidden_tab refl refl refl refl

abbrev not_installed : WatchEvent String
not_installed = record {
  type = EventType.error;
  kind = "metallb";
  namespace = none;
  name = none;
  resource_version = none;
  error = none;
  code = some "not_installed";
  object = none;
}

abbrev refused : Watch String
refused = on_message (frame not_installed) (on_open 0 1000 fresh)

not_installed_final_example :
    (refused.status ≡ unavailable)
    × (refused.ready 0 ≡ closing)
    × ((close_connection refused).sockets ≡ (on_open 0 1000 fresh).sockets)
    × (is_ending ((close_connection refused).ready 0) ≡ true)
unfolding open_watch_connection on_open
not_installed_final_example =
    not_installed_final not_installed (on_open 0 1000 fresh) (close_connection refused) refl refl
      (omega arith) refl (next here disposes)

-- Three attempts in a row fail before any connection has opened.
backoff-fail_rounds_example :
    (fail_rounds (900 ∷ 2000 ∷ 4000 ∷ []) fresh).backoff ≡ min (fresh.backoff * 2 ^ 3) max_backoff
unfolding open_watch_connection
backoff-fail_rounds_example =
    backoff-fail_rounds false 900 (2000 ∷ 4000 ∷ []) fresh refl (refl, (refl, (refl, tt)))
      (omega arith)

one_socket_example : ◌≡◌ {A = ℕ} 0 0
unfolding open_watch_connection
one_socket_example =
    one_socket {s = fresh} (Sockets.starts false) 0 0 (omega arith) (omega arith) refl refl
