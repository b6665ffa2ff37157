-- ===== src/Live/Tests.antt =====
-- Runs of the live list, and the witnesses of its theorems.
use skyvirt_kubeui.Prelude.{
  ℕ, ◌≡◌, refl, String, true, false, Option, none, some, List, [], ◌∷◌, if◌then◌else◌, ◌==◌,
}
use skyvirt_kubeui.Watch.{WatchEvent, EventType, modified, deleted, live, unavailable}
use skyvirt_kubeui.Live.{Sub, on_event, event_key, patch, Coalesce}
use skyvirt_kubeui.Live.Patch.{row_of, IsKeyed, on_event-patch}

abbrev Row : Type 0
Row = String × ℕ

abbrev key_of : Row → String
key_of r = r.0

abbrev rows : List Row
rows = ("default/web", 1) ∷ ("default/db", 2) ∷ []

abbrev event : EventType → Option Row → WatchEvent Row
event t o = record {
  type = t;
  kind = "pods";
  namespace = some "default";
  name = some "web";
  resource_version = none;
  error = none;
  code = none;
  object = o;
}

modified_run :
    on_event key_of (event modified (some ("default/web", 7))) rows
    ≡ patch (("default/web", 7) ∷ ("default/db", 2) ∷ [])
unfolding on_event
modified_run = refl

deleted_run : on_event key_of (event deleted none) rows ≡ patch (("default/db", 2) ∷ [])
unfolding on_event
deleted_run = refl

on_event-patch_example :
    IsKeyed key_of (("default/db", 2) ∷ [])
    × ((j : String)
        → row_of key_of j (("default/db", 2) ∷ [])
          ≡ (if event_key (event deleted none) == j then none else row_of key_of j rows))
on_event-patch_example =
    on_event-patch key_of (event deleted none) rows (("default/db", 2) ∷ []) (refl, (refl, tt))
      (λ v e. cc) deleted_run

abbrev quiet : Coalesce
quiet = record { pending = false; refreshes = 0 }

abbrev subs : List Sub
subs =
    record { status = live; unavailable = false }
    ∷ record { status = unavailable; unavailable = true }
    ∷ []
