-- ===== src/Live.antt =====
-- Live lists, web/src/hooks/useLiveResource.ts: the in-place patch of a list of rows by watch events,
-- the coalescing of change signals into one refetch, and the status of several watches as one.
pub mod Patch
pub mod Status
mod Tests
use Prim.Native.String
use skyvirt_kubeui.Prelude.{
  ℕ, zero, suc, ◌+◌, String, Bool, true, false, not, ◌&&◌, ◌||◌, Option, none, some, List, [], ◌∷◌,
  ◌++◌, if◌then◌else◌, ◌==◌, is_some, or_else, length, every, eqb,
}
use skyvirt_kubeui.Watch.{
  WatchStatus, connecting, live, paused, unavailable, WatchEvent, EventType, added, modified,
  deleted,
}

abbrev pub shift_index : Option ℕ → Option ℕ
shift_index none = none
shift_index (some i) = some (suc i)

module _ {A : Type 0} where
  -- `arr.findIndex(p)`; -1 is `none`.
  pub find_index : (A → Bool) → List A → Option ℕ
  find_index p [] = none
  find_index p (x ∷ xs) = let rest = find_index p xs in if p x then some 0 else shift_index rest

  -- `arr.splice(i, 1)`
  pub splice : ℕ → List A → List A
  splice i [] = []
  splice zero (x ∷ xs) = xs
  splice (suc i) (x ∷ xs) = x ∷ splice i xs

  -- `arr[i] = v`
  pub assign : ℕ → A → List A → List A
  assign i v [] = []
  assign zero v (x ∷ xs) = v ∷ xs
  assign (suc i) v (x ∷ xs) = x ∷ assign i v xs

-- `${ev.namespace ?? ""}/${ev.name ?? ""}`
abbrev pub event_key : {Row : Type 0} → WatchEvent Row → String
event_key ev = String.◌++◌ (or_else ev.namespace "") (String.◌++◌ "/" (or_else ev.name ""))

-- What a change event makes the hook do: patch the rows, or ask for a refetch.
pub data Reaction (Row : Type 0) : Type 0 where
  patch : List Row → Reaction Row
  refetch : Reaction Row

module _ {Row : Type 0} (key_of : Row → String) where
  pub delete_at : Option ℕ → List Row → List Row
  unfolding splice
  delete_at none arr = arr
  delete_at (some idx) arr = splice idx arr

  pub upsert_at : Option ℕ → Row → List Row → List Row
  unfolding assign
  upsert_at none object arr = arr ++ object ∷ []
  upsert_at (some idx) object arr = assign idx object arr

  -- `onEvent` with `opts.keyOf` given, on the current rows (`Array.isArray(cur) ? [...cur] : []`).
  -- An object that is there is truthy.
  pub patch_by : EventType → Option Row → String → List Row → Reaction Row
  unfolding delete_at upsert_at find_index
  patch_by deleted object key arr = patch (delete_at (find_index (λ r. key_of r == key) arr) arr)
  patch_by added (some object) key arr =
      patch (upsert_at (find_index (λ r. key_of r == key) arr) object arr)
  patch_by modified (some object) key arr =
      patch (upsert_at (find_index (λ r. key_of r == key) arr) object arr)
  patch_by _ _ key arr = refetch

  pub on_event : WatchEvent Row → List Row → Reaction Row
  unfolding patch_by
  on_event ev arr = patch_by ev.type ev.object (event_key ev) arr

-- `coalescedRefresh` and its timer: whether the timer is pending, and the refetches so far.
pub record Coalesce : Type 0 where
  pub pending : Bool
  pub refreshes : ℕ

unfoldable pub coalesced_refresh : Coalesce → Coalesce
coalesced_refresh c = if c.pending then c else (record c { pending = true })

-- The timer's callback, 500 ms after it was set.
unfoldable pub timer_fires : Coalesce → Coalesce
timer_fires c = if c.pending then (record { pending = false; refreshes = c.refreshes + 1 }) else c

-- `useLiveResources`: one entry for each watch, its status and whether it is unavailable for good.
pub record Sub : Type 0 where
  pub status : WatchStatus
  pub unavailable : Bool

abbrev pub is_paused : WatchStatus → Bool
is_paused paused = true
is_paused _ = false

abbrev pub is_live : WatchStatus → Bool
is_live live = true
is_live _ = false

abbrev pub is_error : WatchStatus → Bool
is_error WatchStatus.error = true
is_error _ = false

abbrev pub is_unavailable : WatchStatus → Bool
is_unavailable WatchStatus.unavailable = true
is_unavailable _ = false

-- `statuses.filter((_, i) => !unavailable[i])`
pub active : List Sub → List Sub
active [] = []
active (s ∷ subs) = let rest = active subs in if s.unavailable then rest else s ∷ rest

pub aggregate : List Sub → WatchStatus
unfolding active
aggregate subs =
    if every (λ (s : Sub). is_paused s.status) subs
    then paused
    else if eqb (length (active subs)) 0
    then unavailable
    else if every (λ (s : Sub). is_live s.status) (active subs)
    then live
    else if every (λ (s : Sub). is_error s.status) (active subs)
    then WatchStatus.error
    else connecting

-- `onStatus` of the watch number `i`.
pub on_status : ℕ → WatchStatus → List Sub → List Sub
on_status i st [] = []
on_status zero st (s ∷ subs) =
    record { status = st; unavailable = s.unavailable || is_unavailable st } ∷ subs
on_status (suc i) st (s ∷ subs) = s ∷ on_status i st subs
