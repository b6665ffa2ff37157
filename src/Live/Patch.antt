-- ===== src/Live/Patch.antt =====
-- What a list of rows holds after a watch event has patched it.
use skyvirt_kubeui.Prelude.{
  ℕ, zero, suc, ◌≡◌, refl, ◌∙◌, String, Bool, true, false, Option, none, some, List, [], ◌∷◌, ◌++◌,
  map, if◌then◌else◌, ◌==◌, eq_iff, arith, is_some, ◌+◌,
}
use skyvirt_kubeui.Watch.{WatchEvent, EventType, added, modified, deleted}
use skyvirt_kubeui.Live.{
  find_index, event_key, patch, delete_at, upsert_at, patch_by, on_event, Coalesce,
  coalesced_refresh, timer_fires,
}

module _ {Row : Type 0} (key_of : Row → String) where
  -- The row of a key: the first, and the only one where keys are not repeated.
  abbrev pub row_of : String → List Row → Option Row
  row_of k [] = none
  row_of k (r ∷ rows) = if key_of r == k then some r else row_of k rows

  abbrev pub IsKeyed : List Row → Type 0
  IsKeyed [] = Unit
  IsKeyed (r ∷ rows) = (row_of (key_of r) rows ≡ none) × IsKeyed rows

  at_key : String → Row → Bool
  at_key k r = key_of r == k

  abbrev dropped : String → List Row → List Row
  dropped k rows = delete_at key_of (find_index (λ r. key_of r == k) rows) rows

  abbrev upserted : String → Row → List Row → List Row
  upserted k v rows = upsert_at key_of (find_index (λ r. key_of r == k) rows) v rows

  dropped-cons :
      (k : String) (r : Row) (rows : List Row)
      → dropped k (r ∷ rows) ≡ (if key_of r == k then rows else r ∷ dropped k rows)
  unfolding delete_at find_index
  dropped-cons k r rows = ground arith

  upserted-cons :
      (k : String) (v r : Row) (rows : List Row)
      → upserted k v (r ∷ rows) ≡ (if key_of r == k then v ∷ rows else r ∷ upserted k v rows)
  unfolding upsert_at find_index
  upserted-cons k v r rows = ground arith

  upserted-nil : (k : String) (v : Row) → upserted k v [] ≡ v ∷ []
  unfolding upsert_at find_index
  upserted-nil k v = refl

  dropped-nil : (k : String) → dropped k [] ≡ []
  unfolding delete_at find_index
  dropped-nil k = refl

  row_of-dropped :
      (k j : String) (rows : List Row)
      → IsKeyed rows
      → row_of j (dropped k rows) ≡ (if k == j then none else row_of j rows)
  row_of-dropped k j [] h = rw (dropped-nil k) (ground arith)
  row_of-dropped k j (r ∷ rows) (fresh, h) = rw dropped-cons (
      ground
        (arith, row_of-dropped k j rows h, eq_iff (key_of r) k, eq_iff (key_of r) j, eq_iff k j))

  row_of-upserted :
      (k j : String) (v : Row) (rows : List Row)
      → key_of v ≡ k
      → row_of j (upserted k v rows) ≡ (if k == j then some v else row_of j rows)
  row_of-upserted k j v [] e = rw (upserted-nil k v) (rw e)
  row_of-upserted k j v (r ∷ rows) e = rw upserted-cons (
      ground (
        arith,
        row_of-upserted k j v rows e,
        eq_iff (key_of r) k,
        eq_iff (key_of r) j,
        eq_iff k j,
        eq_iff (key_of v) j,
      ))

  dropped-IsKeyed : (k : String) (rows : List Row) → IsKeyed rows → IsKeyed (dropped k rows)
  dropped-IsKeyed k [] h = rw (dropped-nil k) tt
  dropped-IsKeyed k (r ∷ rows) (fresh, h) =
      rw dropped-cons (ground (arith, dropped-IsKeyed k rows h, row_of-dropped k (key_of r) rows h))

  upserted-IsKeyed :
      (k : String) (v : Row) (rows : List Row)
      → key_of v ≡ k
      → IsKeyed rows
      → IsKeyed (upserted k v rows)
  upserted-IsKeyed k v [] e h = rw (upserted-nil k v) (refl, tt)
  upserted-IsKeyed k v (r ∷ rows) e (fresh, h) = rw upserted-cons (
      ground (
        arith,
        upserted-IsKeyed k v rows e h,
        row_of-upserted k (key_of r) v rows e,
        eq_iff (key_of r) k,
        eq_iff k (key_of r),
      ))

  -- The row that an event leaves under its key.
  abbrev pub expected : EventType → Option Row → Option Row
  expected deleted o = none
  expected _ o = o

  patch_by_lem :
      (t : EventType) (o : Option Row) (k : String) (arr rows : List Row)
      → IsKeyed arr
      → ((v : Row) → o ≡ some v → key_of v ≡ k)
      → patch_by key_of t o k arr ≡ patch rows
      → IsKeyed rows
        × ((j : String) → row_of j rows ≡ (if k == j then expected t o else row_of j arr))
  unfolding patch_by
  patch_by_lem deleted o k arr rows h ok e =
      let same : dropped k arr ≡ rows = cc in
      (rw same at (dropped-IsKeyed k arr h), λ j. rw (← same) (row_of-dropped k j arr h))
  patch_by_lem added (some v) k arr rows h ok e =
      let same : upserted k v arr ≡ rows = cc in
      (
        rw same at (upserted-IsKeyed k v arr (ok v refl) h),
        λ j. rw (← same) (row_of-upserted k j v arr (ok v refl)),
      )
  patch_by_lem modified (some v) k arr rows h ok e =
      let same : upserted k v arr ≡ rows = cc in
      (
        rw same at (upserted-IsKeyed k v arr (ok v refl) h),
        λ j. rw (← same) (row_of-upserted k j v arr (ok v refl)),
      )
  patch_by_lem _ _ k arr rows h ok e = cc

  -- A patch keeps one row for each key; under the event's key it leaves the event's object, or no
  -- row if the event is a deletion, and every other row is as it was. Rows have distinct keys
  -- before, and the object has the event's key.
  pub on_event-patch :
      (ev : WatchEvent Row) (arr rows : List Row)
      → IsKeyed arr
      → ((v : Row) → ev.object ≡ some v → key_of v ≡ event_key ev)
      → on_event key_of ev arr ≡ patch rows
      → IsKeyed rows
        × ((j : String)
            → row_of j rows
              ≡ (if event_key ev == j then expected ev.type ev.object else row_of j arr))
  unfolding on_event
  on_event-patch ev arr rows h ok e = patch_by_lem ev.type ev.object (event_key ev) arr rows h ok e

  -- An upsert keeps the keys and their order, and puts a new key at the end.
  keys-upserted :
      (k : String) (v : Row) (rows : List Row)
      → key_of v ≡ k
      → map key_of (upserted k v rows)
        ≡ (if is_some (row_of k rows) then map key_of rows else map key_of rows ++ k ∷ [])
  keys-upserted k v [] e = rw (upserted-nil k v) (rw e)
  keys-upserted k v (r ∷ rows) e =
      rw upserted-cons (ground (arith, keys-upserted k v rows e, eq_iff (key_of r) k))

  -- An event that modifies a row keeps its place: the keys of the list are the same, in order, or
  -- have the event's key added at the end if it was not there. The object has the event's key.
  pub on_event_in_place :
      (ev : WatchEvent Row) (v : Row) (arr : List Row)
      → ev.type ≡ modified
      → ev.object ≡ some v
      → key_of v ≡ event_key ev
      → (rows : List Row) × (on_event key_of ev arr ≡ patch rows)
        × (map key_of rows ≡ (
            if is_some (row_of (event_key ev) arr)
            then map key_of arr
            else map key_of arr ++ event_key ev ∷ []))
  unfolding on_event patch_by
  on_event_in_place ev v arr t o k =
      (upserted (event_key ev) v arr, ground arith, keys-upserted (event_key ev) v arr k)

-- `n` change signals.
abbrev pub signals : ℕ → Coalesce → Coalesce
signals zero c = c
signals (suc n) c = signals n (coalesced_refresh c)

coalesced_pending :
    (c : Coalesce)
    → ((coalesced_refresh c).pending ≡ true) × ((coalesced_refresh c).refreshes ≡ c.refreshes)
unfolding coalesced_refresh
coalesced_pending c = ground arith

signals_pending :
    (n : ℕ) (c : Coalesce)
    → c.pending ≡ true
    → ((signals n c).pending ≡ true) × ((signals n c).refreshes ≡ c.refreshes)
signals_pending zero c h = (h, refl)
signals_pending (suc n) c h =
    let (p, r) = coalesced_pending c in
    let (q, e) = signals_pending n (coalesced_refresh c) p in (q, e ∙ r)

-- A burst of change signals, however many, makes one refetch when the timer fires, and the next
-- burst makes the next.
pub timer_fires-signals :
    (n : ℕ) (c : Coalesce)
    → ((timer_fires (signals (suc n) c)).refreshes ≡ c.refreshes + 1)
      × ((timer_fires (signals (suc n) c)).pending ≡ false)
unfolding timer_fires
timer_fires-signals n c =
    let (p, r) = coalesced_pending c in
    ground (arith, p, r, signals_pending n (coalesced_refresh c) p)
