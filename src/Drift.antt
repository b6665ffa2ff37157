-- ===== src/Drift.antt =====
-- Drift between a live object and the configuration last applied to it, web/src/lib/drift.ts.
pub mod Prune
pub mod Noise
mod Tests
use skyvirt_kubeui.Prelude.{String, Bool, true, false, Option, none, some, if◌then◌else◌, ◌==◌}
use skyvirt_kubeui.Json.{
  Json, undefined, null, bool, num, str, arr, obj, Items, nil, cons, Fields, end, entry, field, put,
  remove,
}

module _ {N : Type 0} where
  -- `x && typeof x === "object"`, an array included
  abbrev pub is_structure : Json N → Bool
  is_structure (arr xs) = true
  is_structure (obj fs) = true
  is_structure _ = false

  -- `v ?? null`
  abbrev pub or_null : Json N → Json N
  or_null undefined = null
  or_null v = v

  abbrev pub map_items : (Json N → Json N) → Items N → Items N
  map_items f nil = nil
  map_items f (cons x xs) = cons (f x) (map_items f xs)

unfoldable mutual
  pub prune_to_shape : {N : Type 0} → Json N → Json N → Json N
  prune_to_shape live (arr shape) = elim live [
    | arr xs ↦ arr (prune_items xs shape)
    | other ↦ other
  ]
  prune_to_shape live (obj shape) = elim live [
    | obj fs ↦ obj (prune_fields fs shape)
    | other ↦ or_null other
  ]
  prune_to_shape live shape = live

  -- The declared items up to the template, the first one that is an object or an array.
  pub prune_items : {N : Type 0} → Items N → Items N → Items N
  prune_items live nil = live
  prune_items live (cons (obj fs) xs) =
      map_items (λ el. if is_structure el then prune_to_shape el (obj fs) else el) live
  prune_items live (cons (arr ys) xs) =
      map_items (λ el. if is_structure el then prune_to_shape el (arr ys) else el) live
  prune_items live (cons x xs) = prune_items live xs

  -- The loop over the keys of the shape, each of which stands there once.
  pub prune_fields : {N : Type 0} → Fields N → Fields N → Fields N
  prune_fields live end = end
  prune_fields live (entry k v fs) =
      entry k (prune_to_shape (field k live) v) (prune_fields live fs)

abbrev pub last_applied_key : String
last_applied_key = "kubectl.kubernetes.io/last-applied-configuration"

-- `const inner = o[k]; if (inner) { ... }`, where the block changes the object `inner` in place; on
-- what is no object the blocks below change nothing.
module _ {N : Type 0} where
  abbrev pub edit_value : String → (Fields N → Fields N) → Json N → Fields N → Fields N
  edit_value k f (obj inner) fs = put k (obj (f inner)) fs
  edit_value k f _ fs = fs

  unfoldable pub edit_in : String → (Fields N → Fields N) → Fields N → Fields N
  edit_in k f fs = edit_value k f (field k fs) fs

-- `JSON.parse` is a parameter, with `none` for what it throws on. The annotations of an object of
-- the cluster are texts.
module _ {N : Type 0} (parse : String → Option (Json N)) where
  -- `o?.[k]`
  abbrev pub member : String → Json N → Json N
  member k (obj fs) = field k fs
  member k _ = undefined

  unfoldable pub last_applied : Fields N → Option (Json N)
  last_applied live =
      let raw = member last_applied_key (member "annotations" (field "metadata" live)) in
      elim raw [ str String.[] ↦ none | str s ↦ parse s | _ ↦ none ]

-- The copy `JSON.parse(JSON.stringify(o))` is a parameter.
module _ {N : Type 0} (clone : Fields N → Fields N) where
  unfoldable pub strip_noise : Fields N → Fields N
  unfolding edit_in
  strip_noise o =
      let strip_annotations = edit_in "annotations" (remove last_applied_key) in
      edit_in "metadata" (λ meta. strip_annotations (remove "creationTimestamp" meta)) (clone o)
