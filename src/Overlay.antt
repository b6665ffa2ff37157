-- ===== src/Overlay.antt =====
-- The sparse overlay of the Helm values form: the reads, writes and merge of
-- web/src/lib/schemaForm.ts. The form never edits the chart's own values.
pub mod Paths
pub mod Tidy
pub mod Merge
mod Tests
use skyvirt_kubeui.Prelude.{String, Bool, true, false, List, [], ◌∷◌, if◌then◌else◌, ◌==◌}
use skyvirt_kubeui.Json.{
  Json, undefined, null, bool, num, str, arr, obj, Fields, end, entry, field, has, put, remove,
  is_empty, is_object, fields_of,
}

module _ {N : Type 0} where
  unfoldable pub get_at_path : Json N → List String → Json N
  get_at_path cur [] = cur
  get_at_path (obj fs) (seg ∷ path) = get_at_path (field seg fs) path
  get_at_path _ (seg ∷ path) = undefined

  pub set_at_path : Fields N → List String → Json N → Fields N
  set_at_path fs [] value = fs
  set_at_path fs (head ∷ []) value = put head value fs
  set_at_path fs (head ∷ seg ∷ rest) value =
      put head (obj (set_at_path (fields_of (field head fs)) (seg ∷ rest) value)) fs

  -- What `deleteAtPath` does with a container `pruned` below `head`.
  pub put_pruned : String → Fields N → Fields N → Fields N
  put_pruned head pruned fs = if is_empty pruned then remove head fs else put head (obj pruned) fs

  pub delete_at_path : Fields N → List String → Fields N
  unfolding put_pruned
  delete_at_path fs [] = fs
  delete_at_path fs (head ∷ []) = if has head fs then remove head fs else fs
  delete_at_path fs (head ∷ seg ∷ rest) =
      if has head fs
      then (if is_object (field head fs)
          then put_pruned head (delete_at_path (fields_of (field head fs)) (seg ∷ rest)) fs
          else fs)
      else fs

  unfoldable mutual
    pub deep_merge : Json N → Json N → Json N
    deep_merge (obj base) (obj overlay) = obj (merge_into base overlay)
    deep_merge _ overlay = overlay

    -- The loop over `Object.entries(overlay)`.
    pub merge_into : Fields N → Fields N → Fields N
    merge_into out end = out
    merge_into out (entry k v fs) =
        merge_into (put k (if has k out then deep_merge (field k out) v else v) out) fs
