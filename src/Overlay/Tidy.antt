-- ===== src/Overlay/Tidy.antt =====
-- The overlay keeps no empty containers, and clearing a field undoes setting it.
use skyvirt_kubeui.Prelude.{String, ◌≡◌, true, false, List, [], ◌∷◌, if◌then◌else◌, arith}
use skyvirt_kubeui.Json.{
  Json, obj, Fields, end, entry, field, has, put, remove, is_empty, is_object, fields_of,
}
use skyvirt_kubeui.Json.Laws.{is_empty-put}
use skyvirt_kubeui.Overlay.{set_at_path, put_pruned, delete_at_path}

unfoldable mutual
  pub IsTidy : {N : Type 0} → Fields N → Type 0
  IsTidy end = Unit
  IsTidy (entry k v fs) = IsTidyValue v × IsTidy fs

  -- An object below the overlay's root has a key.
  pub IsTidyValue : {N : Type 0} → Json N → Type 0
  IsTidyValue (obj fs) = (is_empty fs ≡ false) × IsTidy fs
  IsTidyValue _ = Unit

module _ {N : Type 0} where
  put-IsTidy :
      (k : String) (v : Json N) (fs : Fields N) → IsTidyValue v → IsTidy fs → IsTidy (put k v fs)
  unfolding IsTidy put
  put-IsTidy k v end t h = (t, tt)
  put-IsTidy k v (entry j w fs) t h = ground (arith, put-IsTidy k v fs t h.1)

  remove-IsTidy : (k : String) (fs : Fields N) → IsTidy fs → IsTidy (remove k fs)
  unfolding IsTidy remove
  remove-IsTidy k end h = h
  remove-IsTidy k (entry j v fs) h = ground (arith, remove-IsTidy k fs h.1)

  field-IsTidy : (k : String) (fs : Fields N) → IsTidy fs → IsTidyValue (field k fs)
  unfolding IsTidy field
  field-IsTidy k end h = tt
  field-IsTidy k (entry j v fs) h = ground (arith, field-IsTidy k fs h.1)

  fields_of-IsTidy : (v : Json N) → IsTidyValue v → IsTidy (fields_of v)
  unfolding IsTidy
  fields_of-IsTidy (obj fs) h = h.1
  fields_of-IsTidy v h = tt

  obj-IsTidy : (fs : Fields N) → is_empty fs ≡ false → IsTidy fs → IsTidyValue (obj fs)
  unfolding IsTidy
  obj-IsTidy fs e h = (e, h)

  is_empty-set :
      (fs : Fields N) (seg : String) (p : List String) (v : Json N)
      → is_empty (set_at_path fs (seg ∷ p) v) ≡ false
  unfolding set_at_path
  is_empty-set fs seg [] v = is_empty-put seg v fs
  is_empty-set fs seg (_ ∷ _) v = is_empty-put seg _ fs

  -- Setting a field to a value that is no empty container leaves the overlay without empty
  -- containers.
  pub set_at_path-IsTidy :
      (fs : Fields N) (p : List String) (v : Json N)
      → IsTidy fs
      → IsTidyValue v
      → IsTidy (set_at_path fs p v)
  unfolding set_at_path
  set_at_path-IsTidy fs [] v h t = h
  set_at_path-IsTidy fs (k ∷ []) v h t = put-IsTidy k v fs t h
  set_at_path-IsTidy fs (k ∷ seg ∷ p) v h t =
      put-IsTidy k _ fs
        (obj-IsTidy (set_at_path (fields_of (field k fs)) (seg ∷ p) v)
          (is_empty-set (fields_of (field k fs)) seg p v)
          (set_at_path-IsTidy (fields_of (field k fs)) (seg ∷ p) v
            (fields_of-IsTidy (field k fs) (field-IsTidy k fs h)) t))
        h

  put_pruned-IsTidy :
      (k : String) (pruned fs : Fields N)
      → IsTidy pruned
      → IsTidy fs
      → IsTidy (put_pruned k pruned fs)
  unfolding put_pruned IsTidy
  put_pruned-IsTidy k pruned fs t h =
      ground (arith, remove-IsTidy k fs, put-IsTidy k (obj pruned) fs)

  -- If no container below the root of the overlay is empty, then after a field has been cleared none
  -- is.
  pub delete_at_path-IsTidy :
      (fs : Fields N) (p : List String) → IsTidy fs → IsTidy (delete_at_path fs p)
  unfolding delete_at_path
  delete_at_path-IsTidy fs [] h = h
  delete_at_path-IsTidy fs (k ∷ []) h = ground (arith, remove-IsTidy k fs)
  delete_at_path-IsTidy fs (k ∷ seg ∷ p) h = ground (
    arith,
    put_pruned-IsTidy k (delete_at_path (fields_of (field k fs)) (seg ∷ p)) fs
        (delete_at_path-IsTidy (fields_of (field k fs)) (seg ∷ p)
          (fields_of-IsTidy (field k fs) (field-IsTidy k fs h)))
        h,
  )

  -- The overlay says nothing of the path: its first missing key lies in a container.
  abbrev pub IsUnset : Fields N → List String → Type 0
  IsUnset fs [] = ⊥
  IsUnset fs (k ∷ []) = has k fs ≡ false
  IsUnset fs (k ∷ seg ∷ p) =
      if has k fs
      then (is_object (field k fs) ≡ true)
        × (is_empty (fields_of (field k fs)) ≡ false)
        × IsUnset (fields_of (field k fs)) (seg ∷ p)
      else Unit
