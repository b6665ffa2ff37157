-- ===== src/Drift/Prune.antt =====
-- What is left of a live object after it is pruned to the declared configuration.
use skyvirt_kubeui.Prelude.{
  String, ◌≡◌, refl, sym, ap, ◌∙◌, true, false, inl, inr, Bool-cases, List, [], ◌∷◌, if◌then◌else◌,
  arith, eq_iff,
}
use skyvirt_kubeui.Json.{Json, undefined, arr, obj, Fields, end, entry, field, has, is_object}
use skyvirt_kubeui.Overlay.{get_at_path}
use skyvirt_kubeui.Overlay.Paths.{get-undefined, get-not_object}
use skyvirt_kubeui.Drift.{prune_to_shape, prune_fields, is_structure, or_null}

module _ {N : Type 0} where
  -- An object on the way of the path lacks the next key: the configuration does not declare it.
  abbrev pub IsUndeclared : Json N → List String → Type 0
  IsUndeclared (obj fs) (k ∷ p) = if has k fs then IsUndeclared (field k fs) p else Unit
  IsUndeclared v p = ⊥

  -- The configuration declares the path, through objects.
  abbrev pub IsDeclared : Json N → List String → Type 0
  IsDeclared v [] = Unit
  IsDeclared (obj fs) (k ∷ p) = (has k fs ≡ true) × IsDeclared (field k fs) p
  IsDeclared v (k ∷ p) = ⊥

  field-prune_fields :
      (k : String) (live shape : Fields N)
      → field k (prune_fields live shape)
        ≡ (if has k shape then prune_to_shape (field k live) (field k shape) else undefined)
  unfolding prune_fields field has
  field-prune_fields k live end = refl
  field-prune_fields k live (entry j v fs) =
      ground (arith, field-prune_fields k live fs, eq_iff j k)

  get-or_null :
      (v : Json N) (seg : String) (p : List String)
      → get_at_path (or_null v) (seg ∷ p) ≡ get_at_path v (seg ∷ p)
  unfolding get_at_path
  get-or_null undefined seg p = refl
  get-or_null v seg p = refl

  get-prune_step :
      (k : String) (p : List String) (live shape : Fields N)
      → has k shape ≡ true
      → get_at_path (prune_to_shape (obj live) (obj shape)) (k ∷ p)
        ≡ get_at_path (prune_to_shape (field k live) (field k shape)) p
  unfolding get_at_path prune_to_shape
  get-prune_step k p live shape h =
      ap (λ j. get_at_path j p) (rw (field-prune_fields k live shape, h))

  prune_missing :
      (k : String) (p : List String) (live shape : Fields N)
      → has k shape ≡ false
      → get_at_path (prune_to_shape (obj live) (obj shape)) (k ∷ p) ≡ undefined
  unfolding get_at_path prune_to_shape
  prune_missing k p live shape h =
      ap (λ j. get_at_path j p) (rw (field-prune_fields k live shape, h)) ∙ get-undefined p

  prune-not_object :
      (live : Json N) (shape : Fields N) (k : String) (p : List String)
      → is_object live ≡ false
      → get_at_path (prune_to_shape live (obj shape)) (k ∷ p) ≡ undefined
  unfolding get_at_path prune_to_shape
  prune-not_object (obj fs) shape k p h = cc
  prune-not_object live shape k p h = refl

  prune-scalar :
      (live shape : Json N) → is_structure shape ≡ false → prune_to_shape live shape ≡ live
  unfolding prune_to_shape
  prune-scalar live (arr xs) h = cc
  prune-scalar live (obj fs) h = cc
  prune-scalar live shape h = refl

  -- Where the configuration declares a value that is neither an object nor an array, through
  -- objects, the pruned object holds there what the live object holds, be it missing.
  pub get-prune_to_shape :
      (live shape : Json N) (p : List String)
      → IsDeclared shape p
      → is_structure (get_at_path shape p) ≡ false
      → get_at_path (prune_to_shape live shape) p ≡ get_at_path live p
  unfolding get_at_path
  get-prune_to_shape live shape [] d s = prune-scalar live shape s
  get-prune_to_shape (obj live) (obj shape) (k ∷ p) (there, d) s =
      get-prune_step k p live shape there ∙ get-prune_to_shape (field k live) (field k shape) p d s
  get-prune_to_shape live (obj shape) (k ∷ p) d s =
      prune-not_object live shape k p refl ∙ sym (get-not_object live k p refl)
  get-prune_to_shape live shape (k ∷ p) d s = absurd d

  -- The pruned object holds nothing at a path that the configuration does not declare, whatever
  -- the live object holds there.
  pub get-prune_to_shape_undeclared :
      (live shape : Json N) (p : List String)
      → IsUndeclared shape p
      → get_at_path (prune_to_shape live shape) p ≡ undefined
  get-prune_to_shape_undeclared (obj live) (obj shape) (k ∷ p) u = elim (Bool-cases (has k shape)) [
    | inl there ↦
        get-prune_step k p live shape there
        ∙ get-prune_to_shape_undeclared (field k live) (field k shape) p (rw there at u)
    | inr missing ↦ prune_missing k p live shape missing
  ]
  get-prune_to_shape_undeclared live (obj shape) (k ∷ p) u = prune-not_object live shape k p refl
  get-prune_to_shape_undeclared live shape p u = absurd u
