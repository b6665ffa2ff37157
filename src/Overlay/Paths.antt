-- ===== src/Overlay/Paths.antt =====
-- Reads by path after a write or a deletion by path.
use skyvirt_kubeui.Prelude.{
  String, ◌≡◌, refl, ap, ◌∙◌, true, false, List, [], ◌∷◌, ◌==◌, eq_refl, arith,
}
use skyvirt_kubeui.Json.{
  Json, undefined, null, bool, num, str, arr, obj, Fields, end, field, has, is_empty, is_object,
  fields_of,
}
use skyvirt_kubeui.Json.Laws.{field-put, field-put_self, field-remove, field_missing, field-empty}
use skyvirt_kubeui.Overlay.{get_at_path, set_at_path, put_pruned, delete_at_path}

-- Neither path is a prefix of the other.
pub data Diverges : List String → List String → Type 0 where
  here : {x y : String} {p q : List String} → (x == y) ≡ false → Diverges (x ∷ p) (y ∷ q)
  below : {x : String} {p q : List String} → Diverges p q → Diverges (x ∷ p) (x ∷ q)

abbrev pub NonEmpty : List String → Type 0
NonEmpty [] = ⊥
NonEmpty (_ ∷ _) = Unit

module _ {N : Type 0} where
  pub get-undefined : (p : List String) → get_at_path {N = N} undefined p ≡ undefined
  unfolding get_at_path
  get-undefined [] = refl
  get-undefined (_ ∷ _) = refl

  pub get-fields_of :
      (v : Json N) (seg : String) (p : List String)
      → get_at_path (obj (fields_of v)) (seg ∷ p) ≡ get_at_path v (seg ∷ p)
  unfolding get_at_path field
  get-fields_of (obj fs) seg p = refl
  get-fields_of undefined seg p = get-undefined p
  get-fields_of null seg p = get-undefined p
  get-fields_of (bool b) seg p = get-undefined p
  get-fields_of (num n) seg p = get-undefined p
  get-fields_of (str s) seg p = get-undefined p
  get-fields_of (arr xs) seg p = get-undefined p

  -- A value written at a path that is not empty is read back there, whatever stood on the way.
  pub get-set_self :
      (fs : Fields N) (p : List String) (v : Json N)
      → NonEmpty p
      → get_at_path (obj (set_at_path fs p v)) p ≡ v
  unfolding get_at_path set_at_path
  get-set_self fs [] v ok = elim ok [ ]
  get-set_self fs (h ∷ []) v ok = rw (field-put, eq_refl)
  get-set_self fs (h ∷ seg ∷ rest) v ok =
      ap (λ j. get_at_path j (seg ∷ rest)) (field-put_self h _ fs)
      ∙ get-set_self (fields_of (field h fs)) (seg ∷ rest) v tt

  -- A write changes no value at a path that parts from the one written.
  pub get-set-Diverges :
      (fs : Fields N) (p q : List String) (v : Json N)
      → Diverges p q
      → get_at_path (obj (set_at_path fs p v)) q ≡ get_at_path (obj fs) q
  unfolding get_at_path set_at_path
  get-set-Diverges fs [] q v d = elim d [ ]
  get-set-Diverges fs (x ∷ []) q v (below d) = elim d [ ]
  get-set-Diverges fs (x ∷ seg ∷ p) (_ ∷ []) v (below d) = elim d [ ]
  get-set-Diverges fs (x ∷ []) q v (here e) = rw (field-put, e)
  get-set-Diverges fs (x ∷ seg ∷ p) q v (here e) = rw (field-put, e)
  get-set-Diverges fs (x ∷ seg ∷ p) (_ ∷ y ∷ q) v (below d) =
      ap (λ j. get_at_path j (y ∷ q)) (field-put_self x _ fs)
      ∙ get-set-Diverges (fields_of (field x fs)) (seg ∷ p) (y ∷ q) v d
      ∙ get-fields_of (field x fs) y q

  pub get-not_object :
      (v : Json N) (seg : String) (p : List String)
      → is_object v ≡ false
      → get_at_path v (seg ∷ p) ≡ undefined
  unfolding get_at_path
  get-not_object (obj fs) seg p h = cc
  get-not_object v seg p h = refl

  get-empty :
      (fs : Fields N) (seg : String) (p : List String)
      → is_empty fs ≡ true
      → get_at_path (obj fs) (seg ∷ p) ≡ undefined
  unfolding get_at_path
  get-empty fs seg p h = rw (field-empty seg fs h) (get-undefined p)

  -- Below a container that was pruned, a read finds what the pruned container holds.
  get-put_pruned :
      (k seg : String) (q : List String) (pruned fs : Fields N)
      → get_at_path (field k (put_pruned k pruned fs)) (seg ∷ q)
        ≡ get_at_path (obj pruned) (seg ∷ q)
  unfolding put_pruned
  get-put_pruned k seg q pruned fs = ground (
    arith,
    field-put_self k (obj pruned) fs,
    field-remove k k fs,
    eq_refl k,
    get-undefined (seg ∷ q),
    get-empty pruned seg q,
  )

  field-put_pruned_ne :
      (k j : String) (pruned fs : Fields N)
      → (k == j) ≡ false
      → field j (put_pruned k pruned fs) ≡ field j fs
  unfolding put_pruned
  field-put_pruned_ne k j pruned fs e =
      ground (arith, field-put k j (obj pruned) fs, field-remove k j fs)

  delete-end : (p : List String) → delete_at_path {N = N} end p ≡ end
  unfolding delete_at_path has
  delete-end [] = refl
  delete-end (h ∷ []) = refl
  delete-end (h ∷ seg ∷ p) = refl

  fields_of_not_object : (v : Json N) → is_object v ≡ false → fields_of v ≡ end
  fields_of_not_object (obj fs) h = cc
  fields_of_not_object v h = refl

  -- A read below `h` sees the deletion below `h`, whether the container stays, is pruned or was
  -- never there.
  get-delete_below :
      (fs : Fields N) (h seg y : String) (rest q : List String)
      → get_at_path (field h (delete_at_path fs (h ∷ seg ∷ rest))) (y ∷ q)
        ≡ get_at_path (obj (delete_at_path (fields_of (field h fs)) (seg ∷ rest))) (y ∷ q)
  unfolding delete_at_path
  get-delete_below fs h seg y rest q = ground (
    arith,
    get-put_pruned h y q (delete_at_path (fields_of (field h fs)) (seg ∷ rest)) fs,
    get-not_object (field h fs) y q,
    field_missing h fs,
    delete-end (seg ∷ rest),
    get-empty end y q,
    fields_of_not_object (field h fs),
  )

  field-delete_ne :
      (fs : Fields N) (h y : String) (p : List String)
      → (h == y) ≡ false
      → field y (delete_at_path fs (h ∷ p)) ≡ field y fs
  unfolding delete_at_path
  field-delete_ne fs h y [] e = ground (arith, field-remove h y fs)
  field-delete_ne fs h y (seg ∷ p) e =
      ground (arith, field-put_pruned_ne h y (delete_at_path (fields_of (field h fs)) (seg ∷ p)) fs)

  -- The deletion of a path that is not empty leaves nothing to read there.
  pub get-delete_self :
      (fs : Fields N) (p : List String)
      → NonEmpty p
      → get_at_path (obj (delete_at_path fs p)) p ≡ undefined
  unfolding get_at_path
  get-delete_self fs [] ok = elim ok [ ]
  get-delete_self fs (h ∷ []) ok =
      unfold delete_at_path in ground (arith, field-remove h h fs, eq_refl h, field_missing h fs)
  get-delete_self fs (h ∷ seg ∷ rest) ok =
      get-delete_below fs h seg seg rest rest
      ∙ get-delete_self (fields_of (field h fs)) (seg ∷ rest) tt

  -- A deletion, with the containers that it prunes, changes no value at a path that parts from the
  -- one deleted.
  pub get-delete-Diverges :
      (fs : Fields N) (p q : List String)
      → Diverges p q
      → get_at_path (obj (delete_at_path fs p)) q ≡ get_at_path (obj fs) q
  unfolding get_at_path
  get-delete-Diverges fs [] q d = elim d [ ]
  get-delete-Diverges fs (x ∷ []) q (below d) = elim d [ ]
  get-delete-Diverges fs (x ∷ seg ∷ p) (_ ∷ []) (below d) = elim d [ ]
  get-delete-Diverges fs (x ∷ p) (y ∷ q) (here e) =
      ap (λ j. get_at_path j q) (field-delete_ne fs x y p e)
  get-delete-Diverges fs (x ∷ seg ∷ p) (_ ∷ y ∷ q) (below d) =
      get-delete_below fs x seg y p q
      ∙ get-delete-Diverges (fields_of (field x fs)) (seg ∷ p) (y ∷ q) d
      ∙ get-fields_of (field x fs) y q
