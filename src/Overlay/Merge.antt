-- ===== src/Overlay/Merge.antt =====
-- The merge of the overlay over the chart's values, as the install preview shows it.
use skyvirt_kubeui.Prelude.{
  String, ◌≡◌, refl, sym, ap, ◌∙◌, true, false, ◌&&◌, inl, inr, Bool-cases, List, [], ◌∷◌,
  if◌then◌else◌, ◌==◌, eq_iff, arith,
}
use skyvirt_kubeui.Json.{
  Json, undefined, obj, Fields, end, entry, field, has, put, Distinct, is_object,
}
use skyvirt_kubeui.Json.Laws.{field-put, field_missing}
use skyvirt_kubeui.Overlay.Paths.{get-undefined, get-not_object}
use skyvirt_kubeui.Overlay.{get_at_path, deep_merge, merge_into}

module _ {N : Type 0} where
  -- The value of a key after the merge of one entry.
  deep_merge-undefined : (v : Json N) → deep_merge undefined v ≡ v
  unfolding deep_merge
  deep_merge-undefined (obj fs) = refl
  deep_merge-undefined v = refl

  merge_entry :
      (k : String) (v : Json N) (out : Fields N)
      → (if has k out then deep_merge (field k out) v else v) ≡ deep_merge (field k out) v
  merge_entry k v out = ground (arith, field_missing k out, deep_merge-undefined v)

  has-Fresh_ne :
      (k j : String) (fs : Fields N) → has k fs ≡ true → has j fs ≡ false → (j == k) ≡ false
  has-Fresh_ne k j fs h f = ground (arith, eq_iff j k)

  -- A key of the merge holds the overlay's value merged over the chart's, if the overlay has the
  -- key, and the chart's value if not.
  field-merge_into :
      (k : String) (out os : Fields N)
      → Distinct os
      → field k (merge_into out os)
        ≡ (if has k os then deep_merge (field k out) (field k os) else field k out)
  unfolding merge_into has field
  field-merge_into k out end d = refl
  field-merge_into k out (entry j v fs) (fresh, d) = ground (
    arith,
    field-merge_into k (put j (if has j out then deep_merge (field j out) v else v) out) fs d,
    field-put j k (if has j out then deep_merge (field j out) v else v) out,
    eq_iff j k,
    merge_entry j v out,
  )

  -- The overlay holds the path.
  abbrev pub IsPresent : Json N → List String → Type 0
  IsPresent v [] = Unit
  IsPresent (obj fs) (k ∷ p) = (has k fs ≡ true) × Distinct fs × IsPresent (field k fs) p
  IsPresent v (k ∷ p) = ⊥

  get-cons :
      (k : String) (p : List String) (fs : Fields N)
      → get_at_path (field k fs) p ≡ get_at_path (obj fs) (k ∷ p)
  unfolding get_at_path
  get-cons k p fs = refl

  get-merge_step :
      (k : String) (p : List String) (bs os : Fields N)
      → Distinct os
      → has k os ≡ true
      → get_at_path (deep_merge (obj bs) (obj os)) (k ∷ p)
        ≡ get_at_path (deep_merge (field k bs) (field k os)) p
  unfolding get_at_path deep_merge
  get-merge_step k p bs os d there =
      ap (λ j. get_at_path j p) (rw (field-merge_into k bs os d, there))

  -- What the merge holds at a path that the overlay holds: the overlay's value there, merged over
  -- the chart's.
  get-deep_merge_lem :
      (base overlay : Json N) (p : List String)
      → IsPresent overlay p
      → get_at_path (deep_merge base overlay) p
        ≡ deep_merge (get_at_path base p) (get_at_path overlay p)
  unfolding get_at_path
  get-deep_merge_lem base overlay [] h = refl
  get-deep_merge_lem (obj bs) (obj os) (k ∷ p) (there, d, h) =
      get-merge_step k p bs os d there ∙ get-deep_merge_lem (field k bs) (field k os) p h
  get-deep_merge_lem base (obj os) (k ∷ p) h =
      unfold deep_merge in sym (deep_merge-undefined (get_at_path (obj os) (k ∷ p)))
  get-deep_merge_lem base overlay (k ∷ p) h = absurd h

  -- The overlay does not say anything at the path: an object on the way lacks the next key.
  abbrev pub IsAbsent : Json N → List String → Type 0
  IsAbsent (obj fs) (k ∷ p) = Distinct fs × (if has k fs then IsAbsent (field k fs) p else Unit)
  IsAbsent v p = ⊥

  get-merge_kept :
      (k : String) (p : List String) (bs os : Fields N)
      → Distinct os
      → has k os ≡ false
      → get_at_path (deep_merge (obj bs) (obj os)) (k ∷ p) ≡ get_at_path (obj bs) (k ∷ p)
  unfolding get_at_path deep_merge
  get-merge_kept k p bs os d missing =
      ap (λ j. get_at_path j p) (rw (field-merge_into k bs os d, missing))

  get_absent : (v : Json N) (p : List String) → IsAbsent v p → get_at_path v p ≡ undefined
  unfolding get_at_path
  get_absent (obj fs) (k ∷ p) (d, h) = elim (Bool-cases (has k fs)) [
    | inl there ↦ get_absent (field k fs) p (rw there at h)
    | inr missing ↦ ap (λ j. get_at_path j p) (field_missing k fs missing) ∙ get-undefined p
  ]
  get_absent (obj fs) [] h = absurd h
  get_absent v p h = absurd h

  -- At a path of which the overlay says nothing the merge holds what the chart holds.
  get-deep_merge_absent :
      (base overlay : Json N) (p : List String)
      → IsAbsent overlay p
      → get_at_path (deep_merge base overlay) p ≡ get_at_path base p
  get-deep_merge_absent (obj bs) (obj os) (k ∷ p) (d, h) = elim (Bool-cases (has k os)) [
    | inl there ↦
        get-merge_step k p bs os d there
        ∙ get-deep_merge_absent (field k bs) (field k os) p (rw there at h)
        ∙ get-cons k p bs
    | inr missing ↦ get-merge_kept k p bs os d missing
  ]
  get-deep_merge_absent base (obj os) (k ∷ p) h =
      unfold deep_merge in (get_absent (obj os) (k ∷ p) h ∙ sym (get-not_object base k p refl))
  get-deep_merge_absent base (obj os) [] h = absurd h
  get-deep_merge_absent base overlay p h = absurd h

  -- What the preview has to show at a path: the overlay's value where the overlay has one and the
  -- two values are not both objects, and the chart's value where the overlay does not say anything.
  pub data Shows (base overlay : Json N) (p : List String) : Json N → Type 0 where
    wins :
        IsPresent overlay p
        → (is_object (get_at_path base p) && is_object (get_at_path overlay p)) ≡ false
        → Shows base overlay p (get_at_path overlay p)
    kept : IsAbsent overlay p → Shows base overlay p (get_at_path base p)

  deep_merge-right : (b o : Json N) → (is_object b && is_object o) ≡ false → deep_merge b o ≡ o
  unfolding deep_merge
  deep_merge-right (obj bs) (obj os) h = absurd (cc)
  deep_merge-right (obj bs) o h = refl
  deep_merge-right b o h = refl

  -- If the objects of the overlay on the way of a path hold each key once, the merge holds at the
  -- path the overlay's value where the overlay has one and it and the chart's value are not both
  -- objects, and the chart's value where the overlay does not say anything.
  pub get-deep_merge :
      (base overlay : Json N) (p : List String) (v : Json N)
      → Shows base overlay p v
      → get_at_path (deep_merge base overlay) p ≡ v
  get-deep_merge base overlay p v (wins present simple) =
      get-deep_merge_lem base overlay p present
      ∙ deep_merge-right (get_at_path base p) (get_at_path overlay p) simple
  get-deep_merge base overlay p v (kept absent) = get-deep_merge_absent base overlay p absent
