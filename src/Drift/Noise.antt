-- ===== src/Drift/Noise.antt =====
-- What the removal of noise removes.
use skyvirt_kubeui.Prelude.{String, ◌≡◌, refl, sym, ap, ◌∙◌, false, List, [], ◌∷◌, ◌==◌, eq_refl}
use skyvirt_kubeui.Json.{Json, undefined, obj, Fields, field, remove}
use skyvirt_kubeui.Json.Laws.{field-put, field-put_self, field-remove}
use skyvirt_kubeui.Overlay.{get_at_path}
use skyvirt_kubeui.Overlay.Paths.{get-not_object, Diverges, here, below}
use skyvirt_kubeui.Drift.{strip_noise, edit_in, edit_value, last_applied_key}

-- The two paths of the noise.
abbrev pub created : List String
created = "metadata" ∷ "creationTimestamp" ∷ []

abbrev pub applied : List String
applied = "metadata" ∷ "annotations" ∷ last_applied_key ∷ []

module _ {N : Type 0} where
  get-edit_value :
      (k : String) (f : Fields N → Fields N) (v : Json N) (fs : Fields N) (seg : String)
      (q : List String)
      → field k fs ≡ v
      → ((inner : Fields N) → get_at_path (obj (f inner)) (seg ∷ q) ≡ undefined)
      → get_at_path (field k (edit_value k f v fs)) (seg ∷ q) ≡ undefined
  get-edit_value k f (obj inner) fs seg q e h =
      ap (λ j. get_at_path j (seg ∷ q)) (field-put_self k (obj (f inner)) fs) ∙ h inner
  get-edit_value k f v fs seg q e h =
      ap (λ j. get_at_path j (seg ∷ q)) e ∙ get-not_object v seg q refl

  -- What the edit removes from every inner object is gone.
  get-edit_in :
      (k : String) (f : Fields N → Fields N) (fs : Fields N) (seg : String) (q : List String)
      → ((inner : Fields N) → get_at_path (obj (f inner)) (seg ∷ q) ≡ undefined)
      → get_at_path (obj (edit_in k f fs)) (k ∷ seg ∷ q) ≡ undefined
  unfolding edit_in get_at_path
  get-edit_in k f fs seg q h = get-edit_value k f (field k fs) fs seg q refl h

  keep-edit_value :
      (k : String) (f : Fields N → Fields N) (v : Json N) (fs : Fields N) (seg : String)
      (q : List String)
      → field k fs ≡ v
      → ((inner : Fields N)
          → get_at_path (obj (f inner)) (seg ∷ q) ≡ get_at_path (obj inner) (seg ∷ q))
      → get_at_path (field k (edit_value k f v fs)) (seg ∷ q) ≡ get_at_path (field k fs) (seg ∷ q)
  keep-edit_value k f (obj inner) fs seg q e h =
      ap (λ j. get_at_path j (seg ∷ q)) (field-put_self k (obj (f inner)) fs)
      ∙ h inner
      ∙ ap (λ j. get_at_path j (seg ∷ q)) (sym e)
  keep-edit_value k f v fs seg q e h = refl

  field-edit_value_ne :
      (k j : String) (f : Fields N → Fields N) (v : Json N) (fs : Fields N)
      → (k == j) ≡ false
      → field j (edit_value k f v fs) ≡ field j fs
  field-edit_value_ne k j f (obj inner) fs e = rw (field-put, e)
  field-edit_value_ne k j f v fs e = refl

  -- What the edit leaves as it is in every inner object stays, and so do the other keys.
  keep-edit_in :
      (k : String) (f : Fields N → Fields N) (fs : Fields N) (seg : String) (q : List String)
      → ((inner : Fields N)
          → get_at_path (obj (f inner)) (seg ∷ q) ≡ get_at_path (obj inner) (seg ∷ q))
      → get_at_path (obj (edit_in k f fs)) (k ∷ seg ∷ q) ≡ get_at_path (obj fs) (k ∷ seg ∷ q)
  unfolding edit_in get_at_path
  keep-edit_in k f fs seg q h = keep-edit_value k f (field k fs) fs seg q refl h

  keep-edit_in_ne :
      (k j : String) (f : Fields N → Fields N) (fs : Fields N) (q : List String)
      → (k == j) ≡ false
      → get_at_path (obj (edit_in k f fs)) (j ∷ q) ≡ get_at_path (obj fs) (j ∷ q)
  unfolding edit_in get_at_path
  keep-edit_in_ne k j f fs q e =
      ap (λ v. get_at_path v q) (field-edit_value_ne k j f (field k fs) fs e)

  get-remove_self :
      (k : String) (fs : Fields N) → get_at_path (obj (remove k fs)) (k ∷ []) ≡ undefined
  unfolding get_at_path
  get-remove_self k fs = rw (field-remove, eq_refl)

  get-remove_ne :
      (k j : String) (fs : Fields N) (q : List String)
      → (k == j) ≡ false
      → get_at_path (obj (remove k fs)) (j ∷ q) ≡ get_at_path (obj fs) (j ∷ q)
  unfolding get_at_path
  get-remove_ne k j fs q e = ap (λ v. get_at_path v q) (rw (field-remove, e))

module _ {N : Type 0} (clone : Fields N → Fields N) where
  get-strip_created : (o : Fields N) → get_at_path (obj (strip_noise clone o)) created ≡ undefined
  unfolding strip_noise
  get-strip_created o = get-edit_in "metadata" _ (clone o) "creationTimestamp" [] (λ meta.
      keep-edit_in_ne "annotations" "creationTimestamp" _ (remove "creationTimestamp" meta) [] refl
      ∙ get-remove_self "creationTimestamp" meta)

  get-strip_applied : (o : Fields N) → get_at_path (obj (strip_noise clone o)) applied ≡ undefined
  unfolding strip_noise
  get-strip_applied o =
      get-edit_in "metadata" _ (clone o) "annotations" (last_applied_key ∷ []) (λ meta.
        get-edit_in "annotations" (remove last_applied_key) (remove "creationTimestamp" meta)
          last_applied_key [] (λ ann. get-remove_self last_applied_key ann))

  get-strip_kept :
      (o : Fields N) (q : List String)
      → Diverges created q
      → Diverges applied q
      → get_at_path (obj (strip_noise clone o)) q ≡ get_at_path (obj (clone o)) q
  unfolding strip_noise
  get-strip_kept o (y ∷ q) (here e) a = keep-edit_in_ne "metadata" y _ (clone o) q e
  get-strip_kept o (y ∷ q) (below c) (here e) = keep-edit_in_ne "metadata" y _ (clone o) q e
  get-strip_kept o (_ ∷ z ∷ q) (below (here e)) (below (here n)) =
      keep-edit_in "metadata" _ (clone o) z q (λ meta.
        keep-edit_in_ne "annotations" z _ (remove "creationTimestamp" meta) q n
        ∙ get-remove_ne "creationTimestamp" z meta q e)
  get-strip_kept o (_ ∷ _ ∷ z ∷ q) (below (here e)) (below (below (here n))) =
      keep-edit_in "metadata" _ (clone o) "annotations" (z ∷ q) (λ meta.
        keep-edit_in "annotations" (remove last_applied_key) (remove "creationTimestamp" meta) z q
          (λ ann. get-remove_ne last_applied_key z ann q n)
        ∙ get-remove_ne "creationTimestamp" "annotations" meta (z ∷ q) e)
  get-strip_kept o (_ ∷ _) (below {q = _ ∷ _} (here {q = []} e)) (below (below x)) = elim x [ ]
  get-strip_kept o (_ ∷ _) (below {q = _ ∷ _} (here {q = _ ∷ q} e)) (below (below (below x))) =
      elim x [ ]
  get-strip_kept o q (below (below c)) a = elim c [ ]

  -- After the removal of noise, neither the creation time nor the last applied configuration is
  -- there, and every value on a path that parts from both is the one of the copied object.
  pub get-strip_noise :
      (o : Fields N)
      → (get_at_path (obj (strip_noise clone o)) created ≡ undefined)
        × (get_at_path (obj (strip_noise clone o)) applied ≡ undefined)
        × ((q : List String)
            → Diverges created q
            → Diverges applied q
            → get_at_path (obj (strip_noise clone o)) q ≡ get_at_path (obj (clone o)) q)
  get-strip_noise o = (get-strip_created o, get-strip_applied o, get-strip_kept o)
