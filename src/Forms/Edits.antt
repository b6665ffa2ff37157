-- ===== src/Forms/Edits.antt =====
-- What the edits of web/src/components/CreateServiceModal.tsx and CreateIngressModal.tsx leave as
-- the live object has it.
use skyvirt_kubeui.Prelude.{
  String, ◌==◌, ◌≡◌, refl, ◌∙◌, Bool, true, false, List, ◌∷◌, inl, inr, Bool-cases,
}
use skyvirt_kubeui.Json.{Json, Fields, end, entry, field, has, put, remove, fields_of}
use skyvirt_kubeui.Json.Laws.{has-put, field-put, field-remove}
use skyvirt_kubeui.Forms.{Numerals, put_if}
use skyvirt_kubeui.Forms.Service.{pool_key, ips_key, assign}

-- The paths of a Service that its form has no input for.
pub data Unmanaged : List String → Type 0 where
  beside :
      {k : String} {path : List String}
      → ("spec" == k) ≡ false
      → ("metadata" == k) ≡ false
      → Unmanaged (k ∷ path)
  in_spec :
      {k : String} {path : List String}
      → ("type" == k) ≡ false
      → ("selector" == k) ≡ false
      → ("ports" == k) ≡ false
      → Unmanaged ("spec" ∷ k ∷ path)
  in_metadata :
      {k : String} {path : List String}
      → ("annotations" == k) ≡ false
      → Unmanaged ("metadata" ∷ k ∷ path)
  annotation :
      {k : String} {path : List String}
      → (pool_key == k) ≡ false
      → (ips_key == k) ≡ false
      → Unmanaged ("metadata" ∷ "annotations" ∷ k ∷ path)

module _ {N : Type 0} where
  pub field-put_other :
      (k j : String) (v : Json N) (fs : Fields N)
      → (k == j) ≡ false
      → field j (put k v fs) ≡ field j fs
  field-put_other k j v fs e = rw (field-put, e) refl

  pub field-remove_other :
      (k j : String) (fs : Fields N) → (k == j) ≡ false → field j (remove k fs) ≡ field j fs
  field-remove_other k j fs e = rw (field-remove, e) refl

  pub field-assign :
      (j : String) (a b : Fields N) → has j b ≡ false → field j (assign a b) ≡ field j a
  unfolding assign has
  field-assign j a end h = refl
  field-assign j a (entry k v b) h = elim (Bool-cases (k == j)) [
    | inl e ↦ absurd (cc)
    | inr e ↦
        let rest : has j b ≡ false = rw e at h in
        field-assign j (put k v a) b rest ∙ field-put_other k j v a e
  ]

  pub has-put_if :
      (cond : Bool) (k j : String) (v : Json N) (fs : Fields N)
      → (k == j) ≡ false
      → has j fs ≡ false
      → has j (put_if cond k v fs) ≡ false
  has-put_if true k j v fs e h = rw (has-put, e) h
  has-put_if false k j v fs e h = h

module _ {N : Type 0} (numerals : Numerals N) where
  abbrev annotations_of : Fields N → Fields N
  annotations_of original = fields_of (field "annotations" (fields_of (field "metadata" original)))
