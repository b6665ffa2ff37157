-- ===== src/Forms/Rules.antt =====
-- What the edit of web/src/components/CreateIngressModal.tsx leaves as the live object has it.
use skyvirt_kubeui.Prelude.{
  String, ◌==◌, ◌≡◌, refl, ap, ◌∙◌, Bool, true, false, List, [], ◌∷◌, map, if◌then◌else◌,
}
use skyvirt_kubeui.Prelude.Text.{trim, is_filled}
use skyvirt_kubeui.Json.{
  Json, str, arr, obj, Items, cons, Fields, end, field, has, put, remove, fields_of,
}
use skyvirt_kubeui.Json.Laws.{has-put, field-put_self}
use skyvirt_kubeui.Overlay.{get_at_path}
use skyvirt_kubeui.Overlay.Paths.{get-fields_of}
use skyvirt_kubeui.Forms.{Numerals, put_if, items}
use skyvirt_kubeui.Forms.Ingress.{
  IngressForm, tls_specs, has_items, lacks_items, ingress_spec, without_class, without_tls,
  edit_ingress, rule_spec,
}
use skyvirt_kubeui.Forms.Edits.{field-put_other, field-remove_other, field-assign, has-put_if}

-- The paths of an Ingress that its form has no input for.
pub data Unmanaged : List String → Type 0 where
  beside : {k : String} {path : List String} → ("spec" == k) ≡ false → Unmanaged (k ∷ path)
  in_spec :
      {k : String} {path : List String}
      → ("ingressClassName" == k) ≡ false
      → ("rules" == k) ≡ false
      → ("tls" == k) ≡ false
      → Unmanaged ("spec" ∷ k ∷ path)

module _ {N : Type 0} (numerals : Numerals N) where
  has-ingress_spec :
      (k : String) (f : IngressForm)
      → ("ingressClassName" == k) ≡ false
      → ("rules" == k) ≡ false
      → has k (
          put "rules" (arr (items (map (rule_spec numerals) f.rules))) (
            put_if
              (is_filled (trim f.ingress_class))
              "ingressClassName"
              (str (trim f.ingress_class))
              end))
        ≡ false
  unfolding has
  has-ingress_spec k f c r =
      rw (has-put, r)
        (has-put_if (is_filled (trim f.ingress_class)) "ingressClassName" k _ end c refl)

  field-without_class :
      (k : String) (f : IngressForm) (spec : Fields N)
      → ("ingressClassName" == k) ≡ false
      → field k (without_class numerals f spec) ≡ field k spec
  field-without_class k f spec c = pick (is_filled (trim f.ingress_class))
    where
      pick :
          (b : Bool) → field k (if b then spec else remove "ingressClassName" spec) ≡ field k spec
      pick true = refl
      pick false = field-remove_other "ingressClassName" k spec c

  field-without_tls :
      (k : String) (spec : Fields N)
      → ("tls" == k) ≡ false
      → field k (without_tls numerals spec) ≡ field k spec
  field-without_tls k spec t = pick (lacks_items (field "tls" spec))
    where
      pick : (b : Bool) → field k (if b then remove "tls" spec else spec) ≡ field k spec
      pick false = refl
      pick true = field-remove_other "tls" k spec t

  -- The edit of an Ingress changes only its class, rules and TLS: at any other path the merged
  -- object reads as the live one.
  pub get-edit_ingress :
      (f : IngressForm) (original : Fields N) (path : List String)
      → Unmanaged path
      → get_at_path (obj (edit_ingress numerals f original)) path ≡ get_at_path (obj original) path
  unfolding edit_ingress ingress_spec get_at_path
  get-edit_ingress f original [] u = elim u [ ]
  get-edit_ingress f original (k ∷ path) (beside s) =
      ap (λ v. get_at_path v path) (field-put_other "spec" k _ original s)
  get-edit_ingress f original (_ ∷ k ∷ path) (in_spec c r t) =
      ap (λ v. get_at_path v (k ∷ path)) (field-put_self "spec" _ original)
      ∙ ap (λ v. get_at_path v path)
          (field-without_tls k _ t
            ∙ field-without_class k f _ c
            ∙ field-assign k (fields_of (field "spec" original)) _
                (has-put_if (has_items (tls_specs f)) "tls" k _ _ t (has-ingress_spec k f c r)))
      ∙ get-fields_of (field "spec" original) k path

  has-tls_left_out :
      (f : IngressForm) → f.tls_entries ≡ [] → has "tls" (ingress_spec numerals f) ≡ false
  unfolding ingress_spec tls_specs
  has-tls_left_out f none_left = rw none_left (has-ingress_spec "tls" f refl refl)

  without_tls-kept :
      (spec : Fields N) (v : Json N) (vs : Items N)
      → field "tls" spec ≡ arr (cons v vs)
      → field "tls" (without_tls numerals spec) ≡ arr (cons v vs)
  without_tls-kept spec v vs e = rw (e, e) refl

  -- An edit that removes every TLS entry of the form leaves the live object's TLS as it is.
  pub edit_ingress-tls_kept :
      (f : IngressForm) (original : Fields N) (v : Json N) (vs : Items N)
      → f.tls_entries ≡ []
      → get_at_path (obj original) ("spec" ∷ "tls" ∷ []) ≡ arr (cons v vs)
      → get_at_path (obj (edit_ingress numerals f original)) ("spec" ∷ "tls" ∷ []) ≡ arr (cons v vs)
  unfolding edit_ingress get_at_path
  edit_ingress-tls_kept f original v vs none_left given =
      ap (λ w. get_at_path w ("tls" ∷ [])) (field-put_self "spec" _ original)
      ∙ without_tls-kept _ v vs (
          field-without_class "tls" f _ refl
          ∙ field-assign "tls" (fields_of (field "spec" original)) _ (has-tls_left_out f none_left)
          ∙ get-fields_of (field "spec" original) "tls" []
          ∙ given)
