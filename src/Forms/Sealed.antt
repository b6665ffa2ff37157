-- ===== src/Forms/Sealed.antt =====
-- What CreateHPAModal.tsx refuses to apply, and what CreateSecretModal.tsx writes of its inputs.
use skyvirt_kubeui.Prelude.{
  String, ◌==◌, ◌≡◌, refl, sym, ap, ◌∙◌, Bool, true, false, List, [], ◌∷◌, if◌then◌else◌,
}
use skyvirt_kubeui.Prelude.Text.{trim, is_filled}
use skyvirt_kubeui.Json.{Json, num, str, obj, Fields, end, entry, field, put}
use skyvirt_kubeui.Json.Laws.{field-put}
use skyvirt_kubeui.Overlay.{get_at_path}
use skyvirt_kubeui.Forms.{
  Numerals, HpaForm, Submission, refused, applied, submit_hpa, hpa_manifest, number_or, some_items,
  metrics, put_if, DataEntry, SecretForm, opaque_data, secret_data, docker_config,
}

module _ {N : Type 0} where
  abbrev manifest_of : Submission N → Fields N → Fields N
  manifest_of (refused _) d = d
  manifest_of (applied m) d = m

  field-put_if_other :
      (b : Bool) (k j : String) (v : Json N) (fs : Fields N)
      → (k == j) ≡ false
      → field j (put_if b k v fs) ≡ field j fs
  field-put_if_other true k j v fs e = rw (field-put, e) refl
  field-put_if_other false k j v fs e = refl

  applied-if :
      (b : Bool) (text : String) (m n : Fields N)
      → (if b then refused text else applied m) ≡ applied n
      → (b ≡ false) × (m ≡ n)
  applied-if true text m n h = absurd (cc)
  applied-if false text m n h = (refl, ap (λ s. manifest_of s m) h)

  -- An autoscaler that the form applies has bounds, the lower of which is not above the upper.
  pub submit_hpa-ordered :
      (numerals : Numerals N) (f : HpaForm) (m : Fields N)
      → submit_hpa numerals f ≡ applied m
      → (low : N) × (high : N) × (get_at_path (obj m) ("spec" ∷ "minReplicas" ∷ []) ≡ num low)
        × (get_at_path (obj m) ("spec" ∷ "maxReplicas" ∷ []) ≡ num high)
        × (numerals.less high low ≡ false)
  unfolding submit_hpa hpa_manifest get_at_path field
  submit_hpa-ordered numerals f m h =
      let (ordered, same) = applied-if _ _ _ _ h in
      (
        number_or numerals f.min_replicas 1,
        number_or numerals f.max_replicas 10,
        ap (λ n. get_at_path (obj n) ("spec" ∷ "minReplicas" ∷ [])) (sym same)
            ∙ field-put_if_other (some_items numerals (metrics numerals f)) "metrics" "minReplicas"
                _ _ refl,
        ap (λ n. get_at_path (obj n) ("spec" ∷ "maxReplicas" ∷ [])) (sym same)
            ∙ field-put_if_other (some_items numerals (metrics numerals f)) "metrics" "maxReplicas"
                _ _ refl,
        ordered,
      )

  -- An object of which every value is the base64 of a text.
  pub data Sealed (b64 : String → String) : Fields N → Type 0 where
    nothing : Sealed b64 end
    sealed : {fs : Fields N} (k s : String) → Sealed b64 fs → Sealed b64 (entry k (str (b64 s)) fs)

  placed-Sealed :
      (b64 : String → String) (b : Bool) (j s t : String) (fs rest : Fields N)
      → Sealed b64 fs
      → Sealed b64 rest
      → Sealed b64 (if b then entry j (str (b64 s)) fs else entry j (str (b64 t)) rest)
  placed-Sealed b64 true j s t fs rest all more = sealed j s all
  placed-Sealed b64 false j s t fs rest all more = sealed j t more

  put-Sealed :
      (b64 : String → String) (k s : String) (fs : Fields N)
      → Sealed b64 fs
      → Sealed b64 (put k (str (b64 s)) fs)
  unfolding put
  put-Sealed b64 k s end nothing = sealed k s nothing
  put-Sealed b64 k s (entry _ _ fs) (sealed j t all) =
      placed-Sealed b64 (j == k) j s t fs _ all (put-Sealed b64 k s fs all)

  put_if-Sealed :
      (b64 : String → String) (cond : Bool) (k s : String) (fs : Fields N)
      → Sealed b64 fs
      → Sealed b64 (put_if cond k (str (b64 s)) fs)
  put_if-Sealed b64 false k s fs all = all
  put_if-Sealed b64 true k s fs all = put-Sealed b64 k s fs all

  opaque_data-Sealed :
      (stringify : Json N → String) (b64 : String → String) (entries : List DataEntry)
      (data_of : Fields N)
      → Sealed b64 data_of
      → Sealed b64 (opaque_data stringify b64 entries data_of)
  opaque_data-Sealed stringify b64 [] data_of all = all
  opaque_data-Sealed stringify b64 (e ∷ entries) data_of all =
      opaque_data-Sealed stringify b64 entries _
        (put_if-Sealed b64 (is_filled (trim e.key)) (trim e.key) e.value data_of all)

  -- Every value of the data that the form makes is the base64 of a text, for each type of secret.
  pub secret_data-Sealed :
      (stringify : Json N → String) (b64 : String → String) (f : SecretForm)
      → Sealed b64 (secret_data stringify b64 f)
  unfolding secret_data
  secret_data-Sealed stringify b64 f =
      pick (f.secret_type == "Opaque") (f.secret_type == "kubernetes.io/tls")
        (f.secret_type == "kubernetes.io/dockerconfigjson")
    where
      pick :
          (a b c : Bool)
          → Sealed b64 (
              if a
              then opaque_data stringify b64 f.data_entries end
              else (if b
                  then entry "tls.crt"
                      (str (b64 f.tls_cert))
                      (entry "tls.key" (str (b64 f.tls_key)) end)
                  else (if c
                      then entry ".dockerconfigjson"
                          (str (b64 (stringify (docker_config stringify b64 f))))
                          end
                      else end)))
      pick true b c = opaque_data-Sealed stringify b64 f.data_entries end nothing
      pick false true c = sealed "tls.crt" f.tls_cert (sealed "tls.key" f.tls_key nothing)
      pick false false true =
          sealed ".dockerconfigjson" (stringify (docker_config stringify b64 f)) nothing
      pick false false false = nothing
