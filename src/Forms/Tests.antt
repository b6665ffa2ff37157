-- ===== src/Forms/Tests.antt =====
-- Runs of the smaller forms.
use Prim.Native.String.{◌++◌}
use skyvirt_kubeui.Prelude.{
  ℕ, String, ◌==◌, ◌≡◌, refl, false, List, [], ◌∷◌, All, ltb, eqb, if◌then◌else◌,
}
use skyvirt_kubeui.Json.{Json, num, str, arr, obj, nil, cons, Fields, end, entry, field}
use skyvirt_kubeui.Overlay.{get_at_path}
use skyvirt_kubeui.Forms.{
  Numerals, items, HpaForm, submit_hpa, hpa_manifest, applied, SecretForm, secret_data,
}
use skyvirt_kubeui.Forms.Service.{ServiceForm}
use skyvirt_kubeui.Forms.Ingress.{IngressForm, edit_ingress}
use skyvirt_kubeui.Forms.Policy.{PolicyRule, rule_entry}
use skyvirt_kubeui.Forms.Narrow.{IsNarrow}
use skyvirt_kubeui.Forms.Restricted.{rule_entry-Restricted}
use skyvirt_kubeui.Forms.Rules.{edit_ingress-tls_kept}
use skyvirt_kubeui.Forms.Sealed.{Sealed, submit_hpa-ordered, secret_data-Sealed}

-- Numbers of one digit.
abbrev digit : String → ℕ
digit s = if s == "2" then 2 else (if s == "5" then 5 else 0)

abbrev numerals : Numerals ℕ
numerals = record {
  parse_int = digit;
  is_falsy = λ n. eqb n 0;
  is_nan = λ n. false;
  less = ltb;
  literal = λ n. n;
  print = λ n. "n";
}

abbrev hpa : HpaForm
hpa = record {
  name = "web";
  namespace = "default";
  target_kind = "Deployment";
  target_name = "web";
  min_replicas = "2";
  max_replicas = "5";
  cpu_target = "";
  memory_target = "";
}

hpa_run : submit_hpa numerals hpa ≡ applied (hpa_manifest numerals hpa)
unfolding submit_hpa
hpa_run = refl

submit_hpa-ordered_example :
    (low : ℕ) × (high : ℕ) × (get_at_path
        (obj (hpa_manifest numerals hpa))
        ("spec" ∷ "minReplicas" ∷ [])
      ≡ num low)
    × (get_at_path (obj (hpa_manifest numerals hpa)) ("spec" ∷ "maxReplicas" ∷ []) ≡ num high)
    × (ltb high low ≡ false)
submit_hpa-ordered_example = submit_hpa-ordered numerals hpa (hpa_manifest numerals hpa) hpa_run

abbrev login : SecretForm
login = record {
  name = "login";
  namespace = "default";
  secret_type = "kubernetes.io/tls";
  data_entries = [];
  tls_cert = "cert";
  tls_key = "key";
  docker_server = "";
  docker_username = "";
  docker_password = "";
  docker_email = "";
}

secret_data-Sealed_example :
    Sealed {N = ℕ} (λ s. "b64 " ++ s) (secret_data (λ v. "") (λ s. "b64 " ++ s) login)
secret_data-Sealed_example = secret_data-Sealed (λ v. "") (λ s. "b64 " ++ s) login

abbrev balancer : ServiceForm
balancer = record {
  name = "web";
  namespace = "default";
  service_type = "LoadBalancer";
  selector_labels = [];
  ports = [];
  address_pool = "blue";
  lb_ip = "";
}

abbrev noted : Fields ℕ
noted =
    entry "metadata"
      (obj (
        entry "annotations"
          (obj
            (entry "owner" (str "ops") (entry "metallb.universe.tf/address-pool" (str "red") end)))
          end))
      (entry "spec" (obj (entry "clusterIP" (str "10.0.0.1") end)) end)

abbrev owner : List String
owner = "metadata" ∷ "annotations" ∷ "owner" ∷ []

abbrev plain : IngressForm
plain = record {
  name = "web";
  namespace = "default";
  ingress_class = "";
  rules = [];
  tls_entries = [];
}

abbrev secured : Fields ℕ
secured =
    entry "spec"
      (obj (
        entry "defaultBackend" (str "web")
          (entry "tls" (arr (cons (obj (entry "secretName" (str "old") end)) nil)) end)))
      end

secured_run :
    get_at_path (obj secured) ("spec" ∷ "tls" ∷ [])
    ≡ arr (cons (obj (entry "secretName" (str "old") end)) nil)
unfolding get_at_path field
secured_run = refl

edit_ingress-tls_kept_example :
    get_at_path (obj (edit_ingress numerals plain secured)) ("spec" ∷ "tls" ∷ [])
    ≡ arr (cons (obj (entry "secretName" (str "old") end)) nil)
edit_ingress-tls_kept_example =
    edit_ingress-tls_kept numerals plain secured (obj (entry "secretName" (str "old") end)) nil refl
      secured_run

abbrev inside : PolicyRule
inside = record {
  pod_selector = [];
  namespace_selector = record { key = "team"; value = "web" } ∷ [];
  cidr = "";
  ports = [];
}

rule_entry-Restricted_example :
    (v : Json ℕ) × (vs : List (Json ℕ)) × (field "from" (rule_entry numerals "from" inside)
      ≡ arr (cons v (items vs)))
    × All (IsNarrow inside) (v ∷ vs)
rule_entry-Restricted_example = rule_entry-Restricted numerals "from" inside refl refl
