-- ===== src/Forms/Ingress.antt =====
-- The Ingress that web/src/components/CreateIngressModal.tsx creates, its merge into the live
-- object, and the form that it reads from one. What the form reads is of the types that the cluster
-- gives them.
use Prim.Native.Char.{Char, code}
use Prim.Native.String.{◌++◌}
use skyvirt_kubeui.Prelude.{
  String, Bool, true, false, not, ◌||◌, List, [], ◌∷◌, map, keep, if◌then◌else◌, eqb,
}
use skyvirt_kubeui.Prelude.Text.{trim, is_filled}
use skyvirt_kubeui.Json.{
  Json, num, str, arr, obj, Items, nil, cons, Fields, end, entry, field, put, remove, fields_of,
}
use skyvirt_kubeui.Forms.{Numerals, put_if, items, named, manifest, number_or, trimmed_or}
use skyvirt_kubeui.Forms.Service.{assign}

pub record PathEntry : Type 0 where
  pub path : String
  pub path_type : String
  pub service_name : String
  pub service_port : String

pub record RuleEntry : Type 0 where
  pub host : String
  pub paths : List PathEntry

pub record TlsEntry : Type 0 where
  pub hosts : String
  pub secret_name : String

pub record IngressForm : Type 0 where
  pub name : String
  pub namespace : String
  pub ingress_class : String
  pub rules : List RuleEntry
  pub tls_entries : List TlsEntry

-- `s.split(",")`
abbrev pub onto : Char → List String → List String
onto c [] = String.◌∷◌ c "" ∷ []
onto c (p ∷ ps) = String.◌∷◌ c p ∷ ps

abbrev pub split_commas : String → List String
split_commas String.[] = "" ∷ []
split_commas (String.◌∷◌ c s) =
    let rest = split_commas s in if eqb (code c) 44 then "" ∷ rest else onto c rest

abbrev pub host_list : String → List String
host_list hosts = keep is_filled (map trim (split_commas hosts))

module _ {N : Type 0} where
  abbrev pub tls_entry : TlsEntry → Json N
  tls_entry t = obj (
      put_if (is_filled (trim t.secret_name)) "secretName" (str (trim t.secret_name))
        (put_if (is_filled (trim t.hosts)) "hosts" (arr (items (map str (host_list t.hosts)))) end))

  unfoldable pub tls_specs : IngressForm → Items N
  tls_specs f = items (
      map tls_entry
        (keep (λ t. is_filled (trim t.hosts) || is_filled (trim t.secret_name)) f.tls_entries))

  -- `xs.length > 0`
  abbrev pub has_items : Items N → Bool
  has_items nil = false
  has_items (cons _ _) = true

  -- `!v || v.length === 0`
  abbrev pub lacks_items : Json N → Bool
  lacks_items (arr xs) = not (has_items xs)
  lacks_items _ = true

module _ {N : Type 0} (numerals : Numerals N) where
  abbrev pub backend : PathEntry → Json N
  backend p = obj (
      entry "service"
        (obj (
          entry "name" (str (trim p.service_name)) (
            entry "port" (obj (entry "number" (num (number_or numerals p.service_port 80)) end))
              end)))
        end)

  abbrev pub path_spec : PathEntry → Json N
  path_spec p = obj (
      entry "path" (str (trimmed_or p.path "/"))
        (entry "pathType" (str p.path_type) (entry "backend" (backend p) end)))

  abbrev pub rule_spec : RuleEntry → Json N
  rule_spec r = obj (
      put "http" (obj (entry "paths" (arr (items (map path_spec r.paths))) end))
        (put_if (is_filled (trim r.host)) "host" (str (trim r.host)) end))

  unfoldable pub ingress_spec : IngressForm → Fields N
  ingress_spec f =
      let class = trim f.ingress_class in
      let spec = put_if (is_filled class) "ingressClassName" (str class) end in
      put_if (has_items (tls_specs {N = N} f)) "tls" (arr (tls_specs f))
        (put "rules" (arr (items (map rule_spec f.rules))) spec)

  unfoldable pub ingress_manifest : IngressForm → Fields N
  ingress_manifest f =
      manifest "networking.k8s.io/v1" "Ingress" (named f.name f.namespace) (ingress_spec f)

  -- `if (!ingressClass.trim()) delete …; if (!spec.tls || spec.tls.length === 0) delete …`
  abbrev pub without_class : IngressForm → Fields N → Fields N
  without_class f spec =
      if is_filled (trim f.ingress_class) then spec else remove "ingressClassName" spec

  abbrev pub without_tls : Fields N → Fields N
  without_tls spec = if lacks_items (field "tls" spec) then remove "tls" spec else spec

  abbrev pub edit_spec : IngressForm → Fields N → Fields N
  edit_spec f spec = without_tls (without_class f (assign spec (ingress_spec f)))

  unfoldable pub edit_ingress : IngressForm → Fields N → Fields N
  edit_ingress f original =
      put "spec" (obj (edit_spec f (fields_of (field "spec" original)))) original

  -- The form that the live object gives: `String(v || d)` and `v ?? w ?? d`.
  abbrev pub text_or : String → Json N → String
  text_or d (str s) = if is_filled s then s else d
  text_or d (num n) = if numerals.is_falsy n then d else numerals.print n
  text_or d _ = d

  abbrev pub port_text : Json N → Json N → String
  port_text (num n) name = numerals.print n
  port_text (str s) name = s
  port_text _ (str s) = s
  port_text _ (num n) = numerals.print n
  port_text _ _ = "80"

  -- `v?.k`, `(v || {})[k]`
  abbrev pub at : String → Json N → Json N
  at k v = field k (fields_of v)

  abbrev pub read_path : Json N → PathEntry
  read_path p =
      let service = at "service" (at "backend" p) in
      record {
        path = text_or "/" (at "path" p);
        path_type = text_or "Prefix" (at "pathType" p);
        service_name = text_or "" (at "name" service);
        service_port = port_text (at "number" (at "port" service)) (at "name" (at "port" service));
      }

  abbrev pub map_items {ℓ} : {A : Type ℓ} → (Json N → A) → Items N → List A
  map_items f nil = []
  map_items f (cons v vs) = f v ∷ map_items f vs

  -- `(v || []) as …[]`
  abbrev pub items_of : Json N → Items N
  items_of (arr vs) = vs
  items_of _ = nil

  unfoldable pub read_rule : Json N → RuleEntry
  read_rule r = record {
    host = text_or "" (at "host" r);
    paths = map_items read_path (items_of (at "paths" (at "http" r)));
  }

  -- `(t.hosts || []).join(", ")`
  abbrev pub join_hosts : Items N → String
  join_hosts nil = ""
  join_hosts (cons v nil) = text_or "" v
  join_hosts (cons v vs) = text_or "" v ++ (", " ++ join_hosts vs)

  unfoldable pub read_tls : Json N → TlsEntry
  read_tls t = record {
    hosts = join_hosts (items_of (at "hosts" t));
    secret_name = text_or "" (at "secretName" t);
  }

  abbrev pub rules_or : List RuleEntry → List RuleEntry → List RuleEntry
  rules_or [] initial = initial
  rules_or (r ∷ rules) initial = r ∷ rules

  -- The effect that fills the form: `initial` are the rules that it starts with.
  unfoldable pub read_form : String → String → List RuleEntry → Fields N → IngressForm
  read_form name namespace initial original =
      let spec = field "spec" original in
      record {
        name = name;
        namespace = namespace;
        ingress_class = text_or "" (at "ingressClassName" spec);
        rules = rules_or (map_items read_rule (items_of (at "rules" spec))) initial;
        tls_entries = map_items read_tls (items_of (at "tls" spec));
      }
