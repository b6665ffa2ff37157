-- ===== src/Forms.antt =====
-- The manifests that the smaller forms of web/src/components build: CreateHPAModal,
-- CreateResourceQuotaModal and CreateSecretModal here, CreateServiceModal and CreateIngressModal
-- below. The state of a form is what its inputs hold; numbers are JavaScript's, a parameter.
pub mod Service
pub mod Ingress
pub mod Edits
pub mod Rules
pub mod Sealed
pub mod Policy
pub mod Narrow
pub mod Restricted
mod Tests
use Prim.Native.String.{◌++◌}
use skyvirt_kubeui.Prelude.{
  ℕ, String, ◌==◌, Bool, true, false, not, ◌&&◌, ◌||◌, List, [], ◌∷◌, Option, none, some,
  if◌then◌else◌,
}
use skyvirt_kubeui.Prelude.Text.{trim, is_filled}
use skyvirt_kubeui.Json.{Json, num, str, arr, obj, Items, nil, cons, Fields, end, entry, put}

-- `parseInt(text, 10)`, the numbers that are taken for false, `Number.isNaN`, `a < b`, and the
-- literals.
pub record Numerals (N : Type 0) : Type 0 where
  pub parse_int : String → N
  pub is_falsy : N → Bool
  pub is_nan : N → Bool
  pub less : N → N → Bool
  pub literal : ℕ → N
  pub print : N → String

pub record HardLimit : Type 0 where
  pub resource : String
  pub value : String

pub record DataEntry : Type 0 where
  pub key : String
  pub value : String

-- `s.trim() || d`
abbrev pub trimmed_or : String → String → String
trimmed_or s d = if is_filled (trim s) then trim s else d

module _ {N : Type 0} where
  -- `if (cond) o[k] = v`
  abbrev pub put_if : Bool → String → Json N → Fields N → Fields N
  put_if cond k v o = if cond then put k v o else o

  abbrev pub items : List (Json N) → Items N
  items [] = nil
  items (x ∷ xs) = cons x (items xs)

  -- `{ name: name.trim(), namespace: namespace.trim() }`
  abbrev pub named : String → String → Fields N
  named name namespace =
      entry "name" (str (trim name)) (entry "namespace" (str (trim namespace)) end)

  -- `{ apiVersion, kind, metadata, spec }`
  abbrev pub manifest : String → String → Fields N → Fields N → Fields N
  manifest version kind metadata spec =
      entry "apiVersion" (str version)
        (entry "kind" (str kind) (entry "metadata" (obj metadata) (entry "spec" (obj spec) end)))

  -- `parseInt(text, 10) || d`
  abbrev pub number_or : Numerals N → String → ℕ → N
  number_or numerals text d =
      if numerals.is_falsy (numerals.parse_int text)
      then numerals.literal d
      else numerals.parse_int text

-- CreateHPAModal
pub record HpaForm : Type 0 where
  pub name : String
  pub namespace : String
  pub target_kind : String
  pub target_name : String
  pub min_replicas : String
  pub max_replicas : String
  pub cpu_target : String
  pub memory_target : String

-- What a form does when it is submitted: show an error, or apply a manifest.
pub data Submission (N : Type 0) : Type 0 where
  refused : String → Submission N
  applied : Fields N → Submission N

module _ {N : Type 0} (numerals : Numerals N) where
  abbrev pub metric : String → String → Json N
  metric name target = obj (
      entry "type" (str "Resource") (
        entry "resource"
          (obj (
            entry "name" (str name) (
              entry "target"
                (obj (
                  entry "type" (str "Utilization")
                    (entry "averageUtilization" (num (numerals.parse_int target)) end)))
                end)))
          end))

  abbrev pub metrics : HpaForm → Items N
  metrics f =
      let memory =
        if is_filled (trim f.memory_target)
        then cons (metric "memory" f.memory_target) nil
        else nil in
      if is_filled (trim f.cpu_target) then cons (metric "cpu" f.cpu_target) memory else memory

  abbrev pub some_items : Items N → Bool
  some_items nil = false
  some_items (cons _ _) = true

  abbrev pub scale_target : HpaForm → Fields N
  scale_target f =
      entry "apiVersion" (str "apps/v1")
        (entry "kind" (str f.target_kind) (entry "name" (str (trim f.target_name)) end))

  unfoldable pub hpa_manifest : HpaForm → Fields N
  hpa_manifest f = manifest "autoscaling/v2" "HorizontalPodAutoscaler" (named f.name f.namespace) (
      put_if (some_items (metrics f)) "metrics" (arr (metrics f)) (
        entry "scaleTargetRef" (obj (scale_target f)) (
          entry "minReplicas" (num (number_or numerals f.min_replicas 1))
            (entry "maxReplicas" (num (number_or numerals f.max_replicas 10)) end))))

  -- `handleSubmit`, up to the call that applies the manifest, in the form's own mode
  unfoldable pub submit_hpa : HpaForm → Submission N
  submit_hpa f =
      let low = number_or numerals f.min_replicas 1 in
      let high = number_or numerals f.max_replicas 10 in
      if numerals.less high low
      then refused (
          "Min replicas ("
          ++ (numerals.print low
              ++ (") cannot exceed max replicas (" ++ (numerals.print high ++ ")"))))
      else applied (hpa_manifest f)

-- CreateResourceQuotaModal
module _ {N : Type 0} where
  unfoldable pub hard_limits : List HardLimit → Fields N → Fields N
  hard_limits [] hard = hard
  hard_limits (l ∷ limits) hard = hard_limits limits (
      put_if (is_filled (trim l.resource) && is_filled (trim l.value)) (trim l.resource)
        (str (trim l.value)) hard)

  unfoldable pub quota_manifest : String → String → List HardLimit → Fields N
  quota_manifest name namespace limits =
      manifest "v1" "ResourceQuota" (named name namespace)
        (entry "hard" (obj (hard_limits limits end)) end)

-- CreateSecretModal
pub record SecretForm : Type 0 where
  pub name : String
  pub namespace : String
  pub secret_type : String
  pub data_entries : List DataEntry
  pub tls_cert : String
  pub tls_key : String
  pub docker_server : String
  pub docker_username : String
  pub docker_password : String
  pub docker_email : String

-- `JSON.stringify`, and the base64 of a text's UTF-8 bytes.
module _ {N : Type 0} (stringify : Json N → String) (b64 : String → String) where
  abbrev pub opaque_data : List DataEntry → Fields N → Fields N
  opaque_data [] sealed = sealed
  opaque_data (e ∷ entries) sealed =
      opaque_data entries (put_if (is_filled (trim e.key)) (trim e.key) (str (b64 e.value)) sealed)

  abbrev pub docker_config : SecretForm → Json N
  docker_config f =
      let account = entry "username" (str f.docker_username) (
        entry "password" (str f.docker_password) (
          entry "email" (str f.docker_email)
            (entry "auth" (str (b64 (f.docker_username ++ (":" ++ f.docker_password)))) end))) in
      let server = trimmed_or f.docker_server "https://index.docker.io/v1/" in
      obj (entry "auths" (obj (entry server (obj account) end)) end)

  unfoldable pub secret_data : SecretForm → Fields N
  secret_data f =
      if f.secret_type == "Opaque"
      then opaque_data f.data_entries end
      else (if f.secret_type == "kubernetes.io/tls"
          then entry "tls.crt" (str (b64 f.tls_cert)) (entry "tls.key" (str (b64 f.tls_key)) end)
          else (if f.secret_type == "kubernetes.io/dockerconfigjson"
              then entry ".dockerconfigjson" (str (b64 (stringify (docker_config f)))) end
              else end))

  unfoldable pub secret_manifest : SecretForm → Fields N
  secret_manifest f = entry "apiVersion" (str "v1") (
      entry "kind" (str "Secret") (
        entry "metadata" (obj (named f.name f.namespace))
          (entry "type" (str f.secret_type) (entry "data" (obj (secret_data f)) end))))
