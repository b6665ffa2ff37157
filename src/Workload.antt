-- ===== src/Workload.antt =====
-- The manifest that the workload form builds, web/src/components/CreateWorkloadModal.tsx. Counts
-- and ports are natural numbers.
pub mod Manifest
pub mod Labelled
mod Tests
use skyvirt_kubeui.Prelude.{
  ℕ, String, ◌==◌, ◌++◌, Bool, true, false, not, ◌&&◌, List, [], ◌∷◌, if◌then◌else◌, ltb, map, keep,
}
use skyvirt_kubeui.Prelude.Text.{trim, is_filled}
use skyvirt_kubeui.Json.{
  Json, num, str, arr, obj, Items, nil, cons, Fields, end, entry, put, is_empty,
}

pub data WorkloadKind : Type 0 where
  deployment stateful_set daemon_set job cron_job : WorkloadKind

pub record ContainerPort : Type 0 where
  pub container_port : ℕ
  pub protocol : String

pub record EnvVar : Type 0 where
  pub name : String
  pub value : String

pub record ContainerSpec : Type 0 where
  pub name : String
  pub image : String
  pub ports : List ContainerPort
  pub env : List EnvVar
  pub cpu_request : String
  pub cpu_limit : String
  pub memory_request : String
  pub memory_limit : String

pub record VolumeMount : Type 0 where
  pub name : String
  pub mount_path : String
  pub container_name : String

pub data VolumeType : Type 0 where
  empty_dir config_map secret pvc : VolumeType

pub record VolumeSpec : Type 0 where
  pub name : String
  pub type : VolumeType
  pub source_name : String
  pub mounts : List VolumeMount

pub record KeyValue : Type 0 where
  pub key : String
  pub value : String

-- `s || d`
abbrev pub text_or : String → String → String
text_or s d = if is_filled s then s else d

-- `if (cond) o[k] = v`
abbrev pub put_if : Bool → String → Json ℕ → Fields ℕ → Fields ℕ
put_if cond k v o = if cond then put k v o else o

abbrev pub items : List (Json ℕ) → Items ℕ
items [] = nil
items (x ∷ xs) = cons x (items xs)

abbrev pub some_of {ℓ} : {A : Type ℓ} → List A → Bool
some_of [] = false
some_of (x ∷ xs) = true

unfoldable pub port_specs : List ContainerPort → List (Json ℕ)
port_specs ports =
    map
      (λ p. obj (
        entry "containerPort" (num (p.container_port))
          (entry "protocol" (str (text_or (p.protocol) "TCP")) end)))
      (keep (λ p. ltb 0 (p.container_port)) ports)

unfoldable pub env_specs : List EnvVar → List (Json ℕ)
env_specs env =
    map (λ e. obj (entry "name" (str (e.name)) (entry "value" (str (e.value)) end)))
      (keep (λ e. is_filled (trim (e.name))) env)

-- `requests` and `limits`, with a key for each text that is given.
abbrev pub amounts : String → String → Fields ℕ
amounts cpu memory =
    put_if (is_filled memory) "memory" (str memory) (put_if (is_filled cpu) "cpu" (str cpu) end)

unfoldable pub resources_of : ContainerSpec → Fields ℕ
resources_of c =
    let requests = amounts (c.cpu_request) (c.memory_request) in
    let limits = amounts (c.cpu_limit) (c.memory_limit) in
    put_if (not (is_empty limits)) "limits" (obj limits)
      (put_if (not (is_empty requests)) "requests" (obj requests) end)

abbrev pub mount_specs : String → List VolumeSpec → List (Json ℕ)
mount_specs container [] = []
mount_specs container (v ∷ volumes) =
    map (λ m. obj (entry "name" (str (v.name)) (entry "mountPath" (str (m.mount_path)) end)))
      (keep (λ m. (m.container_name == container) && is_filled (trim (m.mount_path))) (v.mounts))
    ++ mount_specs container volumes

unfoldable pub container_spec : List VolumeSpec → ContainerSpec → Json ℕ
container_spec volumes c =
    let spec = entry "name" (str (text_or (c.name) "main")) (entry "image" (str (c.image)) end) in
    let ports = put_if (some_of (c.ports)) "ports" (arr (items (port_specs (c.ports)))) spec in
    let env = put_if (some_of (env_specs (c.env))) "env" (arr (items (env_specs (c.env)))) ports in
    let resources =
      put_if (not (is_empty (resources_of c))) "resources" (obj (resources_of c)) env in
    let mounts = mount_specs (c.name) volumes in
    obj (put_if (some_of mounts) "volumeMounts" (arr (items mounts)) resources)

abbrev pub volume_source : VolumeSpec → Fields ℕ → Fields ℕ
volume_source v vol =
    let source = str (text_or (v.source_name) (v.name)) in
    elim (v.type) [
      | empty_dir ↦ put "emptyDir" (obj end) vol
      | config_map ↦ put "configMap" (obj (entry "name" source end)) vol
      | secret ↦ put "secret" (obj (entry "secretName" source end)) vol
      | pvc ↦ put "persistentVolumeClaim" (obj (entry "claimName" source end)) vol
    ]

unfoldable pub volume_specs : List VolumeSpec → List (Json ℕ)
volume_specs volumes =
    map (λ v. obj (volume_source v (entry "name" (str (v.name)) end)))
      (keep (λ v. is_filled (trim (v.name))) volumes)

-- `pairs.filter((l) => l.key.trim() !== "").forEach((l) => (o[l.key] = l.value))`
unfoldable pub put_all : List KeyValue → Fields ℕ → Fields ℕ
put_all [] o = o
put_all (l ∷ pairs) o = put_all pairs (put_if (is_filled (trim (l.key))) (l.key) (str (l.value)) o)

-- `{ ...a, ...b }`
unfoldable pub spread : Fields ℕ → Fields ℕ → Fields ℕ
spread a end = a
spread a (entry k v b) = spread (put k v a) b

unfoldable pub all_labels : String → List KeyValue → Fields ℕ
all_labels name labels = spread (entry "app" (str name) end) (put_all labels end)
