-- ===== src/Workload/Manifest.antt =====
-- `buildManifest` of web/src/components/CreateWorkloadModal.tsx: the object of each kind of
-- workload, around the pod template.
use skyvirt_kubeui.Prelude.{ℕ, String, not, List, map}
use skyvirt_kubeui.Prelude.Text.{trim, is_filled}
use skyvirt_kubeui.Json.{Json, num, str, arr, obj, Fields, end, entry, put, is_empty}
use skyvirt_kubeui.Workload.{
  WorkloadKind, deployment, stateful_set, daemon_set, job, cron_job, ContainerSpec, VolumeSpec,
  KeyValue, put_if, items, some_of, container_spec, volume_specs, put_all, all_labels,
}

-- The values of the form.
pub record Form : Type 0 where
  pub name : String
  pub namespace : String
  pub replicas : ℕ
  pub schedule : String
  pub completions : ℕ
  pub parallelism : ℕ
  pub containers : List ContainerSpec
  pub volumes : List VolumeSpec
  pub labels : List KeyValue
  pub annotations : List KeyValue
  pub node_selector : List KeyValue
  pub service_account_name : String

unfoldable pub metadata : Form → Fields ℕ
metadata f =
    let labels = all_labels (f.name) (f.labels) in
    let annotations = put_all (f.annotations) end in
    put_if (not (is_empty annotations)) "annotations" (obj annotations) (
      put_if (not (is_empty labels)) "labels" (obj labels)
        (entry "name" (str (f.name)) (entry "namespace" (str (f.namespace)) end)))

unfoldable pub pod_spec : Form → Fields ℕ
pod_spec f =
    let containers =
      entry "containers" (arr (items (map (container_spec (f.volumes)) (f.containers)))) end in
    let specs = volume_specs (f.volumes) in
    let volumes = put_if (some_of specs) "volumes" (arr (items specs)) containers in
    let selector = put_all (f.node_selector) end in
    let nodes = put_if (not (is_empty selector)) "nodeSelector" (obj selector) volumes in
    let account = trim (f.service_account_name) in
    put_if (is_filled account) "serviceAccountName" (str account) nodes

-- `{ metadata: { labels: allLabels }, spec }`
abbrev pub template : Form → Fields ℕ → Json ℕ
template f spec = obj (
    entry "metadata" (obj (entry "labels" (obj (all_labels (f.name) (f.labels))) end))
      (entry "spec" (obj spec) end))

abbrev pub match_labels : Form → Json ℕ
match_labels f = obj (entry "matchLabels" (obj (entry "app" (str (f.name)) end)) end)

-- `{ apiVersion, kind, metadata, spec }`
abbrev pub manifest : String → String → Form → Fields ℕ → Fields ℕ
manifest version kind f spec =
    entry "apiVersion" (str version)
      (entry "kind" (str kind) (entry "metadata" (obj (metadata f)) (entry "spec" (obj spec) end)))

-- `{ completions, parallelism, template }` with the template of a pod that is not restarted
abbrev pub run_once : Form → Fields ℕ
run_once f = entry "completions" (num (f.completions)) (
    entry "parallelism" (num (f.parallelism))
      (entry "template" (template f (put "restartPolicy" (str "Never") (pod_spec f))) end))

unfoldable pub build_manifest : WorkloadKind → Form → Fields ℕ
build_manifest deployment f = manifest "apps/v1" "Deployment" f (
    entry "replicas" (num (f.replicas))
      (entry "selector" (match_labels f) (entry "template" (template f (pod_spec f)) end)))
build_manifest stateful_set f = manifest "apps/v1" "StatefulSet" f (
    entry "replicas" (num (f.replicas)) (
      entry "serviceName" (str (f.name))
        (entry "selector" (match_labels f) (entry "template" (template f (pod_spec f)) end))))
build_manifest daemon_set f =
    manifest "apps/v1" "DaemonSet" f
      (entry "selector" (match_labels f) (entry "template" (template f (pod_spec f)) end))
build_manifest job f = manifest "batch/v1" "Job" f (run_once f)
build_manifest cron_job f = manifest "batch/v1" "CronJob" f (
    entry "schedule" (str (f.schedule))
      (entry "jobTemplate" (obj (entry "spec" (obj (run_once f)) end)) end))
