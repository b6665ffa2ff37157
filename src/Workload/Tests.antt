-- ===== src/Workload/Tests.antt =====
-- Manifests of small forms.
use skyvirt_kubeui.Prelude.{◌≡◌, refl, List, [], ◌∷◌}
use skyvirt_kubeui.Json.{str, obj, end, entry, field, put}
use skyvirt_kubeui.Overlay.{get_at_path}
use skyvirt_kubeui.Workload.{
  deployment, KeyValue, ContainerSpec, container_spec, put_all, spread, all_labels, resources_of,
  port_specs, env_specs,
}
use skyvirt_kubeui.Workload.Manifest.{Form, build_manifest}

abbrev main : ContainerSpec
main = record {
  name = "main";
  image = "nginx";
  ports = [];
  env = [];
  cpu_request = "100m";
  cpu_limit = "";
  memory_request = "";
  memory_limit = "";
}

abbrev form_of : List KeyValue → Form
form_of labels = record {
  name = "web";
  namespace = "default";
  replicas = 2;
  schedule = "";
  completions = 1;
  parallelism = 1;
  containers = main ∷ [];
  volumes = [];
  labels = labels;
  annotations = [];
  node_selector = [];
  service_account_name = "";
}

abbrev tier : List KeyValue
tier = record { key = "tier"; value = "front" } ∷ record { key = " "; value = "x" } ∷ []

-- A label "app" of the form replaces the one that the selector asks for.
abbrev renamed : List KeyValue
renamed = record { key = "app"; value = "other" } ∷ []

selector_misses :
    (get_at_path
        (obj (build_manifest deployment (form_of renamed)))
        ("spec" ∷ "selector" ∷ "matchLabels" ∷ "app" ∷ [])
      ≡ str "web")
    × (get_at_path
          (obj (build_manifest deployment (form_of renamed)))
          ("spec" ∷ "template" ∷ "metadata" ∷ "labels" ∷ "app" ∷ [])
        ≡ str "other")
unfolding build_manifest get_at_path field put all_labels put_all spread
selector_misses = (refl, refl)

container_run :
    container_spec [] main
    ≡ obj (
        entry "name" (str "main") (
          entry "image" (str "nginx") (
            entry "resources"
              (obj (entry "requests" (obj (entry "cpu" (str "100m") end)) end))
              end)))
unfolding container_spec resources_of put env_specs port_specs
container_run = refl
