-- ===== src/Api/Nodes.antt =====
-- Calls of web/src/api/client.ts: the nodes, the pods and diagnosis.
use skyvirt_kubeui.Prelude.{ℕ, String, Option, [], ◌∷◌, ◌++◌}
use skyvirt_kubeui.Json.{Json, obj, Fields}
use skyvirt_kubeui.Api.{
  Request, post, put, delete, fetch, act, send, query, scoped, param, param_number, fields_or_empty,
}

unfoldable pub list_nodes : Request
list_nodes = fetch ("nodes" ∷ [])

unfoldable pub get_node : String → Request
get_node name = fetch ("nodes" ∷ name ∷ [])

unfoldable pub cordon_node : String → Request
cordon_node name = act post ("nodes" ∷ name ∷ "cordon" ∷ [])

unfoldable pub uncordon_node : String → Request
uncordon_node name = act post ("nodes" ∷ name ∷ "uncordon" ∷ [])

unfoldable pub get_drain_plan : String → Request
get_drain_plan name = fetch ("nodes" ∷ name ∷ "drain-plan" ∷ [])

unfoldable pub drain_node : String → Option (Fields ℕ) → Request
drain_node name opts = send post ("nodes" ∷ name ∷ "drain" ∷ []) (obj (fields_or_empty opts))

unfoldable pub set_node_labels : String → Json ℕ → Request
set_node_labels name labels = send put ("nodes" ∷ name ∷ "labels" ∷ []) labels

unfoldable pub add_node_taint : String → Json ℕ → Request
add_node_taint name taint = send post ("nodes" ∷ name ∷ "taint" ∷ []) taint

unfoldable pub remove_node_taint : String → String → Request
remove_node_taint name key = act delete ("nodes" ∷ name ∷ "taint" ∷ key ∷ [])

unfoldable pub list_pods : Option String → Request
list_pods namespace =
    scoped namespace (λ ns. fetch ("namespaces" ∷ ns ∷ "pods" ∷ [])) (fetch ("pods" ∷ []))

unfoldable pub get_pod : String → String → Request
get_pod namespace name = fetch ("namespaces" ∷ namespace ∷ "pods" ∷ name ∷ [])

unfoldable pub delete_pod : String → String → Request
delete_pod namespace name = act delete ("namespaces" ∷ namespace ∷ "pods" ∷ name ∷ [])

unfoldable pub get_pod_logs : String → String → Option String → Option ℕ → Request
get_pod_logs namespace name container tail_lines =
    query ("namespaces" ∷ namespace ∷ "pods" ∷ name ∷ "logs" ∷ [])
      (param "container" container ++ param_number "tailLines" tail_lines)

unfoldable pub diagnose_pod : String → String → Request
diagnose_pod namespace name = fetch ("diagnose" ∷ "pod" ∷ namespace ∷ name ∷ [])

unfoldable pub diagnose_workload : String → String → String → Request
diagnose_workload kind namespace name =
    fetch ("diagnose" ∷ "workload" ∷ kind ∷ namespace ∷ name ∷ [])

unfoldable pub get_server_config : Request
get_server_config = fetch ("auth" ∷ "config" ∷ [])

unfoldable pub explain_finding : Json ℕ → Request
explain_finding req = send post ("diagnose" ∷ "explain" ∷ []) req
