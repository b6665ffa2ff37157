-- ===== src/Api/Workloads.antt =====
-- Calls of web/src/api/client.ts: the workloads, services, namespaces, events and metrics.
use skyvirt_kubeui.Prelude.{ℕ, String, Option, [], ◌∷◌}
use skyvirt_kubeui.Json.{Json, num, str, obj, end, entry}
use skyvirt_kubeui.Api.{Request, post, delete, fetch, act, send, scoped}

unfoldable pub list_deployments : Option String → Request
list_deployments namespace =
    scoped namespace (λ ns. fetch ("namespaces" ∷ ns ∷ "deployments" ∷ []))
      (fetch ("deployments" ∷ []))

unfoldable pub get_deployment : String → String → Request
get_deployment namespace name = fetch ("namespaces" ∷ namespace ∷ "deployments" ∷ name ∷ [])

unfoldable pub scale_deployment : String → String → ℕ → Request
scale_deployment namespace name replicas =
    send post ("namespaces" ∷ namespace ∷ "deployments" ∷ name ∷ "scale" ∷ [])
      (obj (entry "replicas" (num replicas) end))

unfoldable pub restart_deployment : String → String → Request
restart_deployment namespace name =
    act post ("namespaces" ∷ namespace ∷ "deployments" ∷ name ∷ "restart" ∷ [])

unfoldable pub rollback_deployment : String → String → Request
rollback_deployment namespace name =
    act post ("namespaces" ∷ namespace ∷ "deployments" ∷ name ∷ "rollback" ∷ [])

unfoldable pub delete_deployment : String → String → Request
delete_deployment namespace name = act delete ("namespaces" ∷ namespace ∷ "deployments" ∷ name ∷ [])

unfoldable pub list_stateful_sets : Option String → Request
list_stateful_sets namespace =
    scoped namespace (λ ns. fetch ("namespaces" ∷ ns ∷ "statefulsets" ∷ []))
      (fetch ("statefulsets" ∷ []))

unfoldable pub scale_stateful_set : String → String → ℕ → Request
scale_stateful_set namespace name replicas =
    send post ("namespaces" ∷ namespace ∷ "statefulsets" ∷ name ∷ "scale" ∷ [])
      (obj (entry "replicas" (num replicas) end))

unfoldable pub restart_stateful_set : String → String → Request
restart_stateful_set namespace name =
    act post ("namespaces" ∷ namespace ∷ "statefulsets" ∷ name ∷ "restart" ∷ [])

unfoldable pub delete_stateful_set : String → String → Request
delete_stateful_set namespace name =
    act delete ("namespaces" ∷ namespace ∷ "statefulsets" ∷ name ∷ [])

unfoldable pub list_daemon_sets : Option String → Request
list_daemon_sets namespace =
    scoped namespace (λ ns. fetch ("namespaces" ∷ ns ∷ "daemonsets" ∷ []))
      (fetch ("daemonsets" ∷ []))

unfoldable pub restart_daemon_set : String → String → Request
restart_daemon_set namespace name =
    act post ("namespaces" ∷ namespace ∷ "daemonsets" ∷ name ∷ "restart" ∷ [])

unfoldable pub delete_daemon_set : String → String → Request
delete_daemon_set namespace name = act delete ("namespaces" ∷ namespace ∷ "daemonsets" ∷ name ∷ [])

unfoldable pub list_services : Option String → Request
list_services namespace =
    scoped namespace (λ ns. fetch ("namespaces" ∷ ns ∷ "services" ∷ [])) (fetch ("services" ∷ []))

unfoldable pub get_service : String → String → Request
get_service namespace name = fetch ("namespaces" ∷ namespace ∷ "services" ∷ name ∷ [])

unfoldable pub delete_service : String → String → Request
delete_service namespace name = act delete ("namespaces" ∷ namespace ∷ "services" ∷ name ∷ [])

unfoldable pub list_namespaces : Request
list_namespaces = fetch ("namespaces" ∷ [])

unfoldable pub create_namespace : String → Json ℕ → Request
create_namespace name labels =
    send post ("namespaces" ∷ []) (obj (entry "name" (str name) (entry "labels" labels end)))

unfoldable pub delete_namespace : String → Request
delete_namespace name = act delete ("namespaces" ∷ name ∷ [])

unfoldable pub get_namespace_resources : String → Request
get_namespace_resources name = fetch ("namespaces" ∷ name ∷ "resources" ∷ [])

unfoldable pub list_events : Option String → Request
list_events namespace =
    scoped namespace (λ ns. fetch ("namespaces" ∷ ns ∷ "events" ∷ [])) (fetch ("events" ∷ []))

unfoldable pub top_nodes : Request
top_nodes = fetch ("metrics" ∷ "nodes" ∷ [])

unfoldable pub top_pods : Option String → Request
top_pods namespace =
    scoped namespace (λ ns. fetch ("namespaces" ∷ ns ∷ "metrics" ∷ "pods" ∷ []))
      (fetch ("metrics" ∷ "pods" ∷ []))
