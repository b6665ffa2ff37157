-- ===== src/Api/Served/Workloads.antt =====
-- The calls of `Api.Workloads`, with the handler that each is meant for.
use skyvirt_kubeui.Prelude.{ℕ, String, refl, Option, List, [], ◌∷◌, All}
use skyvirt_kubeui.Json.{Json}
use skyvirt_kubeui.Api.{Request, get, post, delete}
use skyvirt_kubeui.Api.Workloads
use skyvirt_kubeui.Prelude.Text.{pieces}
use skyvirt_kubeui.Api.Paths.{IsSegment, segments_of}
use skyvirt_kubeui.Api.Router.{matching}
use skyvirt_kubeui.Api.Router.Workloads.{workload_routes, config_routes}
use skyvirt_kubeui.Api.Router.Console.{
  helm_routes, console_routes, report_routes, auth_routes, engine_routes, routes,
}
use skyvirt_kubeui.Api.Served.Serving.{
  Router, IsRouter, Served, given, of_scope, fetch-Served, scoped-Served,
}

pub data Call : Type 0 where
  list_deployments : Option String → Call
  get_deployment : String → String → Call
  scale_deployment : String → String → ℕ → Call
  restart_deployment : String → String → Call
  rollback_deployment : String → String → Call
  delete_deployment : String → String → Call
  list_stateful_sets : Option String → Call
  scale_stateful_set : String → String → ℕ → Call
  restart_stateful_set : String → String → Call
  delete_stateful_set : String → String → Call
  list_daemon_sets : Option String → Call
  restart_daemon_set : String → String → Call
  delete_daemon_set : String → String → Call
  list_services : Option String → Call
  get_service : String → String → Call
  delete_service : String → String → Call
  list_namespaces : Call
  create_namespace : String → Json ℕ → Call
  delete_namespace : String → Call
  get_namespace_resources : String → Call
  list_events : Option String → Call
  top_nodes : Call
  top_pods : Option String → Call

abbrev pub request_of : (String → String) → Call → Request
request_of encode (list_deployments namespace) = Workloads.list_deployments namespace
request_of encode (get_deployment namespace name) = Workloads.get_deployment namespace name
request_of encode (scale_deployment namespace name replicas) =
    Workloads.scale_deployment namespace name replicas
request_of encode (restart_deployment namespace name) = Workloads.restart_deployment namespace name
request_of encode (rollback_deployment namespace name) =
    Workloads.rollback_deployment namespace name
request_of encode (delete_deployment namespace name) = Workloads.delete_deployment namespace name
request_of encode (list_stateful_sets namespace) = Workloads.list_stateful_sets namespace
request_of encode (scale_stateful_set namespace name replicas) =
    Workloads.scale_stateful_set namespace name replicas
request_of encode (restart_stateful_set namespace name) =
    Workloads.restart_stateful_set namespace name
request_of encode (delete_stateful_set namespace name) =
    Workloads.delete_stateful_set namespace name
request_of encode (list_daemon_sets namespace) = Workloads.list_daemon_sets namespace
request_of encode (restart_daemon_set namespace name) = Workloads.restart_daemon_set namespace name
request_of encode (delete_daemon_set namespace name) = Workloads.delete_daemon_set namespace name
request_of encode (list_services namespace) = Workloads.list_services namespace
request_of encode (get_service namespace name) = Workloads.get_service namespace name
request_of encode (delete_service namespace name) = Workloads.delete_service namespace name
request_of encode list_namespaces = Workloads.list_namespaces
request_of encode (create_namespace name labels) = Workloads.create_namespace name labels
request_of encode (delete_namespace name) = Workloads.delete_namespace name
request_of encode (get_namespace_resources name) = Workloads.get_namespace_resources name
request_of encode (list_events namespace) = Workloads.list_events namespace
request_of encode top_nodes = Workloads.top_nodes
request_of encode (top_pods namespace) = Workloads.top_pods namespace

abbrev pub handler_of : Call → String
handler_of (list_deployments namespace) = of_scope namespace "deps.ListNamespaced" "deps.List"
handler_of (get_deployment namespace name) = "deps.Get"
handler_of (scale_deployment namespace name replicas) = "deps.Scale"
handler_of (restart_deployment namespace name) = "deps.Restart"
handler_of (rollback_deployment namespace name) = "deps.Rollback"
handler_of (delete_deployment namespace name) = "deps.Delete"
handler_of (list_stateful_sets namespace) = of_scope namespace "sts.ListNamespaced" "sts.List"
handler_of (scale_stateful_set namespace name replicas) = "sts.Scale"
handler_of (restart_stateful_set namespace name) = "sts.Restart"
handler_of (delete_stateful_set namespace name) = "sts.Delete"
handler_of (list_daemon_sets namespace) = of_scope namespace "ds.ListNamespaced" "ds.List"
handler_of (restart_daemon_set namespace name) = "ds.Restart"
handler_of (delete_daemon_set namespace name) = "ds.Delete"
handler_of (list_services namespace) = of_scope namespace "svcs.ListNamespaced" "svcs.List"
handler_of (get_service namespace name) = "svcs.Get"
handler_of (delete_service namespace name) = "svcs.Delete"
handler_of list_namespaces = "ns.List"
handler_of (create_namespace name labels) = "ns.Create"
handler_of (delete_namespace name) = "ns.Delete"
handler_of (get_namespace_resources name) = "ns.Resources"
handler_of (list_events namespace) = of_scope namespace "ev.ListNamespaced" "ev.List"
handler_of top_nodes = "met.TopNodes"
handler_of (top_pods namespace) = of_scope namespace "met.TopPodsNamespaced" "met.TopPods"

-- The segments of the path that come from the arguments.
abbrev pub names_of : (String → String) → Call → List String
names_of encode (list_deployments namespace) = given namespace
names_of encode (get_deployment namespace name) = namespace ∷ name ∷ []
names_of encode (scale_deployment namespace name replicas) = namespace ∷ name ∷ []
names_of encode (restart_deployment namespace name) = namespace ∷ name ∷ []
names_of encode (rollback_deployment namespace name) = namespace ∷ name ∷ []
names_of encode (delete_deployment namespace name) = namespace ∷ name ∷ []
names_of encode (list_stateful_sets namespace) = given namespace
names_of encode (scale_stateful_set namespace name replicas) = namespace ∷ name ∷ []
names_of encode (restart_stateful_set namespace name) = namespace ∷ name ∷ []
names_of encode (delete_stateful_set namespace name) = namespace ∷ name ∷ []
names_of encode (list_daemon_sets namespace) = given namespace
names_of encode (restart_daemon_set namespace name) = namespace ∷ name ∷ []
names_of encode (delete_daemon_set namespace name) = namespace ∷ name ∷ []
names_of encode (list_services namespace) = given namespace
names_of encode (get_service namespace name) = namespace ∷ name ∷ []
names_of encode (delete_service namespace name) = namespace ∷ name ∷ []
names_of encode list_namespaces = []
names_of encode (create_namespace name labels) = []
names_of encode (delete_namespace name) = name ∷ []
names_of encode (get_namespace_resources name) = name ∷ []
names_of encode (list_events namespace) = given namespace
names_of encode top_nodes = []
names_of encode (top_pods namespace) = given namespace

module _ (router : Router) (r : IsRouter router) (encode : String → String) where
  pub Served-Workloads :
      (c : Call)
      → All IsSegment (names_of encode c)
      → Served router (request_of encode c) (handler_of c)
  unfolding matching workload_routes config_routes helm_routes console_routes report_routes
      auth_routes engine_routes routes segments_of pieces Workloads.list_deployments
      Workloads.get_deployment Workloads.scale_deployment Workloads.restart_deployment
      Workloads.rollback_deployment Workloads.delete_deployment Workloads.list_stateful_sets
      Workloads.scale_stateful_set Workloads.restart_stateful_set Workloads.delete_stateful_set
      Workloads.list_daemon_sets Workloads.restart_daemon_set Workloads.delete_daemon_set
      Workloads.list_services Workloads.get_service Workloads.delete_service
      Workloads.list_namespaces Workloads.create_namespace Workloads.delete_namespace
      Workloads.get_namespace_resources Workloads.list_events Workloads.top_nodes Workloads.top_pods
  Served-Workloads (list_deployments namespace) h =
      scoped-Served router namespace _ _ "deps.ListNamespaced" "deps.List" h
        (λ ns n.
          fetch-Served router r get ("namespaces" ∷ ns ∷ "deployments" ∷ []) "deps.ListNamespaced"
            (refl, (n, (refl, tt))) refl)
        (fetch-Served router r get ("deployments" ∷ []) "deps.List" (refl, tt) refl)
  Served-Workloads (get_deployment namespace name) (h0, (h1, _)) =
      fetch-Served router r get ("namespaces" ∷ namespace ∷ "deployments" ∷ name ∷ []) "deps.Get"
        (refl, (h0, (refl, (h1, tt)))) refl
  Served-Workloads (scale_deployment namespace name replicas) (h0, (h1, _)) =
      fetch-Served router r post ("namespaces" ∷ namespace ∷ "deployments" ∷ name ∷ "scale" ∷ [])
        "deps.Scale" (refl, (h0, (refl, (h1, (refl, tt))))) refl
  Served-Workloads (restart_deployment namespace name) (h0, (h1, _)) =
      fetch-Served router r post ("namespaces" ∷ namespace ∷ "deployments" ∷ name ∷ "restart" ∷ [])
        "deps.Restart" (refl, (h0, (refl, (h1, (refl, tt))))) refl
  Served-Workloads (rollback_deployment namespace name) (h0, (h1, _)) =
      fetch-Served router r post ("namespaces" ∷ namespace ∷ "deployments" ∷ name ∷ "rollback" ∷ [])
        "deps.Rollback" (refl, (h0, (refl, (h1, (refl, tt))))) refl
  Served-Workloads (delete_deployment namespace name) (h0, (h1, _)) =
      fetch-Served router r delete ("namespaces" ∷ namespace ∷ "deployments" ∷ name ∷ [])
        "deps.Delete" (refl, (h0, (refl, (h1, tt)))) refl
  Served-Workloads (list_stateful_sets namespace) h =
      scoped-Served router namespace _ _ "sts.ListNamespaced" "sts.List" h
        (λ ns n.
          fetch-Served router r get ("namespaces" ∷ ns ∷ "statefulsets" ∷ []) "sts.ListNamespaced"
            (refl, (n, (refl, tt))) refl)
        (fetch-Served router r get ("statefulsets" ∷ []) "sts.List" (refl, tt) refl)
  Served-Workloads (scale_stateful_set namespace name replicas) (h0, (h1, _)) =
      fetch-Served router r post ("namespaces" ∷ namespace ∷ "statefulsets" ∷ name ∷ "scale" ∷ [])
        "sts.Scale" (refl, (h0, (refl, (h1, (refl, tt))))) refl
  Served-Workloads (restart_stateful_set namespace name) (h0, (h1, _)) =
      fetch-Served router r post ("namespaces" ∷ namespace ∷ "statefulsets" ∷ name ∷ "restart" ∷ [])
        "sts.Restart" (refl, (h0, (refl, (h1, (refl, tt))))) refl
  Served-Workloads (delete_stateful_set namespace name) (h0, (h1, _)) =
      fetch-Served router r delete ("namespaces" ∷ namespace ∷ "statefulsets" ∷ name ∷ [])
        "sts.Delete" (refl, (h0, (refl, (h1, tt)))) refl
  Served-Workloads (list_daemon_sets namespace) h =
      scoped-Served router namespace _ _ "ds.ListNamespaced" "ds.List" h
        (λ ns n.
          fetch-Served router r get ("namespaces" ∷ ns ∷ "daemonsets" ∷ []) "ds.ListNamespaced"
            (refl, (n, (refl, tt))) refl)
        (fetch-Served router r get ("daemonsets" ∷ []) "ds.List" (refl, tt) refl)
  Served-Workloads (restart_daemon_set namespace name) (h0, (h1, _)) =
      fetch-Served router r post ("namespaces" ∷ namespace ∷ "daemonsets" ∷ name ∷ "restart" ∷ [])
        "ds.Restart" (refl, (h0, (refl, (h1, (refl, tt))))) refl
  Served-Workloads (delete_daemon_set namespace name) (h0, (h1, _)) =
      fetch-Served router r delete ("namespaces" ∷ namespace ∷ "daemonsets" ∷ name ∷ []) "ds.Delete"
        (refl, (h0, (refl, (h1, tt)))) refl
  Served-Workloads (list_services namespace) h =
      scoped-Served router namespace _ _ "svcs.ListNamespaced" "svcs.List" h
        (λ ns n.
          fetch-Served router r get ("namespaces" ∷ ns ∷ "services" ∷ []) "svcs.ListNamespaced"
            (refl, (n, (refl, tt))) refl)
        (fetch-Served router r get ("services" ∷ []) "svcs.List" (refl, tt) refl)
  Served-Workloads (get_service namespace name) (h0, (h1, _)) =
      fetch-Served router r get ("namespaces" ∷ namespace ∷ "services" ∷ name ∷ []) "svcs.Get"
        (refl, (h0, (refl, (h1, tt)))) refl
  Served-Workloads (delete_service namespace name) (h0, (h1, _)) =
      fetch-Served router r delete ("namespaces" ∷ namespace ∷ "services" ∷ name ∷ []) "svcs.Delete"
        (refl, (h0, (refl, (h1, tt)))) refl
  Served-Workloads list_namespaces h =
      fetch-Served router r get ("namespaces" ∷ []) "ns.List" (refl, tt) refl
  Served-Workloads (create_namespace name labels) h =
      fetch-Served router r post ("namespaces" ∷ []) "ns.Create" (refl, tt) refl
  Served-Workloads (delete_namespace name) (h0, _) =
      fetch-Served router r delete ("namespaces" ∷ name ∷ []) "ns.Delete" (refl, (h0, tt)) refl
  Served-Workloads (get_namespace_resources name) (h0, _) =
      fetch-Served router r get ("namespaces" ∷ name ∷ "resources" ∷ []) "ns.Resources"
        (refl, (h0, (refl, tt))) refl
  Served-Workloads (list_events namespace) h =
      scoped-Served router namespace _ _ "ev.ListNamespaced" "ev.List" h
        (λ ns n.
          fetch-Served router r get ("namespaces" ∷ ns ∷ "events" ∷ []) "ev.ListNamespaced"
            (refl, (n, (refl, tt))) refl)
        (fetch-Served router r get ("events" ∷ []) "ev.List" (refl, tt) refl)
  Served-Workloads top_nodes h =
      fetch-Served router r get ("metrics" ∷ "nodes" ∷ []) "met.TopNodes" (refl, (refl, tt)) refl
  Served-Workloads (top_pods namespace) h =
      scoped-Served router namespace _ _ "met.TopPodsNamespaced" "met.TopPods" h
        (λ ns n.
          fetch-Served router r get ("namespaces" ∷ ns ∷ "metrics" ∷ "pods" ∷ [])
            "met.TopPodsNamespaced" (refl, (n, (refl, (refl, tt)))) refl)
        (fetch-Served router r get ("metrics" ∷ "pods" ∷ []) "met.TopPods" (refl, (refl, tt)) refl)
