-- ===== src/Api/Served/Nodes.antt =====
-- The calls of `Api.Nodes`, with the handler that each is meant for.
use skyvirt_kubeui.Prelude.{ℕ, String, refl, Option, List, [], ◌∷◌, All}
use skyvirt_kubeui.Json.{Json, Fields}
use skyvirt_kubeui.Api.{Request, get, post, put, delete}
use skyvirt_kubeui.Api.Nodes
use skyvirt_kubeui.Prelude.Text.{pieces}
use skyvirt_kubeui.Api.Paths.{IsSegment, segments_of}
use skyvirt_kubeui.Api.Router.{matching}
use skyvirt_kubeui.Api.Router.Workloads.{workload_routes, config_routes}
use skyvirt_kubeui.Api.Router.Console.{
  helm_routes, console_routes, report_routes, auth_routes, engine_routes, routes,
}
use skyvirt_kubeui.Api.Served.Serving.{
  Router, IsRouter, Served, given, of_scope, fetch-Served, scoped-Served,
}

pub data Call : Type 0 where
  list_nodes : Call
  get_node : String → Call
  cordon_node : String → Call
  uncordon_node : String → Call
  get_drain_plan : String → Call
  drain_node : String → Option (Fields ℕ) → Call
  set_node_labels : String → Json ℕ → Call
  add_node_taint : String → Json ℕ → Call
  remove_node_taint : String → String → Call
  list_pods : Option String → Call
  get_pod : String → String → Call
  delete_pod : String → String → Call
  get_pod_logs : String → String → Option String → Option ℕ → Call
  diagnose_pod : String → String → Call
  diagnose_workload : String → String → String → Call
  get_server_config : Call
  explain_finding : Json ℕ → Call

abbrev pub request_of : (String → String) → Call → Request
request_of encode list_nodes = Nodes.list_nodes
request_of encode (get_node name) = Nodes.get_node name
request_of encode (cordon_node name) = Nodes.cordon_node name
request_of encode (uncordon_node name) = Nodes.uncordon_node name
request_of encode (get_drain_plan name) = Nodes.get_drain_plan name
request_of encode (drain_node name opts) = Nodes.drain_node name opts
request_of encode (set_node_labels name labels) = Nodes.set_node_labels name labels
request_of encode (add_node_taint name taint) = Nodes.add_node_taint name taint
request_of encode (remove_node_taint name key) = Nodes.remove_node_taint name key
request_of encode (list_pods namespace) = Nodes.list_pods namespace
request_of encode (get_pod namespace name) = Nodes.get_pod namespace name
request_of encode (delete_pod namespace name) = Nodes.delete_pod namespace name
request_of encode (get_pod_logs namespace name container tail_lines) =
    Nodes.get_pod_logs namespace name container tail_lines
request_of encode (diagnose_pod namespace name) = Nodes.diagnose_pod namespace name
request_of encode (diagnose_workload kind namespace name) =
    Nodes.diagnose_workload kind namespace name
request_of encode get_server_config = Nodes.get_server_config
request_of encode (explain_finding req) = Nodes.explain_finding req

abbrev pub handler_of : Call → String
handler_of list_nodes = "nodes.List"
handler_of (get_node name) = "nodes.Get"
handler_of (cordon_node name) = "nodes.Cordon"
handler_of (uncordon_node name) = "nodes.Uncordon"
handler_of (get_drain_plan name) = "nodes.DrainPlan"
handler_of (drain_node name opts) = "nodes.Drain"
handler_of (set_node_labels name labels) = "nodes.SetLabels"
handler_of (add_node_taint name taint) = "nodes.AddTaint"
handler_of (remove_node_taint name key) = "nodes.RemoveTaint"
handler_of (list_pods namespace) = of_scope namespace "pods.ListNamespaced" "pods.List"
handler_of (get_pod namespace name) = "pods.Get"
handler_of (delete_pod namespace name) = "pods.Delete"
handler_of (get_pod_logs namespace name container tail_lines) = "pods.Logs"
handler_of (diagnose_pod namespace name) = "diag.DiagnosePod"
handler_of (diagnose_workload kind namespace name) = "diag.DiagnoseWorkload"
handler_of get_server_config = "config"
handler_of (explain_finding req) = "diag.ExplainFinding"

-- The segments of the path that come from the arguments.
abbrev pub names_of : (String → String) → Call → List String
names_of encode list_nodes = []
names_of encode (get_node name) = name ∷ []
names_of encode (cordon_node name) = name ∷ []
names_of encode (uncordon_node name) = name ∷ []
names_of encode (get_drain_plan name) = name ∷ []
names_of encode (drain_node name opts) = name ∷ []
names_of encode (set_node_labels name labels) = name ∷ []
names_of encode (add_node_taint name taint) = name ∷ []
names_of encode (remove_node_taint name key) = name ∷ key ∷ []
names_of encode (list_pods namespace) = given namespace
names_of encode (get_pod namespace name) = namespace ∷ name ∷ []
names_of encode (delete_pod namespace name) = namespace ∷ name ∷ []
names_of encode (get_pod_logs namespace name container tail_lines) = namespace ∷ name ∷ []
names_of encode (diagnose_pod namespace name) = namespace ∷ name ∷ []
names_of encode (diagnose_workload kind namespace name) = kind ∷ namespace ∷ name ∷ []
names_of encode get_server_config = []
names_of encode (explain_finding req) = []

module _ (router : Router) (r : IsRouter router) (encode : String → String) where
  pub Served-Nodes :
      (c : Call)
      → All IsSegment (names_of encode c)
      → Served router (request_of encode c) (handler_of c)
  unfolding matching workload_routes config_routes helm_routes console_routes report_routes
      auth_routes engine_routes routes segments_of pieces Nodes.list_nodes Nodes.get_node
      Nodes.cordon_node Nodes.uncordon_node Nodes.get_drain_plan Nodes.drain_node
      Nodes.set_node_labels Nodes.add_node_taint Nodes.remove_node_taint Nodes.list_pods
      Nodes.get_pod Nodes.delete_pod Nodes.get_pod_logs Nodes.diagnose_pod Nodes.diagnose_workload
      Nodes.get_server_config Nodes.explain_finding
  Served-Nodes list_nodes h = fetch-Served router r get ("nodes" ∷ []) "nodes.List" (refl, tt) refl
  Served-Nodes (get_node name) (h0, _) =
      fetch-Served router r get ("nodes" ∷ name ∷ []) "nodes.Get" (refl, (h0, tt)) refl
  Served-Nodes (cordon_node name) (h0, _) =
      fetch-Served router r post ("nodes" ∷ name ∷ "cordon" ∷ []) "nodes.Cordon"
        (refl, (h0, (refl, tt))) refl
  Served-Nodes (uncordon_node name) (h0, _) =
      fetch-Served router r post ("nodes" ∷ name ∷ "uncordon" ∷ []) "nodes.Uncordon"
        (refl, (h0, (refl, tt))) refl
  Served-Nodes (get_drain_plan name) (h0, _) =
      fetch-Served router r get ("nodes" ∷ name ∷ "drain-plan" ∷ []) "nodes.DrainPlan"
        (refl, (h0, (refl, tt))) refl
  Served-Nodes (drain_node name opts) (h0, _) =
      fetch-Served router r post ("nodes" ∷ name ∷ "drain" ∷ []) "nodes.Drain"
        (refl, (h0, (refl, tt))) refl
  Served-Nodes (set_node_labels name labels) (h0, _) =
      fetch-Served router r put ("nodes" ∷ name ∷ "labels" ∷ []) "nodes.SetLabels"
        (refl, (h0, (refl, tt))) refl
  Served-Nodes (add_node_taint name taint) (h0, _) =
      fetch-Served router r post ("nodes" ∷ name ∷ "taint" ∷ []) "nodes.AddTaint"
        (refl, (h0, (refl, tt))) refl
  Served-Nodes (remove_node_taint name key) (h0, (h1, _)) =
      fetch-Served router r delete ("nodes" ∷ name ∷ "taint" ∷ key ∷ []) "nodes.RemoveTaint"
        (refl, (h0, (refl, (h1, tt)))) refl
  Served-Nodes (list_pods namespace) h =
      scoped-Served router namespace _ _ "pods.ListNamespaced" "pods.List" h
        (λ ns n.
          fetch-Served router r get ("namespaces" ∷ ns ∷ "pods" ∷ []) "pods.ListNamespaced"
            (refl, (n, (refl, tt))) refl)
        (fetch-Served router r get ("pods" ∷ []) "pods.List" (refl, tt) refl)
  Served-Nodes (get_pod namespace name) (h0, (h1, _)) =
      fetch-Served router r get ("namespaces" ∷ namespace ∷ "pods" ∷ name ∷ []) "pods.Get"
        (refl, (h0, (refl, (h1, tt)))) refl
  Served-Nodes (delete_pod namespace name) (h0, (h1, _)) =
      fetch-Served router r delete ("namespaces" ∷ namespace ∷ "pods" ∷ name ∷ []) "pods.Delete"
        (refl, (h0, (refl, (h1, tt)))) refl
  Served-Nodes (get_pod_logs namespace name container tail_lines) (h0, (h1, _)) =
      fetch-Served router r get ("namespaces" ∷ namespace ∷ "pods" ∷ name ∷ "logs" ∷ []) "pods.Logs"
        (refl, (h0, (refl, (h1, (refl, tt))))) refl
  Served-Nodes (diagnose_pod namespace name) (h0, (h1, _)) =
      fetch-Served router r get ("diagnose" ∷ "pod" ∷ namespace ∷ name ∷ []) "diag.DiagnosePod"
        (refl, (refl, (h0, (h1, tt)))) refl
  Served-Nodes (diagnose_workload kind namespace name) (h0, (h1, (h2, _))) =
      fetch-Served router r get ("diagnose" ∷ "workload" ∷ kind ∷ namespace ∷ name ∷ [])
        "diag.DiagnoseWorkload" (refl, (refl, (h0, (h1, (h2, tt))))) refl
  Served-Nodes get_server_config h =
      fetch-Served router r get ("auth" ∷ "config" ∷ []) "config" (refl, (refl, tt)) refl
  Served-Nodes (explain_finding req) h =
      fetch-Served router r post ("diagnose" ∷ "explain" ∷ []) "diag.ExplainFinding"
        (refl, (refl, tt)) refl
