-- ===== src/Api/Served.antt =====
-- Every call of the client is served: web/src/api/client.ts against internal/api/router.go.
pub mod Serving
pub mod Nodes
pub mod Workloads
pub mod Config
pub mod Helm
pub mod Reports
pub mod Manage
use Prim.Native.String.{◌++◌}
use text.Mathlib.TextLemmas.{append_assoc}
use skyvirt_kubeui.Prelude.{
  Bool, String, ◌≡◌, refl, sym, ap, ◌∙◌, true, false, none, some, List, [], ◌∷◌, All, Option,
}
use skyvirt_kubeui.Api.{Request, get, delete, path_of}
use skyvirt_kubeui.Api.Nodes.{remove_node_taint}
use skyvirt_kubeui.Api.Manage.{list_hci_l2_networks, list_hci_host_interfaces}
use skyvirt_kubeui.Prelude.Text.{pieces}
use skyvirt_kubeui.Api.Paths.{
  IsSegment, segments_of, segments_of-path_of, path_of-cons, path_of-slash,
}
use skyvirt_kubeui.Api.Router.{matching}
use skyvirt_kubeui.Api.Router.Workloads.{workload_routes, config_routes}
use skyvirt_kubeui.Api.Router.Console.{
  helm_routes, console_routes, report_routes, auth_routes, engine_routes, routes,
}
use skyvirt_kubeui.Api.Served.Serving.{Router, IsRouter, Served}
use skyvirt_kubeui.Api.Served.Nodes
use skyvirt_kubeui.Api.Served.Workloads
use skyvirt_kubeui.Api.Served.Config
use skyvirt_kubeui.Api.Served.Helm
use skyvirt_kubeui.Api.Served.Reports
use skyvirt_kubeui.Api.Served.Manage

-- A call of any function of the client.
pub data Call : Type 0 where
  nodes : Nodes.Call → Call
  workloads : Workloads.Call → Call
  config : Config.Call → Call
  helm : Helm.Call → Call
  reports : Reports.Call → Call
  manage : Manage.Call → Call

abbrev pub request_of : (String → String) → Call → Request
request_of encode (nodes c) = Nodes.request_of encode c
request_of encode (workloads c) = Workloads.request_of encode c
request_of encode (config c) = Config.request_of encode c
request_of encode (helm c) = Helm.request_of encode c
request_of encode (reports c) = Reports.request_of encode c
request_of encode (manage c) = Manage.request_of encode c

abbrev pub handler_of : Call → String
handler_of (nodes c) = Nodes.handler_of c
handler_of (workloads c) = Workloads.handler_of c
handler_of (config c) = Config.handler_of c
handler_of (helm c) = Helm.handler_of c
handler_of (reports c) = Reports.handler_of c
handler_of (manage c) = Manage.handler_of c

abbrev pub names_of : (String → String) → Call → List String
names_of encode (nodes c) = Nodes.names_of encode c
names_of encode (workloads c) = Workloads.names_of encode c
names_of encode (config c) = Config.names_of encode c
names_of encode (helm c) = Helm.names_of encode c
names_of encode (reports c) = Reports.names_of encode c
names_of encode (manage c) = Manage.names_of encode c

-- Every request that the client makes reaches the handler that it is meant for, if the names in
-- its path are segments: not empty, and without a slash, a question mark, a hash or a percent
-- sign. The server has a proxy for authentication and an engine.
pub request_of-Served :
    (router : Router)
    → IsRouter router
    → (encode : String → String) (c : Call) → All IsSegment (names_of encode c)
    → Served router (request_of encode c) (handler_of c)
request_of-Served router r encode (nodes c) h = Nodes.Served-Nodes router r encode c h
request_of-Served router r encode (workloads c) h = Workloads.Served-Workloads router r encode c h
request_of-Served router r encode (config c) h = Config.Served-Config router r encode c h
request_of-Served router r encode (helm c) h = Helm.Served-Helm router r encode c h
request_of-Served router r encode (reports c) h = Reports.Served-Reports router r encode c h
request_of-Served router r encode (manage c) h = Manage.Served-Manage router r encode c h

taint_path :
    (node domain key : String)
    → (remove_node_taint node (domain ++ ("/" ++ key))).path
      ≡ path_of ("nodes" ∷ node ∷ "taint" ∷ domain ∷ key ∷ [])
unfolding remove_node_taint
taint_path node domain key =
    path_of-cons "nodes" _ _
      (path_of-cons node _ _ (path_of-cons "taint" _ _ (path_of-slash domain key [])))

taint_unmatched :
    (node domain key : String)
    → matching delete ("nodes" ∷ node ∷ "taint" ∷ domain ∷ key ∷ []) (routes true true) ≡ []
unfolding matching workload_routes config_routes helm_routes console_routes report_routes
    auth_routes engine_routes routes segments_of pieces
taint_unmatched node domain key = refl

-- The removal of a taint whose key has a domain, such as `node.kubernetes.io/out-of-service`, is
-- matched by no route of the server: the key makes two segments of the path.
pub remove_node_taint-unmatched :
    (node domain key : String)
    → IsSegment node
    → IsSegment domain
    → IsSegment key
    → matching delete
        (segments_of (remove_node_taint node (domain ++ ("/" ++ key))).path)
        (routes true true)
      ≡ []
remove_node_taint-unmatched node domain key hn hd hk =
    ap (λ segments. matching delete segments (routes true true))
      (ap segments_of (taint_path node domain key)
        ∙ segments_of-path_of _ (refl, (hn, (refl, (hd, (hk, tt))))))
    ∙ taint_unmatched node domain key

-- Without an engine the server has no route for the networks and the interfaces of the platform.
pub list_hci-unmatched :
    (auth_proxy : Bool)
    → (matching get (segments_of list_hci_l2_networks.path) (routes auth_proxy false) ≡ [])
      × (matching get (segments_of list_hci_host_interfaces.path) (routes auth_proxy false) ≡ [])
unfolding list_hci_l2_networks list_hci_host_interfaces matching workload_routes config_routes
    helm_routes console_routes report_routes auth_routes engine_routes routes path_of segments_of
    pieces
list_hci-unmatched true = (refl, refl)
list_hci-unmatched false = (refl, refl)
