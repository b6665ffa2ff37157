-- ===== src/Api/Served/Reports.antt =====
-- The calls of `Api.Reports`, with the handler that each is meant for.
use skyvirt_kubeui.Prelude.{ℕ, String, refl, Option, List, [], ◌∷◌, All}
use skyvirt_kubeui.Json.{Json}
use skyvirt_kubeui.Api.{Request, get, post, put, delete}
use skyvirt_kubeui.Api.Reports
use skyvirt_kubeui.Prelude.Text.{pieces}
use skyvirt_kubeui.Api.Paths.{IsSegment, segments_of}
use skyvirt_kubeui.Api.Router.{matching}
use skyvirt_kubeui.Api.Router.Workloads.{workload_routes, config_routes}
use skyvirt_kubeui.Api.Router.Console.{
  helm_routes, console_routes, report_routes, auth_routes, engine_routes, routes,
}
use skyvirt_kubeui.Api.Served.Serving.{
  Router, IsRouter, Served, given, of_scope, fetch-Served, scoped-Served,
}

pub data Call : Type 0 where
  scan_deprecated_apis : Call
  get_upgrade_readiness : Call
  scan_cert_expiry : Call
  vuln_status : Call
  list_vuln_reports : Call
  get_exposure : Call
  get_netpol_coverage : Call
  get_cluster_health : Call
  get_rightsize : Call
  get_probes : Call
  get_availability : Call
  get_orphans : Call
  list_image_audit : Call
  list_workload_audit : Call
  forward_security : Json ℕ → Call
  get_forward_config : Call
  put_forward_config : Json ℕ → Call
  access_review : Json ℕ → Call
  list_risky_bindings : Call
  list_admin_reach : Call
  list_service_accounts : Option String → Call
  delete_service_account : String → String → Call
  list_resource_quotas : Option String → Call
  delete_resource_quota : String → String → Call
  list_pdbs : Option String → Call
  delete_pdb : String → String → Call
  list_priority_classes : Call
  delete_priority_class : String → Call
  list_validating_webhooks : Call
  list_mutating_webhooks : Call
  delete_validating_webhook : String → Call
  delete_mutating_webhook : String → Call
  list_endpoints : Option String → Call
  list_limit_ranges : Option String → Call

abbrev pub request_of : (String → String) → Call → Request
request_of encode scan_deprecated_apis = Reports.scan_deprecated_apis
request_of encode get_upgrade_readiness = Reports.get_upgrade_readiness
request_of encode scan_cert_expiry = Reports.scan_cert_expiry
request_of encode vuln_status = Reports.vuln_status
request_of encode list_vuln_reports = Reports.list_vuln_reports
request_of encode get_exposure = Reports.get_exposure
request_of encode get_netpol_coverage = Reports.get_netpol_coverage
request_of encode get_cluster_health = Reports.get_cluster_health
request_of encode get_rightsize = Reports.get_rightsize
request_of encode get_probes = Reports.get_probes
request_of encode get_availability = Reports.get_availability
request_of encode get_orphans = Reports.get_orphans
request_of encode list_image_audit = Reports.list_image_audit
request_of encode list_workload_audit = Reports.list_workload_audit
request_of encode (forward_security content) = Reports.forward_security content
request_of encode get_forward_config = Reports.get_forward_config
request_of encode (put_forward_config cfg) = Reports.put_forward_config cfg
request_of encode (access_review content) = Reports.access_review content
request_of encode list_risky_bindings = Reports.list_risky_bindings
request_of encode list_admin_reach = Reports.list_admin_reach
request_of encode (list_service_accounts namespace) = Reports.list_service_accounts namespace
request_of encode (delete_service_account namespace name) =
    Reports.delete_service_account namespace name
request_of encode (list_resource_quotas namespace) = Reports.list_resource_quotas namespace
request_of encode (delete_resource_quota namespace name) =
    Reports.delete_resource_quota namespace name
request_of encode (list_pdbs namespace) = Reports.list_pdbs namespace
request_of encode (delete_pdb namespace name) = Reports.delete_pdb namespace name
request_of encode list_priority_classes = Reports.list_priority_classes
request_of encode (delete_priority_class name) = Reports.delete_priority_class name
request_of encode list_validating_webhooks = Reports.list_validating_webhooks
request_of encode list_mutating_webhooks = Reports.list_mutating_webhooks
request_of encode (delete_validating_webhook name) = Reports.delete_validating_webhook name
request_of encode (delete_mutating_webhook name) = Reports.delete_mutating_webhook name
request_of encode (list_endpoints namespace) = Reports.list_endpoints namespace
request_of encode (list_limit_ranges namespace) = Reports.list_limit_ranges namespace

abbrev pub handler_of : Call → String
handler_of scan_deprecated_apis = "upg.APIScan"
handler_of get_upgrade_readiness = "upg.Readiness"
handler_of scan_cert_expiry = "certs.Expiry"
handler_of vuln_status = "vuln.Status"
handler_of list_vuln_reports = "vuln.Reports"
handler_of get_exposure = "exposureHandler"
handler_of get_netpol_coverage = "netpolCoverageHandler"
handler_of get_cluster_health = "clusterHealthHandler"
handler_of get_rightsize = "rightsizeHandler"
handler_of get_probes = "probesHandler"
handler_of get_availability = "availabilityHandler"
handler_of get_orphans = "orphansHandler"
handler_of list_image_audit = "vuln.ImageAudit"
handler_of list_workload_audit = "vuln.WorkloadAudit"
handler_of (forward_security content) = "fwd.Security"
handler_of get_forward_config = "fwd.GetConfig"
handler_of (put_forward_config cfg) = "fwd.PutConfig"
handler_of (access_review content) = "arh.Check"
handler_of list_risky_bindings = "arh.Risky"
handler_of list_admin_reach = "arh.AdminReach"
handler_of (list_service_accounts namespace) = of_scope namespace "sa.ListNamespaced" "sa.List"
handler_of (delete_service_account namespace name) = "sa.Delete"
handler_of (list_resource_quotas namespace) = of_scope namespace "rq.ListNamespaced" "rq.List"
handler_of (delete_resource_quota namespace name) = "rq.Delete"
handler_of (list_pdbs namespace) = of_scope namespace "pdb.ListNamespaced" "pdb.List"
handler_of (delete_pdb namespace name) = "pdb.Delete"
handler_of list_priority_classes = "pc.List"
handler_of (delete_priority_class name) = "pc.Delete"
handler_of list_validating_webhooks = "wh.ListValidating"
handler_of list_mutating_webhooks = "wh.ListMutating"
handler_of (delete_validating_webhook name) = "wh.DeleteValidating"
handler_of (delete_mutating_webhook name) = "wh.DeleteMutating"
handler_of (list_endpoints namespace) = of_scope namespace "ep.ListNamespaced" "ep.List"
handler_of (list_limit_ranges namespace) = of_scope namespace "lr.ListNamespaced" "lr.List"

-- The segments of the path that come from the arguments.
abbrev pub names_of : (String → String) → Call → List String
names_of encode scan_deprecated_apis = []
names_of encode get_upgrade_readiness = []
names_of encode scan_cert_expiry = []
names_of encode vuln_status = []
names_of encode list_vuln_reports = []
names_of encode get_exposure = []
names_of encode get_netpol_coverage = []
names_of encode get_cluster_health = []
names_of encode get_rightsize = []
names_of encode get_probes = []
names_of encode get_availability = []
names_of encode get_orphans = []
names_of encode list_image_audit = []
names_of encode list_workload_audit = []
names_of encode (forward_security content) = []
names_of encode get_forward_config = []
names_of encode (put_forward_config cfg) = []
names_of encode (access_review content) = []
names_of encode list_risky_bindings = []
names_of encode list_admin_reach = []
names_of encode (list_service_accounts namespace) = given namespace
names_of encode (delete_service_account namespace name) = namespace ∷ name ∷ []
names_of encode (list_resource_quotas namespace) = given namespace
names_of encode (delete_resource_quota namespace name) = namespace ∷ name ∷ []
names_of encode (list_pdbs namespace) = given namespace
names_of encode (delete_pdb namespace name) = namespace ∷ name ∷ []
names_of encode list_priority_classes = []
names_of encode (delete_priority_class name) = name ∷ []
names_of encode list_validating_webhooks = []
names_of encode list_mutating_webhooks = []
names_of encode (delete_validating_webhook name) = name ∷ []
names_of encode (delete_mutating_webhook name) = name ∷ []
names_of encode (list_endpoints namespace) = given namespace
names_of encode (list_limit_ranges namespace) = given namespace

module _ (router : Router) (r : IsRouter router) (encode : String → String) where
  pub Served-Reports :
      (c : Call)
      → All IsSegment (names_of encode c)
      → Served router (request_of encode c) (handler_of c)
  unfolding matching workload_routes config_routes helm_routes console_routes report_routes
      auth_routes engine_routes routes segments_of pieces Reports.scan_deprecated_apis
      Reports.get_upgrade_readiness Reports.scan_cert_expiry Reports.vuln_status
      Reports.list_vuln_reports Reports.get_exposure Reports.get_netpol_coverage
      Reports.get_cluster_health Reports.get_rightsize Reports.get_probes Reports.get_availability
      Reports.get_orphans Reports.list_image_audit Reports.list_workload_audit
      Reports.forward_security Reports.get_forward_config Reports.put_forward_config
      Reports.access_review Reports.list_risky_bindings Reports.list_admin_reach
      Reports.list_service_accounts Reports.delete_service_account Reports.list_resource_quotas
      Reports.delete_resource_quota Reports.list_pdbs Reports.delete_pdb
      Reports.list_priority_classes Reports.delete_priority_class Reports.list_validating_webhooks
      Reports.list_mutating_webhooks Reports.delete_validating_webhook
      Reports.delete_mutating_webhook Reports.list_endpoints Reports.list_limit_ranges
  Served-Reports scan_deprecated_apis h =
      fetch-Served router r get ("upgrade" ∷ "api-scan" ∷ []) "upg.APIScan" (refl, (refl, tt)) refl
  Served-Reports get_upgrade_readiness h =
      fetch-Served router r get ("upgrade" ∷ "readiness" ∷ []) "upg.Readiness" (refl, (refl, tt))
        refl
  Served-Reports scan_cert_expiry h =
      fetch-Served router r get ("certs" ∷ "expiry" ∷ []) "certs.Expiry" (refl, (refl, tt)) refl
  Served-Reports vuln_status h =
      fetch-Served router r get ("vuln" ∷ "status" ∷ []) "vuln.Status" (refl, (refl, tt)) refl
  Served-Reports list_vuln_reports h =
      fetch-Served router r get ("vuln" ∷ "reports" ∷ []) "vuln.Reports" (refl, (refl, tt)) refl
  Served-Reports get_exposure h =
      fetch-Served router r get ("security" ∷ "exposure" ∷ []) "exposureHandler" (refl, (refl, tt))
        refl
  Served-Reports get_netpol_coverage h =
      fetch-Served router r get ("security" ∷ "netpol-coverage" ∷ []) "netpolCoverageHandler"
        (refl, (refl, tt)) refl
  Served-Reports get_cluster_health h =
      fetch-Served router r get ("cluster" ∷ "health" ∷ []) "clusterHealthHandler"
        (refl, (refl, tt)) refl
  Served-Reports get_rightsize h =
      fetch-Served router r get ("cluster" ∷ "rightsize" ∷ []) "rightsizeHandler" (refl, (refl, tt))
        refl
  Served-Reports get_probes h =
      fetch-Served router r get ("cluster" ∷ "probes" ∷ []) "probesHandler" (refl, (refl, tt)) refl
  Served-Reports get_availability h =
      fetch-Served router r get ("cluster" ∷ "availability" ∷ []) "availabilityHandler"
        (refl, (refl, tt)) refl
  Served-Reports get_orphans h =
      fetch-Served router r get ("cluster" ∷ "orphans" ∷ []) "orphansHandler" (refl, (refl, tt))
        refl
  Served-Reports list_image_audit h =
      fetch-Served router r get ("security" ∷ "image-audit" ∷ []) "vuln.ImageAudit"
        (refl, (refl, tt)) refl
  Served-Reports list_workload_audit h =
      fetch-Served router r get ("security" ∷ "workload-audit" ∷ []) "vuln.WorkloadAudit"
        (refl, (refl, tt)) refl
  Served-Reports (forward_security content) h =
      fetch-Served router r post ("forward" ∷ "security" ∷ []) "fwd.Security" (refl, (refl, tt))
        refl
  Served-Reports get_forward_config h =
      fetch-Served router r get ("forward" ∷ "config" ∷ []) "fwd.GetConfig" (refl, (refl, tt)) refl
  Served-Reports (put_forward_config cfg) h =
      fetch-Served router r put ("forward" ∷ "config" ∷ []) "fwd.PutConfig" (refl, (refl, tt)) refl
  Served-Reports (access_review content) h =
      fetch-Served router r post ("rbac" ∷ "access-review" ∷ []) "arh.Check" (refl, (refl, tt)) refl
  Served-Reports list_risky_bindings h =
      fetch-Served router r get ("rbac" ∷ "risky-bindings" ∷ []) "arh.Risky" (refl, (refl, tt)) refl
  Served-Reports list_admin_reach h =
      fetch-Served router r get ("rbac" ∷ "admin-reach" ∷ []) "arh.AdminReach" (refl, (refl, tt))
        refl
  Served-Reports (list_service_accounts namespace) h =
      scoped-Served router namespace _ _ "sa.ListNamespaced" "sa.List" h
        (λ ns n.
          fetch-Served router r get ("namespaces" ∷ ns ∷ "serviceaccounts" ∷ []) "sa.ListNamespaced"
            (refl, (n, (refl, tt))) refl)
        (fetch-Served router r get ("serviceaccounts" ∷ []) "sa.List" (refl, tt) refl)
  Served-Reports (delete_service_account namespace name) (h0, (h1, _)) =
      fetch-Served router r delete ("namespaces" ∷ namespace ∷ "serviceaccounts" ∷ name ∷ [])
        "sa.Delete" (refl, (h0, (refl, (h1, tt)))) refl
  Served-Reports (list_resource_quotas namespace) h =
      scoped-Served router namespace _ _ "rq.ListNamespaced" "rq.List" h
        (λ ns n.
          fetch-Served router r get ("namespaces" ∷ ns ∷ "resourcequotas" ∷ []) "rq.ListNamespaced"
            (refl, (n, (refl, tt))) refl)
        (fetch-Served router r get ("resourcequotas" ∷ []) "rq.List" (refl, tt) refl)
  Served-Reports (delete_resource_quota namespace name) (h0, (h1, _)) =
      fetch-Served router r delete ("namespaces" ∷ namespace ∷ "resourcequotas" ∷ name ∷ [])
        "rq.Delete" (refl, (h0, (refl, (h1, tt)))) refl
  Served-Reports (list_pdbs namespace) h =
      scoped-Served router namespace _ _ "pdb.ListNamespaced" "pdb.List" h
        (λ ns n.
          fetch-Served router r get ("namespaces" ∷ ns ∷ "pdbs" ∷ []) "pdb.ListNamespaced"
            (refl, (n, (refl, tt))) refl)
        (fetch-Served router r get ("pdbs" ∷ []) "pdb.List" (refl, tt) refl)
  Served-Reports (delete_pdb namespace name) (h0, (h1, _)) =
      fetch-Served router r delete ("namespaces" ∷ namespace ∷ "pdbs" ∷ name ∷ []) "pdb.Delete"
        (refl, (h0, (refl, (h1, tt)))) refl
  Served-Reports list_priority_classes h =
      fetch-Served router r get ("priorityclasses" ∷ []) "pc.List" (refl, tt) refl
  Served-Reports (delete_priority_class name) (h0, _) =
      fetch-Served router r delete ("priorityclasses" ∷ name ∷ []) "pc.Delete" (refl, (h0, tt)) refl
  Served-Reports list_validating_webhooks h =
      fetch-Served router r get ("webhooks" ∷ "validating" ∷ []) "wh.ListValidating"
        (refl, (refl, tt)) refl
  Served-Reports list_mutating_webhooks h =
      fetch-Served router r get ("webhooks" ∷ "mutating" ∷ []) "wh.ListMutating" (refl, (refl, tt))
        refl
  Served-Reports (delete_validating_webhook name) (h0, _) =
      fetch-Served router r delete ("webhooks" ∷ "validating" ∷ name ∷ []) "wh.DeleteValidating"
        (refl, (refl, (h0, tt))) refl
  Served-Reports (delete_mutating_webhook name) (h0, _) =
      fetch-Served router r delete ("webhooks" ∷ "mutating" ∷ name ∷ []) "wh.DeleteMutating"
        (refl, (refl, (h0, tt))) refl
  Served-Reports (list_endpoints namespace) h =
      scoped-Served router namespace _ _ "ep.ListNamespaced" "ep.List" h
        (λ ns n.
          fetch-Served router r get ("namespaces" ∷ ns ∷ "endpoints" ∷ []) "ep.ListNamespaced"
            (refl, (n, (refl, tt))) refl)
        (fetch-Served router r get ("endpoints" ∷ []) "ep.List" (refl, tt) refl)
  Served-Reports (list_limit_ranges namespace) h =
      scoped-Served router namespace _ _ "lr.ListNamespaced" "lr.List" h
        (λ ns n.
          fetch-Served router r get ("namespaces" ∷ ns ∷ "limitranges" ∷ []) "lr.ListNamespaced"
            (refl, (n, (refl, tt))) refl)
        (fetch-Served router r get ("limitranges" ∷ []) "lr.List" (refl, tt) refl)
