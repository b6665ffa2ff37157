-- ===== src/Api/Reports.antt =====
-- Calls of web/src/api/client.ts: reports, audits, forwarding, accounts, quotas and webhooks.
use skyvirt_kubeui.Prelude.{ℕ, String, Option, [], ◌∷◌}
use skyvirt_kubeui.Json.{Json}
use skyvirt_kubeui.Api.{Request, post, put, delete, fetch, act, send, scoped}

unfoldable pub scan_deprecated_apis : Request
scan_deprecated_apis = fetch ("upgrade" ∷ "api-scan" ∷ [])

unfoldable pub get_upgrade_readiness : Request
get_upgrade_readiness = fetch ("upgrade" ∷ "readiness" ∷ [])

unfoldable pub scan_cert_expiry : Request
scan_cert_expiry = fetch ("certs" ∷ "expiry" ∷ [])

unfoldable pub vuln_status : Request
vuln_status = fetch ("vuln" ∷ "status" ∷ [])

unfoldable pub list_vuln_reports : Request
list_vuln_reports = fetch ("vuln" ∷ "reports" ∷ [])

unfoldable pub get_exposure : Request
get_exposure = fetch ("security" ∷ "exposure" ∷ [])

unfoldable pub get_netpol_coverage : Request
get_netpol_coverage = fetch ("security" ∷ "netpol-coverage" ∷ [])

unfoldable pub get_cluster_health : Request
get_cluster_health = fetch ("cluster" ∷ "health" ∷ [])

unfoldable pub get_rightsize : Request
get_rightsize = fetch ("cluster" ∷ "rightsize" ∷ [])

unfoldable pub get_probes : Request
get_probes = fetch ("cluster" ∷ "probes" ∷ [])

unfoldable pub get_availability : Request
get_availability = fetch ("cluster" ∷ "availability" ∷ [])

unfoldable pub get_orphans : Request
get_orphans = fetch ("cluster" ∷ "orphans" ∷ [])

unfoldable pub list_image_audit : Request
list_image_audit = fetch ("security" ∷ "image-audit" ∷ [])

unfoldable pub list_workload_audit : Request
list_workload_audit = fetch ("security" ∷ "workload-audit" ∷ [])

unfoldable pub forward_security : Json ℕ → Request
forward_security content = send post ("forward" ∷ "security" ∷ []) content

unfoldable pub get_forward_config : Request
get_forward_config = fetch ("forward" ∷ "config" ∷ [])

unfoldable pub put_forward_config : Json ℕ → Request
put_forward_config cfg = send put ("forward" ∷ "config" ∷ []) cfg

unfoldable pub access_review : Json ℕ → Request
access_review content = send post ("rbac" ∷ "access-review" ∷ []) content

unfoldable pub list_risky_bindings : Request
list_risky_bindings = fetch ("rbac" ∷ "risky-bindings" ∷ [])

unfoldable pub list_admin_reach : Request
list_admin_reach = fetch ("rbac" ∷ "admin-reach" ∷ [])

unfoldable pub list_service_accounts : Option String → Request
list_service_accounts namespace =
    scoped namespace (λ ns. fetch ("namespaces" ∷ ns ∷ "serviceaccounts" ∷ []))
      (fetch ("serviceaccounts" ∷ []))

unfoldable pub delete_service_account : String → String → Request
delete_service_account namespace name =
    act delete ("namespaces" ∷ namespace ∷ "serviceaccounts" ∷ name ∷ [])

unfoldable pub list_resource_quotas : Option String → Request
list_resource_quotas namespace =
    scoped namespace (λ ns. fetch ("namespaces" ∷ ns ∷ "resourcequotas" ∷ []))
      (fetch ("resourcequotas" ∷ []))

unfoldable pub delete_resource_quota : String → String → Request
delete_resource_quota namespace name =
    act delete ("namespaces" ∷ namespace ∷ "resourcequotas" ∷ name ∷ [])

unfoldable pub list_pdbs : Option String → Request
list_pdbs namespace =
    scoped namespace (λ ns. fetch ("namespaces" ∷ ns ∷ "pdbs" ∷ [])) (fetch ("pdbs" ∷ []))

unfoldable pub delete_pdb : String → String → Request
delete_pdb namespace name = act delete ("namespaces" ∷ namespace ∷ "pdbs" ∷ name ∷ [])

unfoldable pub list_priority_classes : Request
list_priority_classes = fetch ("priorityclasses" ∷ [])

unfoldable pub delete_priority_class : String → Request
delete_priority_class name = act delete ("priorityclasses" ∷ name ∷ [])

unfoldable pub list_validating_webhooks : Request
list_validating_webhooks = fetch ("webhooks" ∷ "validating" ∷ [])

unfoldable pub list_mutating_webhooks : Request
list_mutating_webhooks = fetch ("webhooks" ∷ "mutating" ∷ [])

unfoldable pub delete_validating_webhook : String → Request
delete_validating_webhook name = act delete ("webhooks" ∷ "validating" ∷ name ∷ [])

unfoldable pub delete_mutating_webhook : String → Request
delete_mutating_webhook name = act delete ("webhooks" ∷ "mutating" ∷ name ∷ [])

unfoldable pub list_endpoints : Option String → Request
list_endpoints namespace =
    scoped namespace (λ ns. fetch ("namespaces" ∷ ns ∷ "endpoints" ∷ [])) (fetch ("endpoints" ∷ []))

unfoldable pub list_limit_ranges : Option String → Request
list_limit_ranges namespace =
    scoped namespace (λ ns. fetch ("namespaces" ∷ ns ∷ "limitranges" ∷ []))
      (fetch ("limitranges" ∷ []))
