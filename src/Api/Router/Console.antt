-- ===== src/Api/Router/Console.antt =====
-- Routes of internal/api/router.go: custom resources, Helm, audits and the generic operations.
use skyvirt_kubeui.Prelude.{List, [], ◌∷◌, ◌++◌, Bool, if◌then◌else◌}
use skyvirt_kubeui.Api.Router.Workloads.{workload_routes, config_routes}
use skyvirt_kubeui.Api.{get, post, put, delete}
use skyvirt_kubeui.Api.Router.{Route, route}

-- Custom resources, Helm, upgrades, access reviews, Velero, the catalog and GitOps.
unfoldable pub helm_routes : List Route
helm_routes =
    route get "/crds" "crd.List"
    ∷ route get "/crds/{group}/{version}/{resource}" "crd.ListInstances"
    ∷ route get "/namespaces/{namespace}/crds/{group}/{version}/{resource}"
        "crd.ListInstancesNamespaced"
    ∷ route get "/helm/releases" "hlm.List"
    ∷ route post "/helm/install" "hlm.Install"
    ∷ route post "/helm/install/preview" "hlm.InstallPreview"
    ∷ route get "/helm/search" "hlm.SearchRepo"
    ∷ route get "/namespaces/{namespace}/helm/releases" "hlm.ListNamespaced"
    ∷ route get "/namespaces/{namespace}/helm/releases/{name}" "hlm.Get"
    ∷ route put "/namespaces/{namespace}/helm/releases/{name}" "hlm.Upgrade"
    ∷ route post "/namespaces/{namespace}/helm/releases/{name}/upgrade/preview" "hlm.UpgradePreview"
    ∷ route delete "/namespaces/{namespace}/helm/releases/{name}" "hlm.Uninstall"
    ∷ route post "/namespaces/{namespace}/helm/releases/{name}/rollback" "hlm.Rollback"
    ∷ route get "/namespaces/{namespace}/helm/releases/{name}/values" "hlm.GetValues"
    ∷ route get "/namespaces/{namespace}/helm/releases/{name}/manifest" "hlm.GetManifest"
    ∷ route get "/namespaces/{namespace}/helm/releases/{name}/notes" "hlm.GetNotes"
    ∷ route get "/namespaces/{namespace}/helm/releases/{name}/history" "hlm.History"
    ∷ route get "/upgrade/api-scan" "upg.APIScan"
    ∷ route get "/upgrade/readiness" "upg.Readiness"
    ∷ route get "/certs/expiry" "certs.Expiry"
    ∷ route post "/rbac/access-review" "arh.Check"
    ∷ route get "/rbac/risky-bindings" "arh.Risky"
    ∷ route get "/rbac/admin-reach" "arh.AdminReach"
    ∷ route get "/velero/status" "vel.Status"
    ∷ route get "/velero/{resource}" "vel.List"
    ∷ route post "/velero/backups" "vel.CreateBackup"
    ∷ route post "/velero/schedules" "vel.CreateSchedule"
    ∷ route post "/velero/restores" "vel.CreateRestore"
    ∷ route delete "/velero/{resource}/{name}" "vel.Delete"
    ∷ route get "/helm/repos" "hlm.RepoList"
    ∷ route post "/helm/repos" "hlm.RepoAdd"
    ∷ route delete "/helm/repos/{name}" "hlm.RepoRemove"
    ∷ route get "/catalog/charts" "hlm.CatalogSearch"
    ∷ route get "/catalog/chart" "hlm.ChartShow"
    ∷ route post "/catalog/ai-values" "aiv.HelmValues"
    ∷ route post "/gitops/fetch" "git.Fetch"
    ∷ route get "/gitops/sources" "git.ListSources"
    ∷ route post "/gitops/sources" "git.CreateSource"
    ∷ route delete "/gitops/sources/{id}" "git.DeleteSource"
    ∷ route post "/gitops/sources/{id}/sync" "git.SyncSource"
    ∷ []

-- Vulnerabilities, forwarding, drift, accounts, quotas, webhooks, generic resources.
unfoldable pub console_routes : List Route
console_routes =
    route get "/vuln/status" "vuln.Status"
    ∷ route get "/vuln/reports" "vuln.Reports"
    ∷ route get "/security/workload-audit" "vuln.WorkloadAudit"
    ∷ route get "/security/image-audit" "vuln.ImageAudit"
    ∷ route post "/forward/security" "fwd.Security"
    ∷ route get "/forward/config" "fwd.GetConfig"
    ∷ route put "/forward/config" "fwd.PutConfig"
    ∷ route get "/drift/timeline" "drift.Timeline"
    ∷ route get "/drift/tracked" "drift.Tracked"
    ∷ route post "/drift/snapshot" "drift.SnapshotNow"
    ∷ route get "/serviceaccounts" "sa.List"
    ∷ route get "/namespaces/{namespace}/serviceaccounts" "sa.ListNamespaced"
    ∷ route delete "/namespaces/{namespace}/serviceaccounts/{name}" "sa.Delete"
    ∷ route get "/resourcequotas" "rq.List"
    ∷ route get "/namespaces/{namespace}/resourcequotas" "rq.ListNamespaced"
    ∷ route delete "/namespaces/{namespace}/resourcequotas/{name}" "rq.Delete"
    ∷ route get "/pdbs" "pdb.List"
    ∷ route get "/namespaces/{namespace}/pdbs" "pdb.ListNamespaced"
    ∷ route delete "/namespaces/{namespace}/pdbs/{name}" "pdb.Delete"
    ∷ route get "/priorityclasses" "pc.List"
    ∷ route delete "/priorityclasses/{name}" "pc.Delete"
    ∷ route get "/webhooks/validating" "wh.ListValidating"
    ∷ route get "/webhooks/mutating" "wh.ListMutating"
    ∷ route delete "/webhooks/validating/{name}" "wh.DeleteValidating"
    ∷ route delete "/webhooks/mutating/{name}" "wh.DeleteMutating"
    ∷ route get "/endpoints" "ep.List"
    ∷ route get "/namespaces/{namespace}/endpoints" "ep.ListNamespaced"
    ∷ route get "/limitranges" "lr.List"
    ∷ route get "/namespaces/{namespace}/limitranges" "lr.ListNamespaced"
    ∷ route put "/protect" "prot.Set"
    ∷ route get "/protect" "prot.Get"
    ∷ route post "/apply" "ap.Apply"
    ∷ route get "/resources/{kind}/namespaces/{namespace}/{name}" "ap.GetResource"
    ∷ route put "/resources/{kind}/namespaces/{namespace}/{name}" "ap.UpdateResource"
    ∷ route delete "/resources/{kind}/namespaces/{namespace}/{name}" "ap.DeleteResource"
    ∷ route get "/resources/{kind}/{name}" "ap.GetClusterResource"
    ∷ route put "/resources/{kind}/{name}" "ap.UpdateClusterResource"
    ∷ route delete "/resources/{kind}/{name}" "ap.DeleteClusterResource"
    ∷ route get "/namespaces/{namespace}/pods/{name}/exec" "ex.Exec"
    ∷ route get "/watch" "wat.Watch"
    ∷ route get "/diagnose/pod/{namespace}/{name}" "diag.DiagnosePod"
    ∷ route get "/diagnose/workload/{kind}/{namespace}/{name}" "diag.DiagnoseWorkload"
    ∷ route post "/diagnose/explain" "diag.ExplainFinding"
    ∷ []

-- Reports on the cluster, and the configuration of the server.
unfoldable pub report_routes : List Route
report_routes =
    route get "/auth/config" "config"
    ∷ route get "/audit" "auditHandler"
    ∷ route get "/security/posture" "securityPostureHandler"
    ∷ route get "/cluster/health" "clusterHealthHandler"
    ∷ route get "/cluster/orphans" "orphansHandler"
    ∷ route get "/cluster/rightsize" "rightsizeHandler"
    ∷ route get "/cluster/availability" "availabilityHandler"
    ∷ route get "/cluster/probes" "probesHandler"
    ∷ route get "/security/exposure" "exposureHandler"
    ∷ route get "/security/netpol-coverage" "netpolCoverageHandler"
    ∷ []

-- The routes that are registered with a proxy for authentication.
unfoldable pub auth_routes : List Route
auth_routes =
    route post "/auth/login" "authProxy.Login"
    ∷ route post "/auth/refresh" "authProxy.Refresh"
    ∷ route get "/auth/me" "authProxy.Me"
    ∷ []

-- The routes that are registered with an engine and a cluster.
unfoldable pub engine_routes : List Route
engine_routes =
    route get "/l2-networks" "engine.l2-networks"
    ∷ route get "/host-interfaces" "engine.host-interfaces"
    ∷ []

-- All routes, with a proxy for authentication or not, and with an engine or not.
unfoldable pub routes : Bool → Bool → List Route
routes auth_proxy engine =
    workload_routes
    ++ (config_routes
        ++ (helm_routes
            ++ (console_routes
                ++ (report_routes
                    ++ ((if auth_proxy then auth_routes else [])
                        ++ (if engine then engine_routes else []))))))
