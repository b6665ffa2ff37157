-- ===== src/Api/Router/Workloads.antt =====
-- Routes of internal/api/router.go: nodes, workloads, configuration and network.
use skyvirt_kubeui.Prelude.{List, [], ◌∷◌}
use skyvirt_kubeui.Api.{get, post, put, patch, delete}
use skyvirt_kubeui.Api.Router.{Route, route}

-- Nodes, pods, deployments, stateful sets, daemon sets, services, namespaces, events, metrics.
unfoldable pub workload_routes : List Route
workload_routes =
    route get "/nodes" "nodes.List"
    ∷ route get "/nodes/{name}" "nodes.Get"
    ∷ route post "/nodes/{name}/cordon" "nodes.Cordon"
    ∷ route post "/nodes/{name}/uncordon" "nodes.Uncordon"
    ∷ route get "/nodes/{name}/drain-plan" "nodes.DrainPlan"
    ∷ route post "/nodes/{name}/drain" "nodes.Drain"
    ∷ route put "/nodes/{name}/labels" "nodes.SetLabels"
    ∷ route post "/nodes/{name}/taint" "nodes.AddTaint"
    ∷ route delete "/nodes/{name}/taint/{key}" "nodes.RemoveTaint"
    ∷ route get "/pods" "pods.List"
    ∷ route get "/namespaces/{namespace}/pods" "pods.ListNamespaced"
    ∷ route get "/namespaces/{namespace}/pods/{name}" "pods.Get"
    ∷ route delete "/namespaces/{namespace}/pods/{name}" "pods.Delete"
    ∷ route get "/namespaces/{namespace}/pods/{name}/logs" "pods.Logs"
    ∷ route get "/deployments" "deps.List"
    ∷ route get "/namespaces/{namespace}/deployments" "deps.ListNamespaced"
    ∷ route get "/namespaces/{namespace}/deployments/{name}" "deps.Get"
    ∷ route post "/namespaces/{namespace}/deployments/{name}/scale" "deps.Scale"
    ∷ route post "/namespaces/{namespace}/deployments/{name}/restart" "deps.Restart"
    ∷ route post "/namespaces/{namespace}/deployments/{name}/rollback" "deps.Rollback"
    ∷ route delete "/namespaces/{namespace}/deployments/{name}" "deps.Delete"
    ∷ route get "/namespaces/{namespace}/deployments/{name}/replicasets" "deps.ListReplicaSets"
    ∷ route get "/statefulsets" "sts.List"
    ∷ route get "/namespaces/{namespace}/statefulsets" "sts.ListNamespaced"
    ∷ route post "/namespaces/{namespace}/statefulsets/{name}/scale" "sts.Scale"
    ∷ route post "/namespaces/{namespace}/statefulsets/{name}/restart" "sts.Restart"
    ∷ route delete "/namespaces/{namespace}/statefulsets/{name}" "sts.Delete"
    ∷ route get "/daemonsets" "ds.List"
    ∷ route get "/namespaces/{namespace}/daemonsets" "ds.ListNamespaced"
    ∷ route post "/namespaces/{namespace}/daemonsets/{name}/restart" "ds.Restart"
    ∷ route delete "/namespaces/{namespace}/daemonsets/{name}" "ds.Delete"
    ∷ route get "/services" "svcs.List"
    ∷ route get "/namespaces/{namespace}/services" "svcs.ListNamespaced"
    ∷ route get "/namespaces/{namespace}/services/{name}" "svcs.Get"
    ∷ route post "/namespaces/{namespace}/services" "svcs.Create"
    ∷ route delete "/namespaces/{namespace}/services/{name}" "svcs.Delete"
    ∷ route get "/namespaces" "ns.List"
    ∷ route post "/namespaces" "ns.Create"
    ∷ route delete "/namespaces/{name}" "ns.Delete"
    ∷ route get "/namespaces/{name}/resources" "ns.Resources"
    ∷ route get "/events" "ev.List"
    ∷ route get "/namespaces/{namespace}/events" "ev.ListNamespaced"
    ∷ route get "/metrics/nodes" "met.TopNodes"
    ∷ route get "/metrics/pods" "met.TopPods"
    ∷ route get "/namespaces/{namespace}/metrics/pods" "met.TopPodsNamespaced"
    ∷ []

-- Configuration, ingresses, access rules, storage, network policies, scaling, jobs.
unfoldable pub config_routes : List Route
config_routes =
    route get "/configmaps" "cm.List"
    ∷ route get "/namespaces/{namespace}/configmaps" "cm.ListNamespaced"
    ∷ route get "/namespaces/{namespace}/configmaps/{name}" "cm.Get"
    ∷ route post "/namespaces/{namespace}/configmaps" "cm.Create"
    ∷ route put "/namespaces/{namespace}/configmaps/{name}" "cm.Update"
    ∷ route delete "/namespaces/{namespace}/configmaps/{name}" "cm.Delete"
    ∷ route get "/secrets" "sec.List"
    ∷ route get "/namespaces/{namespace}/secrets" "sec.ListNamespaced"
    ∷ route get "/namespaces/{namespace}/secrets/{name}" "sec.Get"
    ∷ route post "/namespaces/{namespace}/secrets" "sec.Create"
    ∷ route put "/namespaces/{namespace}/secrets/{name}" "sec.Update"
    ∷ route delete "/namespaces/{namespace}/secrets/{name}" "sec.Delete"
    ∷ route get "/ingresses" "ing.List"
    ∷ route get "/namespaces/{namespace}/ingresses" "ing.ListNamespaced"
    ∷ route get "/namespaces/{namespace}/ingresses/{name}" "ing.Get"
    ∷ route delete "/namespaces/{namespace}/ingresses/{name}" "ing.Delete"
    ∷ route get "/clusterroles" "rb.ListClusterRoles"
    ∷ route get "/namespaces/{namespace}/roles" "rb.ListRoles"
    ∷ route get "/clusterrolebindings" "rb.ListClusterRoleBindings"
    ∷ route get "/namespaces/{namespace}/rolebindings" "rb.ListRoleBindings"
    ∷ route get "/pvs" "stor.ListPVs"
    ∷ route post "/pvs" "stor.CreatePV"
    ∷ route delete "/pvs/{name}" "stor.DeletePV"
    ∷ route get "/pvcs" "stor.ListPVCsWithUsage"
    ∷ route get "/namespaces/{namespace}/pvcs" "stor.ListPVCsWithUsageNamespaced"
    ∷ route post "/namespaces/{namespace}/pvcs" "stor.CreatePVC"
    ∷ route patch "/namespaces/{namespace}/pvcs/{name}/resize" "stor.ResizePVC"
    ∷ route delete "/namespaces/{namespace}/pvcs/{name}" "stor.DeletePVC"
    ∷ route get "/storageclasses" "stor.ListStorageClasses"
    ∷ route get "/networkpolicies" "net.List"
    ∷ route get "/namespaces/{namespace}/networkpolicies" "net.ListNamespaced"
    ∷ route get "/namespaces/{namespace}/networkpolicies/{name}" "net.Get"
    ∷ route delete "/namespaces/{namespace}/networkpolicies/{name}" "net.Delete"
    ∷ route get "/hpas" "hp.List"
    ∷ route get "/namespaces/{namespace}/hpas" "hp.ListNamespaced"
    ∷ route delete "/namespaces/{namespace}/hpas/{name}" "hp.Delete"
    ∷ route get "/jobs" "jb.ListJobs"
    ∷ route get "/namespaces/{namespace}/jobs" "jb.ListJobsNamespaced"
    ∷ route delete "/namespaces/{namespace}/jobs/{name}" "jb.DeleteJob"
    ∷ route get "/cronjobs" "jb.ListCronJobs"
    ∷ route get "/namespaces/{namespace}/cronjobs" "jb.ListCronJobsNamespaced"
    ∷ route delete "/namespaces/{namespace}/cronjobs/{name}" "jb.DeleteCronJob"
    ∷ route put "/namespaces/{namespace}/cronjobs/{name}/suspend" "jb.SuspendCronJob"
    ∷ []
