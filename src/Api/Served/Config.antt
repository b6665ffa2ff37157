-- ===== src/Api/Served/Config.antt =====
-- The calls of `Api.Config`, with the handler that each is meant for.
use skyvirt_kubeui.Prelude.{ℕ, String, refl, Bool, Option, List, [], ◌∷◌, All}
use skyvirt_kubeui.Json.{Json}
use skyvirt_kubeui.Api.{Request, get, post, put, patch, delete}
use skyvirt_kubeui.Api.Config
use skyvirt_kubeui.Prelude.Text.{pieces}
use skyvirt_kubeui.Api.Paths.{IsSegment, segments_of}
use skyvirt_kubeui.Api.Router.{matching}
use skyvirt_kubeui.Api.Router.Workloads.{workload_routes, config_routes}
use skyvirt_kubeui.Api.Router.Console.{
  helm_routes, console_routes, report_routes, auth_routes, engine_routes, routes,
}
use skyvirt_kubeui.Api.Served.Serving.{
  Router, IsRouter, Served, given, of_scope, of_given, fetch-Served, scoped-Served, if_given-Served,
}

pub data Call : Type 0 where
  list_config_maps : Option String → Call
  get_config_map : String → String → Call
  create_config_map : String → String → Json ℕ → Call
  update_config_map : String → String → Json ℕ → Call
  delete_config_map : String → String → Call
  list_secrets : Option String → Call
  get_secret : String → String → Call
  delete_secret : String → String → Call
  list_ingresses : Option String → Call
  get_ingress : String → String → Call
  delete_ingress : String → String → Call
  list_cluster_roles : Call
  list_roles : String → Call
  list_cluster_role_bindings : Call
  list_role_bindings : String → Call
  list_pvs : Call
  list_pvcs : Option String → Call
  delete_pvc : String → String → Call
  resize_pvc : String → String → String → Call
  list_storage_classes : Call
  list_network_policies : Option String → Call
  delete_network_policy : String → String → Call
  list_hpas : Option String → Call
  delete_hpa : String → String → Call
  list_jobs : Option String → Call
  delete_job : String → String → Call
  list_cron_jobs : Option String → Call
  delete_cron_job : String → String → Call
  suspend_cron_job : String → String → Bool → Call
  list_crds : Call
  list_crd_instances : String → String → String → Option String → Call

abbrev pub request_of : (String → String) → Call → Request
request_of encode (list_config_maps namespace) = Config.list_config_maps namespace
request_of encode (get_config_map namespace name) = Config.get_config_map namespace name
request_of encode (create_config_map namespace name content) =
    Config.create_config_map namespace name content
request_of encode (update_config_map namespace name content) =
    Config.update_config_map namespace name content
request_of encode (delete_config_map namespace name) = Config.delete_config_map namespace name
request_of encode (list_secrets namespace) = Config.list_secrets namespace
request_of encode (get_secret namespace name) = Config.get_secret namespace name
request_of encode (delete_secret namespace name) = Config.delete_secret namespace name
request_of encode (list_ingresses namespace) = Config.list_ingresses namespace
request_of encode (get_ingress namespace name) = Config.get_ingress namespace name
request_of encode (delete_ingress namespace name) = Config.delete_ingress namespace name
request_of encode list_cluster_roles = Config.list_cluster_roles
request_of encode (list_roles namespace) = Config.list_roles namespace
request_of encode list_cluster_role_bindings = Config.list_cluster_role_bindings
request_of encode (list_role_bindings namespace) = Config.list_role_bindings namespace
request_of encode list_pvs = Config.list_pvs
request_of encode (list_pvcs namespace) = Config.list_pvcs namespace
request_of encode (delete_pvc namespace name) = Config.delete_pvc namespace name
request_of encode (resize_pvc namespace name capacity) = Config.resize_pvc namespace name capacity
request_of encode list_storage_classes = Config.list_storage_classes
request_of encode (list_network_policies namespace) = Config.list_network_policies namespace
request_of encode (delete_network_policy namespace name) =
    Config.delete_network_policy namespace name
request_of encode (list_hpas namespace) = Config.list_hpas namespace
request_of encode (delete_hpa namespace name) = Config.delete_hpa namespace name
request_of encode (list_jobs namespace) = Config.list_jobs namespace
request_of encode (delete_job namespace name) = Config.delete_job namespace name
request_of encode (list_cron_jobs namespace) = Config.list_cron_jobs namespace
request_of encode (delete_cron_job namespace name) = Config.delete_cron_job namespace name
request_of encode (suspend_cron_job namespace name suspend) =
    Config.suspend_cron_job namespace name suspend
request_of encode list_crds = Config.list_crds
request_of encode (list_crd_instances group version resource namespace) =
    Config.list_crd_instances group version resource namespace

abbrev pub handler_of : Call → String
handler_of (list_config_maps namespace) = of_scope namespace "cm.ListNamespaced" "cm.List"
handler_of (get_config_map namespace name) = "cm.Get"
handler_of (create_config_map namespace name content) = "cm.Create"
handler_of (update_config_map namespace name content) = "cm.Update"
handler_of (delete_config_map namespace name) = "cm.Delete"
handler_of (list_secrets namespace) = of_scope namespace "sec.ListNamespaced" "sec.List"
handler_of (get_secret namespace name) = "sec.Get"
handler_of (delete_secret namespace name) = "sec.Delete"
handler_of (list_ingresses namespace) = of_scope namespace "ing.ListNamespaced" "ing.List"
handler_of (get_ingress namespace name) = "ing.Get"
handler_of (delete_ingress namespace name) = "ing.Delete"
handler_of list_cluster_roles = "rb.ListClusterRoles"
handler_of (list_roles namespace) = "rb.ListRoles"
handler_of list_cluster_role_bindings = "rb.ListClusterRoleBindings"
handler_of (list_role_bindings namespace) = "rb.ListRoleBindings"
handler_of list_pvs = "stor.ListPVs"
handler_of (list_pvcs namespace) =
    of_scope namespace "stor.ListPVCsWithUsageNamespaced" "stor.ListPVCsWithUsage"
handler_of (delete_pvc namespace name) = "stor.DeletePVC"
handler_of (resize_pvc namespace name capacity) = "stor.ResizePVC"
handler_of list_storage_classes = "stor.ListStorageClasses"
handler_of (list_network_policies namespace) = of_scope namespace "net.ListNamespaced" "net.List"
handler_of (delete_network_policy namespace name) = "net.Delete"
handler_of (list_hpas namespace) = of_scope namespace "hp.ListNamespaced" "hp.List"
handler_of (delete_hpa namespace name) = "hp.Delete"
handler_of (list_jobs namespace) = of_scope namespace "jb.ListJobsNamespaced" "jb.ListJobs"
handler_of (delete_job namespace name) = "jb.DeleteJob"
handler_of (list_cron_jobs namespace) =
    of_scope namespace "jb.ListCronJobsNamespaced" "jb.ListCronJobs"
handler_of (delete_cron_job namespace name) = "jb.DeleteCronJob"
handler_of (suspend_cron_job namespace name suspend) = "jb.SuspendCronJob"
handler_of list_crds = "crd.List"
handler_of (list_crd_instances group version resource namespace) =
    of_given namespace "crd.ListInstancesNamespaced" "crd.ListInstances"

-- The segments of the path that come from the arguments.
abbrev pub names_of : (String → String) → Call → List String
names_of encode (list_config_maps namespace) = given namespace
names_of encode (get_config_map namespace name) = namespace ∷ name ∷ []
names_of encode (create_config_map namespace name content) = namespace ∷ []
names_of encode (update_config_map namespace name content) = namespace ∷ name ∷ []
names_of encode (delete_config_map namespace name) = namespace ∷ name ∷ []
names_of encode (list_secrets namespace) = given namespace
names_of encode (get_secret namespace name) = namespace ∷ name ∷ []
names_of encode (delete_secret namespace name) = namespace ∷ name ∷ []
names_of encode (list_ingresses namespace) = given namespace
names_of encode (get_ingress namespace name) = namespace ∷ name ∷ []
names_of encode (delete_ingress namespace name) = namespace ∷ name ∷ []
names_of encode list_cluster_roles = []
names_of encode (list_roles namespace) = namespace ∷ []
names_of encode list_cluster_role_bindings = []
names_of encode (list_role_bindings namespace) = namespace ∷ []
names_of encode list_pvs = []
names_of encode (list_pvcs namespace) = given namespace
names_of encode (delete_pvc namespace name) = namespace ∷ name ∷ []
names_of encode (resize_pvc namespace name capacity) = namespace ∷ name ∷ []
names_of encode list_storage_classes = []
names_of encode (list_network_policies namespace) = given namespace
names_of encode (delete_network_policy namespace name) = namespace ∷ name ∷ []
names_of encode (list_hpas namespace) = given namespace
names_of encode (delete_hpa namespace name) = namespace ∷ name ∷ []
names_of encode (list_jobs namespace) = given namespace
names_of encode (delete_job namespace name) = namespace ∷ name ∷ []
names_of encode (list_cron_jobs namespace) = given namespace
names_of encode (delete_cron_job namespace name) = namespace ∷ name ∷ []
names_of encode (suspend_cron_job namespace name suspend) = namespace ∷ name ∷ []
names_of encode list_crds = []
names_of encode (list_crd_instances group version resource namespace) =
    group ∷ version ∷ resource ∷ given namespace

module _ (router : Router) (r : IsRouter router) (encode : String → String) where
  pub Served-Config :
      (c : Call)
      → All IsSegment (names_of encode c)
      → Served router (request_of encode c) (handler_of c)
  unfolding matching workload_routes config_routes helm_routes console_routes report_routes
      auth_routes engine_routes routes segments_of pieces Config.list_config_maps
      Config.get_config_map Config.create_config_map Config.update_config_map
      Config.delete_config_map Config.list_secrets Config.get_secret Config.delete_secret
      Config.list_ingresses Config.get_ingress Config.delete_ingress Config.list_cluster_roles
      Config.list_roles Config.list_cluster_role_bindings Config.list_role_bindings Config.list_pvs
      Config.list_pvcs Config.delete_pvc Config.resize_pvc Config.list_storage_classes
      Config.list_network_policies Config.delete_network_policy Config.list_hpas Config.delete_hpa
      Config.list_jobs Config.delete_job Config.list_cron_jobs Config.delete_cron_job
      Config.suspend_cron_job Config.list_crds Config.list_crd_instances
  Served-Config (list_config_maps namespace) h =
      scoped-Served router namespace _ _ "cm.ListNamespaced" "cm.List" h
        (λ ns n.
          fetch-Served router r get ("namespaces" ∷ ns ∷ "configmaps" ∷ []) "cm.ListNamespaced"
            (refl, (n, (refl, tt))) refl)
        (fetch-Served router r get ("configmaps" ∷ []) "cm.List" (refl, tt) refl)
  Served-Config (get_config_map namespace name) (h0, (h1, _)) =
      fetch-Served router r get ("namespaces" ∷ namespace ∷ "configmaps" ∷ name ∷ []) "cm.Get"
        (refl, (h0, (refl, (h1, tt)))) refl
  Served-Config (create_config_map namespace name content) (h0, _) =
      fetch-Served router r post ("namespaces" ∷ namespace ∷ "configmaps" ∷ []) "cm.Create"
        (refl, (h0, (refl, tt))) refl
  Served-Config (update_config_map namespace name content) (h0, (h1, _)) =
      fetch-Served router r put ("namespaces" ∷ namespace ∷ "configmaps" ∷ name ∷ []) "cm.Update"
        (refl, (h0, (refl, (h1, tt)))) refl
  Served-Config (delete_config_map namespace name) (h0, (h1, _)) =
      fetch-Served router r delete ("namespaces" ∷ namespace ∷ "configmaps" ∷ name ∷ []) "cm.Delete"
        (refl, (h0, (refl, (h1, tt)))) refl
  Served-Config (list_secrets namespace) h =
      scoped-Served router namespace _ _ "sec.ListNamespaced" "sec.List" h
        (λ ns n.
          fetch-Served router r get ("namespaces" ∷ ns ∷ "secrets" ∷ []) "sec.ListNamespaced"
            (refl, (n, (refl, tt))) refl)
        (fetch-Served router r get ("secrets" ∷ []) "sec.List" (refl, tt) refl)
  Served-Config (get_secret namespace name) (h0, (h1, _)) =
      fetch-Served router r get ("namespaces" ∷ namespace ∷ "secrets" ∷ name ∷ []) "sec.Get"
        (refl, (h0, (refl, (h1, tt)))) refl
  Served-Config (delete_secret namespace name) (h0, (h1, _)) =
      fetch-Served router r delete ("namespaces" ∷ namespace ∷ "secrets" ∷ name ∷ []) "sec.Delete"
        (refl, (h0, (refl, (h1, tt)))) refl
  Served-Config (list_ingresses namespace) h =
      scoped-Served router namespace _ _ "ing.ListNamespaced" "ing.List" h
        (λ ns n.
          fetch-Served router r get ("namespaces" ∷ ns ∷ "ingresses" ∷ []) "ing.ListNamespaced"
            (refl, (n, (refl, tt))) refl)
        (fetch-Served router r get ("ingresses" ∷ []) "ing.List" (refl, tt) refl)
  Served-Config (get_ingress namespace name) (h0, (h1, _)) =
      fetch-Served router r get ("namespaces" ∷ namespace ∷ "ingresses" ∷ name ∷ []) "ing.Get"
        (refl, (h0, (refl, (h1, tt)))) refl
  Served-Config (delete_ingress namespace name) (h0, (h1, _)) =
      fetch-Served router r delete ("namespaces" ∷ namespace ∷ "ingresses" ∷ name ∷ []) "ing.Delete"
        (refl, (h0, (refl, (h1, tt)))) refl
  Served-Config list_cluster_roles h =
      fetch-Served router r get ("clusterroles" ∷ []) "rb.ListClusterRoles" (refl, tt) refl
  Served-Config (list_roles namespace) (h0, _) =
      fetch-Served router r get ("namespaces" ∷ namespace ∷ "roles" ∷ []) "rb.ListRoles"
        (refl, (h0, (refl, tt))) refl
  Served-Config list_cluster_role_bindings h =
      fetch-Served router r get ("clusterrolebindings" ∷ []) "rb.ListClusterRoleBindings" (refl, tt)
        refl
  Served-Config (list_role_bindings namespace) (h0, _) =
      fetch-Served router r get ("namespaces" ∷ namespace ∷ "rolebindings" ∷ [])
        "rb.ListRoleBindings" (refl, (h0, (refl, tt))) refl
  Served-Config list_pvs h = fetch-Served router r get ("pvs" ∷ []) "stor.ListPVs" (refl, tt) refl
  Served-Config (list_pvcs namespace) h =
      scoped-Served router namespace _ _ "stor.ListPVCsWithUsageNamespaced" "stor.ListPVCsWithUsage"
        h
        (λ ns n.
          fetch-Served router r get ("namespaces" ∷ ns ∷ "pvcs" ∷ [])
            "stor.ListPVCsWithUsageNamespaced" (refl, (n, (refl, tt))) refl)
        (fetch-Served router r get ("pvcs" ∷ []) "stor.ListPVCsWithUsage" (refl, tt) refl)
  Served-Config (delete_pvc namespace name) (h0, (h1, _)) =
      fetch-Served router r delete ("namespaces" ∷ namespace ∷ "pvcs" ∷ name ∷ []) "stor.DeletePVC"
        (refl, (h0, (refl, (h1, tt)))) refl
  Served-Config (resize_pvc namespace name capacity) (h0, (h1, _)) =
      fetch-Served router r patch ("namespaces" ∷ namespace ∷ "pvcs" ∷ name ∷ "resize" ∷ [])
        "stor.ResizePVC" (refl, (h0, (refl, (h1, (refl, tt))))) refl
  Served-Config list_storage_classes h =
      fetch-Served router r get ("storageclasses" ∷ []) "stor.ListStorageClasses" (refl, tt) refl
  Served-Config (list_network_policies namespace) h =
      scoped-Served router namespace _ _ "net.ListNamespaced" "net.List" h
        (λ ns n.
          fetch-Served router r get ("namespaces" ∷ ns ∷ "networkpolicies" ∷ [])
            "net.ListNamespaced" (refl, (n, (refl, tt))) refl)
        (fetch-Served router r get ("networkpolicies" ∷ []) "net.List" (refl, tt) refl)
  Served-Config (delete_network_policy namespace name) (h0, (h1, _)) =
      fetch-Served router r delete ("namespaces" ∷ namespace ∷ "networkpolicies" ∷ name ∷ [])
        "net.Delete" (refl, (h0, (refl, (h1, tt)))) refl
  Served-Config (list_hpas namespace) h =
      scoped-Served router namespace _ _ "hp.ListNamespaced" "hp.List" h
        (λ ns n.
          fetch-Served router r get ("namespaces" ∷ ns ∷ "hpas" ∷ []) "hp.ListNamespaced"
            (refl, (n, (refl, tt))) refl)
        (fetch-Served router r get ("hpas" ∷ []) "hp.List" (refl, tt) refl)
  Served-Config (delete_hpa namespace name) (h0, (h1, _)) =
      fetch-Served router r delete ("namespaces" ∷ namespace ∷ "hpas" ∷ name ∷ []) "hp.Delete"
        (refl, (h0, (refl, (h1, tt)))) refl
  Served-Config (list_jobs namespace) h =
      scoped-Served router namespace _ _ "jb.ListJobsNamespaced" "jb.ListJobs" h
        (λ ns n.
          fetch-Served router r get ("namespaces" ∷ ns ∷ "jobs" ∷ []) "jb.ListJobsNamespaced"
            (refl, (n, (refl, tt))) refl)
        (fetch-Served router r get ("jobs" ∷ []) "jb.ListJobs" (refl, tt) refl)
  Served-Config (delete_job namespace name) (h0, (h1, _)) =
      fetch-Served router r delete ("namespaces" ∷ namespace ∷ "jobs" ∷ name ∷ []) "jb.DeleteJob"
        (refl, (h0, (refl, (h1, tt)))) refl
  Served-Config (list_cron_jobs namespace) h =
      scoped-Served router namespace _ _ "jb.ListCronJobsNamespaced" "jb.ListCronJobs" h
        (λ ns n.
          fetch-Served router r get ("namespaces" ∷ ns ∷ "cronjobs" ∷ [])
            "jb.ListCronJobsNamespaced" (refl, (n, (refl, tt))) refl)
        (fetch-Served router r get ("cronjobs" ∷ []) "jb.ListCronJobs" (refl, tt) refl)
  Served-Config (delete_cron_job namespace name) (h0, (h1, _)) =
      fetch-Served router r delete ("namespaces" ∷ namespace ∷ "cronjobs" ∷ name ∷ [])
        "jb.DeleteCronJob" (refl, (h0, (refl, (h1, tt)))) refl
  Served-Config (suspend_cron_job namespace name suspend) (h0, (h1, _)) =
      fetch-Served router r put ("namespaces" ∷ namespace ∷ "cronjobs" ∷ name ∷ "suspend" ∷ [])
        "jb.SuspendCronJob" (refl, (h0, (refl, (h1, (refl, tt))))) refl
  Served-Config list_crds h = fetch-Served router r get ("crds" ∷ []) "crd.List" (refl, tt) refl
  Served-Config (list_crd_instances group version resource namespace) (h0, (h1, (h2, h))) =
      if_given-Served router namespace _ _ "crd.ListInstancesNamespaced" "crd.ListInstances" h
        (λ ns n.
          fetch-Served router r get ("namespaces" ∷ ns ∷ "crds" ∷ group ∷ version ∷ resource ∷ [])
            "crd.ListInstancesNamespaced" (refl, (n, (refl, (h0, (h1, (h2, tt)))))) refl)
        (fetch-Served router r get ("crds" ∷ group ∷ version ∷ resource ∷ []) "crd.ListInstances"
          (refl, (h0, (h1, (h2, tt)))) refl)
