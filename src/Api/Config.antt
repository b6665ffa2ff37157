-- ===== src/Api/Config.antt =====
-- Calls of web/src/api/client.ts: configuration, ingresses, access rules, storage, network policies, scaling, jobs and custom resources.
use skyvirt_kubeui.Prelude.{ℕ, String, Bool, Option, [], ◌∷◌}
use skyvirt_kubeui.Json.{Json, bool, str, obj, end, entry}
use skyvirt_kubeui.Api.{Request, post, put, patch, delete, fetch, act, send, scoped, if_given}

unfoldable pub list_config_maps : Option String → Request
list_config_maps namespace =
    scoped namespace (λ ns. fetch ("namespaces" ∷ ns ∷ "configmaps" ∷ []))
      (fetch ("configmaps" ∷ []))

unfoldable pub get_config_map : String → String → Request
get_config_map namespace name = fetch ("namespaces" ∷ namespace ∷ "configmaps" ∷ name ∷ [])

unfoldable pub create_config_map : String → String → Json ℕ → Request
create_config_map namespace name content =
    send post ("namespaces" ∷ namespace ∷ "configmaps" ∷ [])
      (obj (entry "name" (str name) (entry "data" content end)))

unfoldable pub update_config_map : String → String → Json ℕ → Request
update_config_map namespace name content =
    send put ("namespaces" ∷ namespace ∷ "configmaps" ∷ name ∷ []) (obj (entry "data" content end))

unfoldable pub delete_config_map : String → String → Request
delete_config_map namespace name = act delete ("namespaces" ∷ namespace ∷ "configmaps" ∷ name ∷ [])

unfoldable pub list_secrets : Option String → Request
list_secrets namespace =
    scoped namespace (λ ns. fetch ("namespaces" ∷ ns ∷ "secrets" ∷ [])) (fetch ("secrets" ∷ []))

unfoldable pub get_secret : String → String → Request
get_secret namespace name = fetch ("namespaces" ∷ namespace ∷ "secrets" ∷ name ∷ [])

unfoldable pub delete_secret : String → String → Request
delete_secret namespace name = act delete ("namespaces" ∷ namespace ∷ "secrets" ∷ name ∷ [])

unfoldable pub list_ingresses : Option String → Request
list_ingresses namespace =
    scoped namespace (λ ns. fetch ("namespaces" ∷ ns ∷ "ingresses" ∷ [])) (fetch ("ingresses" ∷ []))

unfoldable pub get_ingress : String → String → Request
get_ingress namespace name = fetch ("namespaces" ∷ namespace ∷ "ingresses" ∷ name ∷ [])

unfoldable pub delete_ingress : String → String → Request
delete_ingress namespace name = act delete ("namespaces" ∷ namespace ∷ "ingresses" ∷ name ∷ [])

unfoldable pub list_cluster_roles : Request
list_cluster_roles = fetch ("clusterroles" ∷ [])

unfoldable pub list_roles : String → Request
list_roles namespace = fetch ("namespaces" ∷ namespace ∷ "roles" ∷ [])

unfoldable pub list_cluster_role_bindings : Request
list_cluster_role_bindings = fetch ("clusterrolebindings" ∷ [])

unfoldable pub list_role_bindings : String → Request
list_role_bindings namespace = fetch ("namespaces" ∷ namespace ∷ "rolebindings" ∷ [])

unfoldable pub list_pvs : Request
list_pvs = fetch ("pvs" ∷ [])

unfoldable pub list_pvcs : Option String → Request
list_pvcs namespace =
    scoped namespace (λ ns. fetch ("namespaces" ∷ ns ∷ "pvcs" ∷ [])) (fetch ("pvcs" ∷ []))

unfoldable pub delete_pvc : String → String → Request
delete_pvc namespace name = act delete ("namespaces" ∷ namespace ∷ "pvcs" ∷ name ∷ [])

unfoldable pub resize_pvc : String → String → String → Request
resize_pvc namespace name capacity =
    send patch ("namespaces" ∷ namespace ∷ "pvcs" ∷ name ∷ "resize" ∷ [])
      (obj (entry "capacity" (str capacity) end))

unfoldable pub list_storage_classes : Request
list_storage_classes = fetch ("storageclasses" ∷ [])

unfoldable pub list_network_policies : Option String → Request
list_network_policies namespace =
    scoped namespace (λ ns. fetch ("namespaces" ∷ ns ∷ "networkpolicies" ∷ []))
      (fetch ("networkpolicies" ∷ []))

unfoldable pub delete_network_policy : String → String → Request
delete_network_policy namespace name =
    act delete ("namespaces" ∷ namespace ∷ "networkpolicies" ∷ name ∷ [])

unfoldable pub list_hpas : Option String → Request
list_hpas namespace =
    scoped namespace (λ ns. fetch ("namespaces" ∷ ns ∷ "hpas" ∷ [])) (fetch ("hpas" ∷ []))

unfoldable pub delete_hpa : String → String → Request
delete_hpa namespace name = act delete ("namespaces" ∷ namespace ∷ "hpas" ∷ name ∷ [])

unfoldable pub list_jobs : Option String → Request
list_jobs namespace =
    scoped namespace (λ ns. fetch ("namespaces" ∷ ns ∷ "jobs" ∷ [])) (fetch ("jobs" ∷ []))

unfoldable pub delete_job : String → String → Request
delete_job namespace name = act delete ("namespaces" ∷ namespace ∷ "jobs" ∷ name ∷ [])

unfoldable pub list_cron_jobs : Option String → Request
list_cron_jobs namespace =
    scoped namespace (λ ns. fetch ("namespaces" ∷ ns ∷ "cronjobs" ∷ [])) (fetch ("cronjobs" ∷ []))

unfoldable pub delete_cron_job : String → String → Request
delete_cron_job namespace name = act delete ("namespaces" ∷ namespace ∷ "cronjobs" ∷ name ∷ [])

unfoldable pub suspend_cron_job : String → String → Bool → Request
suspend_cron_job namespace name suspend =
    send put ("namespaces" ∷ namespace ∷ "cronjobs" ∷ name ∷ "suspend" ∷ [])
      (obj (entry "suspend" (bool suspend) end))

unfoldable pub list_crds : Request
list_crds = fetch ("crds" ∷ [])

unfoldable pub list_crd_instances : String → String → String → Option String → Request
list_crd_instances group version resource namespace =
    if_given namespace (λ ns. fetch ("namespaces" ∷ ns ∷ "crds" ∷ group ∷ version ∷ resource ∷ []))
      (fetch ("crds" ∷ group ∷ version ∷ resource ∷ []))
