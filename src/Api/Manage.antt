-- ===== src/Api/Manage.antt =====
-- Calls of web/src/api/client.ts: manifests, drift, GitOps, resources, sessions and networks.
use skyvirt_kubeui.Prelude.{ℕ, String, Bool, Option, [], ◌∷◌}
use skyvirt_kubeui.Json.{Json, bool, num, str, obj, end, entry}
use skyvirt_kubeui.Api.{
  Request, post, put, delete, fetch, act, send, query, opt, param, force_or_false, text_or_empty,
}

unfoldable pub apply_manifest : String → Option Bool → Request
apply_manifest manifest force =
    send post ("apply" ∷ [])
      (obj (entry "manifest" (str manifest) (entry "force" (bool (force_or_false force)) end)))

unfoldable pub get_drift_timeline : String → String → String → Request
get_drift_timeline kind namespace name =
    query ("drift" ∷ "timeline" ∷ [])
      (("kind", str kind) ∷ ("namespace", str namespace) ∷ ("name", str name) ∷ [])

unfoldable pub get_tracked_drift : Request
get_tracked_drift = fetch ("drift" ∷ "tracked" ∷ [])

unfoldable pub snapshot_namespace : String → Request
snapshot_namespace namespace =
    send post ("drift" ∷ "snapshot" ∷ []) (obj (entry "namespace" (str namespace) end))

unfoldable pub fetch_git_manifests :
    String → String → String → Option String → Option String → Request
fetch_git_manifests repo_url ref path username token = send post ("gitops" ∷ "fetch" ∷ []) (
    obj (
      entry "repo_url" (str repo_url) (
        entry "ref" (str ref) (
          entry "path" (str path)
            (entry "username" (opt username) (entry "token" (opt token) end))))))

unfoldable pub list_git_ops_sources : Request
list_git_ops_sources = fetch ("gitops" ∷ "sources" ∷ [])

unfoldable pub save_git_ops_source : Json ℕ → Request
save_git_ops_source s = send post ("gitops" ∷ "sources" ∷ []) s

unfoldable pub delete_git_ops_source : String → Request
delete_git_ops_source id = act delete ("gitops" ∷ "sources" ∷ id ∷ [])

unfoldable pub sync_git_ops_source : String → Request
sync_git_ops_source id = act post ("gitops" ∷ "sources" ∷ id ∷ "sync" ∷ [])

unfoldable pub get_resource_yaml : String → String → String → Request
get_resource_yaml kind namespace name =
    fetch ("resources" ∷ kind ∷ "namespaces" ∷ namespace ∷ name ∷ [])

unfoldable pub update_resource_yaml : String → String → String → String → Request
update_resource_yaml kind namespace name manifest =
    send put ("resources" ∷ kind ∷ "namespaces" ∷ namespace ∷ name ∷ [])
      (obj (entry "manifest" (str manifest) end))

unfoldable pub get_cluster_resource_yaml : String → String → Request
get_cluster_resource_yaml kind name = fetch ("resources" ∷ kind ∷ name ∷ [])

unfoldable pub update_cluster_resource_yaml : String → String → String → Request
update_cluster_resource_yaml kind name manifest =
    send put ("resources" ∷ kind ∷ name ∷ []) (obj (entry "manifest" (str manifest) end))

unfoldable pub delete_resource : String → String → String → Request
delete_resource kind namespace name =
    act delete ("resources" ∷ kind ∷ "namespaces" ∷ namespace ∷ name ∷ [])

unfoldable pub delete_cluster_resource : String → String → Request
delete_cluster_resource kind name = act delete ("resources" ∷ kind ∷ name ∷ [])

unfoldable pub list_deployment_replica_sets : String → String → Request
list_deployment_replica_sets namespace name =
    fetch ("namespaces" ∷ namespace ∷ "deployments" ∷ name ∷ "replicasets" ∷ [])

unfoldable pub login_user : String → String → Request
login_user email password =
    send post ("auth" ∷ "login" ∷ [])
      (obj (entry "email" (str email) (entry "password" (str password) end)))

unfoldable pub refresh_token : Request
refresh_token = act post ("auth" ∷ "refresh" ∷ [])

unfoldable pub get_current_user : Request
get_current_user = fetch ("auth" ∷ "me" ∷ [])

unfoldable pub set_resource_protection : String → Option String → String → Bool → Request
set_resource_protection kind namespace name protect = send put ("protect" ∷ []) (
    obj (
      entry "kind" (str kind) (
        entry "namespace" (str (text_or_empty namespace))
          (entry "name" (str name) (entry "protected" (bool protect) end)))))

unfoldable pub get_resource_protection : String → Option String → String → Request
get_resource_protection kind namespace name =
    query ("protect" ∷ []) (("kind", str kind) ∷ ("name", str name) ∷ param "namespace" namespace)

unfoldable pub list_audit_log : ℕ → ℕ → Request
list_audit_log limit offset =
    query ("audit" ∷ []) (("limit", num limit) ∷ ("offset", num offset) ∷ [])

unfoldable pub get_security_posture : Request
get_security_posture = fetch ("security" ∷ "posture" ∷ [])

unfoldable pub list_hci_l2_networks : Request
list_hci_l2_networks = fetch ("l2-networks" ∷ [])

unfoldable pub list_hci_host_interfaces : Request
list_hci_host_interfaces = fetch ("host-interfaces" ∷ [])
