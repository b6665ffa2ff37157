-- ===== src/Api/Served/Manage.antt =====
-- The calls of `Api.Manage`, with the handler that each is meant for.
use skyvirt_kubeui.Prelude.{ℕ, String, refl, Bool, Option, List, [], ◌∷◌, All}
use skyvirt_kubeui.Json.{Json}
use skyvirt_kubeui.Api.{Request, get, post, put, delete}
use skyvirt_kubeui.Api.Manage
use skyvirt_kubeui.Prelude.Text.{pieces}
use skyvirt_kubeui.Api.Paths.{IsSegment, segments_of}
use skyvirt_kubeui.Api.Router.{matching}
use skyvirt_kubeui.Api.Router.Workloads.{workload_routes, config_routes}
use skyvirt_kubeui.Api.Router.Console.{
  helm_routes, console_routes, report_routes, auth_routes, engine_routes, routes,
}
use skyvirt_kubeui.Api.Served.Serving.{Router, IsRouter, Served, fetch-Served}

pub data Call : Type 0 where
  apply_manifest : String → Option Bool → Call
  get_drift_timeline : String → String → String → Call
  get_tracked_drift : Call
  snapshot_namespace : String → Call
  fetch_git_manifests : String → String → String → Option String → Option String → Call
  list_git_ops_sources : Call
  save_git_ops_source : Json ℕ → Call
  delete_git_ops_source : String → Call
  sync_git_ops_source : String → Call
  get_resource_yaml : String → String → String → Call
  update_resource_yaml : String → String → String → String → Call
  get_cluster_resource_yaml : String → String → Call
  update_cluster_resource_yaml : String → String → String → Call
  delete_resource : String → String → String → Call
  delete_cluster_resource : String → String → Call
  list_deployment_replica_sets : String → String → Call
  login_user : String → String → Call
  refresh_token : Call
  get_current_user : Call
  set_resource_protection : String → Option String → String → Bool → Call
  get_resource_protection : String → Option String → String → Call
  list_audit_log : ℕ → ℕ → Call
  get_security_posture : Call
  list_hci_l2_networks : Call
  list_hci_host_interfaces : Call

abbrev pub request_of : (String → String) → Call → Request
request_of encode (apply_manifest manifest force) = Manage.apply_manifest manifest force
request_of encode (get_drift_timeline kind namespace name) =
    Manage.get_drift_timeline kind namespace name
request_of encode get_tracked_drift = Manage.get_tracked_drift
request_of encode (snapshot_namespace namespace) = Manage.snapshot_namespace namespace
request_of encode (fetch_git_manifests repo_url ref path username token) =
    Manage.fetch_git_manifests repo_url ref path username token
request_of encode list_git_ops_sources = Manage.list_git_ops_sources
request_of encode (save_git_ops_source s) = Manage.save_git_ops_source s
request_of encode (delete_git_ops_source id) = Manage.delete_git_ops_source id
request_of encode (sync_git_ops_source id) = Manage.sync_git_ops_source id
request_of encode (get_resource_yaml kind namespace name) =
    Manage.get_resource_yaml kind namespace name
request_of encode (update_resource_yaml kind namespace name manifest) =
    Manage.update_resource_yaml kind namespace name manifest
request_of encode (get_cluster_resource_yaml kind name) = Manage.get_cluster_resource_yaml kind name
request_of encode (update_cluster_resource_yaml kind name manifest) =
    Manage.update_cluster_resource_yaml kind name manifest
request_of encode (delete_resource kind namespace name) = Manage.delete_resource kind namespace name
request_of encode (delete_cluster_resource kind name) = Manage.delete_cluster_resource kind name
request_of encode (list_deployment_replica_sets namespace name) =
    Manage.list_deployment_replica_sets namespace name
request_of encode (login_user email password) = Manage.login_user email password
request_of encode refresh_token = Manage.refresh_token
request_of encode get_current_user = Manage.get_current_user
request_of encode (set_resource_protection kind namespace name protect) =
    Manage.set_resource_protection kind namespace name protect
request_of encode (get_resource_protection kind namespace name) =
    Manage.get_resource_protection kind namespace name
request_of encode (list_audit_log limit offset) = Manage.list_audit_log limit offset
request_of encode get_security_posture = Manage.get_security_posture
request_of encode list_hci_l2_networks = Manage.list_hci_l2_networks
request_of encode list_hci_host_interfaces = Manage.list_hci_host_interfaces

abbrev pub handler_of : Call → String
handler_of (apply_manifest manifest force) = "ap.Apply"
handler_of (get_drift_timeline kind namespace name) = "drift.Timeline"
handler_of get_tracked_drift = "drift.Tracked"
handler_of (snapshot_namespace namespace) = "drift.SnapshotNow"
handler_of (fetch_git_manifests repo_url ref path username token) = "git.Fetch"
handler_of list_git_ops_sources = "git.ListSources"
handler_of (save_git_ops_source s) = "git.CreateSource"
handler_of (delete_git_ops_source id) = "git.DeleteSource"
handler_of (sync_git_ops_source id) = "git.SyncSource"
handler_of (get_resource_yaml kind namespace name) = "ap.GetResource"
handler_of (update_resource_yaml kind namespace name manifest) = "ap.UpdateResource"
handler_of (get_cluster_resource_yaml kind name) = "ap.GetClusterResource"
handler_of (update_cluster_resource_yaml kind name manifest) = "ap.UpdateClusterResource"
handler_of (delete_resource kind namespace name) = "ap.DeleteResource"
handler_of (delete_cluster_resource kind name) = "ap.DeleteClusterResource"
handler_of (list_deployment_replica_sets namespace name) = "deps.ListReplicaSets"
handler_of (login_user email password) = "authProxy.Login"
handler_of refresh_token = "authProxy.Refresh"
handler_of get_current_user = "authProxy.Me"
handler_of (set_resource_protection kind namespace name protect) = "prot.Set"
handler_of (get_resource_protection kind namespace name) = "prot.Get"
handler_of (list_audit_log limit offset) = "auditHandler"
handler_of get_security_posture = "securityPostureHandler"
handler_of list_hci_l2_networks = "engine.l2-networks"
handler_of list_hci_host_interfaces = "engine.host-interfaces"

-- The segments of the path that come from the arguments.
abbrev pub names_of : (String → String) → Call → List String
names_of encode (apply_manifest manifest force) = []
names_of encode (get_drift_timeline kind namespace name) = []
names_of encode get_tracked_drift = []
names_of encode (snapshot_namespace namespace) = []
names_of encode (fetch_git_manifests repo_url ref path username token) = []
names_of encode list_git_ops_sources = []
names_of encode (save_git_ops_source s) = []
names_of encode (delete_git_ops_source id) = id ∷ []
names_of encode (sync_git_ops_source id) = id ∷ []
names_of encode (get_resource_yaml kind namespace name) = kind ∷ namespace ∷ name ∷ []
names_of encode (update_resource_yaml kind namespace name manifest) = kind ∷ namespace ∷ name ∷ []
names_of encode (get_cluster_resource_yaml kind name) = kind ∷ name ∷ []
names_of encode (update_cluster_resource_yaml kind name manifest) = kind ∷ name ∷ []
names_of encode (delete_resource kind namespace name) = kind ∷ namespace ∷ name ∷ []
names_of encode (delete_cluster_resource kind name) = kind ∷ name ∷ []
names_of encode (list_deployment_replica_sets namespace name) = namespace ∷ name ∷ []
names_of encode (login_user email password) = []
names_of encode refresh_token = []
names_of encode get_current_user = []
names_of encode (set_resource_protection kind namespace name protect) = []
names_of encode (get_resource_protection kind namespace name) = []
names_of encode (list_audit_log limit offset) = []
names_of encode get_security_posture = []
names_of encode list_hci_l2_networks = []
names_of encode list_hci_host_interfaces = []

module _ (router : Router) (r : IsRouter router) (encode : String → String) where
  pub Served-Manage :
      (c : Call)
      → All IsSegment (names_of encode c)
      → Served router (request_of encode c) (handler_of c)
  unfolding matching workload_routes config_routes helm_routes console_routes report_routes
      auth_routes engine_routes routes segments_of pieces Manage.apply_manifest
      Manage.get_drift_timeline Manage.get_tracked_drift Manage.snapshot_namespace
      Manage.fetch_git_manifests Manage.list_git_ops_sources Manage.save_git_ops_source
      Manage.delete_git_ops_source Manage.sync_git_ops_source Manage.get_resource_yaml
      Manage.update_resource_yaml Manage.get_cluster_resource_yaml
      Manage.update_cluster_resource_yaml Manage.delete_resource Manage.delete_cluster_resource
      Manage.list_deployment_replica_sets Manage.login_user Manage.refresh_token
      Manage.get_current_user Manage.set_resource_protection Manage.get_resource_protection
      Manage.list_audit_log Manage.get_security_posture Manage.list_hci_l2_networks
      Manage.list_hci_host_interfaces
  Served-Manage (apply_manifest manifest force) h =
      fetch-Served router r post ("apply" ∷ []) "ap.Apply" (refl, tt) refl
  Served-Manage (get_drift_timeline kind namespace name) h =
      fetch-Served router r get ("drift" ∷ "timeline" ∷ []) "drift.Timeline" (refl, (refl, tt)) refl
  Served-Manage get_tracked_drift h =
      fetch-Served router r get ("drift" ∷ "tracked" ∷ []) "drift.Tracked" (refl, (refl, tt)) refl
  Served-Manage (snapshot_namespace namespace) h =
      fetch-Served router r post ("drift" ∷ "snapshot" ∷ []) "drift.SnapshotNow" (refl, (refl, tt))
        refl
  Served-Manage (fetch_git_manifests repo_url ref path username token) h =
      fetch-Served router r post ("gitops" ∷ "fetch" ∷ []) "git.Fetch" (refl, (refl, tt)) refl
  Served-Manage list_git_ops_sources h =
      fetch-Served router r get ("gitops" ∷ "sources" ∷ []) "git.ListSources" (refl, (refl, tt))
        refl
  Served-Manage (save_git_ops_source s) h =
      fetch-Served router r post ("gitops" ∷ "sources" ∷ []) "git.CreateSource" (refl, (refl, tt))
        refl
  Served-Manage (delete_git_ops_source id) (h0, _) =
      fetch-Served router r delete ("gitops" ∷ "sources" ∷ id ∷ []) "git.DeleteSource"
        (refl, (refl, (h0, tt))) refl
  Served-Manage (sync_git_ops_source id) (h0, _) =
      fetch-Served router r post ("gitops" ∷ "sources" ∷ id ∷ "sync" ∷ []) "git.SyncSource"
        (refl, (refl, (h0, (refl, tt)))) refl
  Served-Manage (get_resource_yaml kind namespace name) (h0, (h1, (h2, _))) =
      fetch-Served router r get ("resources" ∷ kind ∷ "namespaces" ∷ namespace ∷ name ∷ [])
        "ap.GetResource" (refl, (h0, (refl, (h1, (h2, tt))))) refl
  Served-Manage (update_resource_yaml kind namespace name manifest) (h0, (h1, (h2, _))) =
      fetch-Served router r put ("resources" ∷ kind ∷ "namespaces" ∷ namespace ∷ name ∷ [])
        "ap.UpdateResource" (refl, (h0, (refl, (h1, (h2, tt))))) refl
  Served-Manage (get_cluster_resource_yaml kind name) (h0, (h1, _)) =
      fetch-Served router r get ("resources" ∷ kind ∷ name ∷ []) "ap.GetClusterResource"
        (refl, (h0, (h1, tt))) refl
  Served-Manage (update_cluster_resource_yaml kind name manifest) (h0, (h1, _)) =
      fetch-Served router r put ("resources" ∷ kind ∷ name ∷ []) "ap.UpdateClusterResource"
        (refl, (h0, (h1, tt))) refl
  Served-Manage (delete_resource kind namespace name) (h0, (h1, (h2, _))) =
      fetch-Served router r delete ("resources" ∷ kind ∷ "namespaces" ∷ namespace ∷ name ∷ [])
        "ap.DeleteResource" (refl, (h0, (refl, (h1, (h2, tt))))) refl
  Served-Manage (delete_cluster_resource kind name) (h0, (h1, _)) =
      fetch-Served router r delete ("resources" ∷ kind ∷ name ∷ []) "ap.DeleteClusterResource"
        (refl, (h0, (h1, tt))) refl
  Served-Manage (list_deployment_replica_sets namespace name) (h0, (h1, _)) =
      fetch-Served router r get
        ("namespaces" ∷ namespace ∷ "deployments" ∷ name ∷ "replicasets" ∷ [])
        "deps.ListReplicaSets" (refl, (h0, (refl, (h1, (refl, tt))))) refl
  Served-Manage (login_user email password) h =
      fetch-Served router r post ("auth" ∷ "login" ∷ []) "authProxy.Login" (refl, (refl, tt)) refl
  Served-Manage refresh_token h =
      fetch-Served router r post ("auth" ∷ "refresh" ∷ []) "authProxy.Refresh" (refl, (refl, tt))
        refl
  Served-Manage get_current_user h =
      fetch-Served router r get ("auth" ∷ "me" ∷ []) "authProxy.Me" (refl, (refl, tt)) refl
  Served-Manage (set_resource_protection kind namespace name protect) h =
      fetch-Served router r put ("protect" ∷ []) "prot.Set" (refl, tt) refl
  Served-Manage (get_resource_protection kind namespace name) h =
      fetch-Served router r get ("protect" ∷ []) "prot.Get" (refl, tt) refl
  Served-Manage (list_audit_log limit offset) h =
      fetch-Served router r get ("audit" ∷ []) "auditHandler" (refl, tt) refl
  Served-Manage get_security_posture h =
      fetch-Served router r get ("security" ∷ "posture" ∷ []) "securityPostureHandler"
        (refl, (refl, tt)) refl
  Served-Manage list_hci_l2_networks h =
      fetch-Served router r get ("l2-networks" ∷ []) "engine.l2-networks" (refl, tt) refl
  Served-Manage list_hci_host_interfaces h =
      fetch-Served router r get ("host-interfaces" ∷ []) "engine.host-interfaces" (refl, tt) refl
