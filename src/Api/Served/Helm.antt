-- ===== src/Api/Served/Helm.antt =====
-- The calls of `Api.Helm`, with the handler that each is meant for.
use skyvirt_kubeui.Prelude.{ℕ, String, refl, Option, List, [], ◌∷◌, All}
use skyvirt_kubeui.Json.{Json}
use skyvirt_kubeui.Api.{
  Request, get, post, put, delete, VeleroResource, backups, restores, schedules,
  backup_storage_locations,
}
use skyvirt_kubeui.Api.Helm
use skyvirt_kubeui.Prelude.Text.{pieces}
use skyvirt_kubeui.Api.Paths.{IsSegment, segments_of}
use skyvirt_kubeui.Api.Router.{matching}
use skyvirt_kubeui.Api.Router.Workloads.{workload_routes, config_routes}
use skyvirt_kubeui.Api.Router.Console.{
  helm_routes, console_routes, report_routes, auth_routes, engine_routes, routes,
}
use skyvirt_kubeui.Api.Served.Serving.{
  Router, IsRouter, Served, given, of_scope, fetch-Served, exact-Served, scoped-Served,
}

pub data Call : Type 0 where
  list_helm_releases : Option String → Call
  get_helm_release : String → String → Call
  install_helm_chart : Json ℕ → Call
  preview_helm_install : Json ℕ → Call
  upgrade_helm_release : String → String → Json ℕ → Call
  preview_helm_upgrade : String → String → Json ℕ → Call
  uninstall_helm_release : String → String → Call
  rollback_helm_release : String → String → ℕ → Call
  get_helm_release_values : String → String → Option ℕ → Call
  get_helm_release_manifest : String → String → Option ℕ → Call
  get_helm_release_notes : String → String → Call
  get_helm_release_history : String → String → Call
  search_helm_repo : String → Option String → Call
  list_helm_repos : Call
  add_helm_repo : String → String → Call
  remove_helm_repo : String → Call
  search_catalog : Option String → Call
  show_chart : String → String → Option String → Call
  ai_helm_values : String → String → Option String → Call
  velero_status : Call
  list_velero : VeleroResource → Call
  create_velero_backup : Json ℕ → Call
  create_velero_schedule : Json ℕ → Call
  create_velero_restore : Json ℕ → Call
  delete_velero : String → String → Call

abbrev pub request_of : (String → String) → Call → Request
request_of encode (list_helm_releases namespace) = Helm.list_helm_releases namespace
request_of encode (get_helm_release namespace name) = Helm.get_helm_release namespace name
request_of encode (install_helm_chart content) = Helm.install_helm_chart content
request_of encode (preview_helm_install content) = Helm.preview_helm_install content
request_of encode (upgrade_helm_release namespace name content) =
    Helm.upgrade_helm_release namespace name content
request_of encode (preview_helm_upgrade namespace name content) =
    Helm.preview_helm_upgrade namespace name content
request_of encode (uninstall_helm_release namespace name) =
    Helm.uninstall_helm_release namespace name
request_of encode (rollback_helm_release namespace name revision) =
    Helm.rollback_helm_release namespace name revision
request_of encode (get_helm_release_values namespace name revision) =
    Helm.get_helm_release_values namespace name revision
request_of encode (get_helm_release_manifest namespace name revision) =
    Helm.get_helm_release_manifest namespace name revision
request_of encode (get_helm_release_notes namespace name) =
    Helm.get_helm_release_notes namespace name
request_of encode (get_helm_release_history namespace name) =
    Helm.get_helm_release_history namespace name
request_of encode (search_helm_repo repo_url keyword) = Helm.search_helm_repo repo_url keyword
request_of encode list_helm_repos = Helm.list_helm_repos
request_of encode (add_helm_repo name url) = Helm.add_helm_repo name url
request_of encode (remove_helm_repo name) = Helm.remove_helm_repo encode name
request_of encode (search_catalog q) = Helm.search_catalog q
request_of encode (show_chart chart what version) = Helm.show_chart chart what version
request_of encode (ai_helm_values chart values ask) = Helm.ai_helm_values chart values ask
request_of encode velero_status = Helm.velero_status
request_of encode (list_velero resource) = Helm.list_velero resource
request_of encode (create_velero_backup content) = Helm.create_velero_backup content
request_of encode (create_velero_schedule content) = Helm.create_velero_schedule content
request_of encode (create_velero_restore content) = Helm.create_velero_restore content
request_of encode (delete_velero resource name) = Helm.delete_velero encode resource name

abbrev pub handler_of : Call → String
handler_of (list_helm_releases namespace) = of_scope namespace "hlm.ListNamespaced" "hlm.List"
handler_of (get_helm_release namespace name) = "hlm.Get"
handler_of (install_helm_chart content) = "hlm.Install"
handler_of (preview_helm_install content) = "hlm.InstallPreview"
handler_of (upgrade_helm_release namespace name content) = "hlm.Upgrade"
handler_of (preview_helm_upgrade namespace name content) = "hlm.UpgradePreview"
handler_of (uninstall_helm_release namespace name) = "hlm.Uninstall"
handler_of (rollback_helm_release namespace name revision) = "hlm.Rollback"
handler_of (get_helm_release_values namespace name revision) = "hlm.GetValues"
handler_of (get_helm_release_manifest namespace name revision) = "hlm.GetManifest"
handler_of (get_helm_release_notes namespace name) = "hlm.GetNotes"
handler_of (get_helm_release_history namespace name) = "hlm.History"
handler_of (search_helm_repo repo_url keyword) = "hlm.SearchRepo"
handler_of list_helm_repos = "hlm.RepoList"
handler_of (add_helm_repo name url) = "hlm.RepoAdd"
handler_of (remove_helm_repo name) = "hlm.RepoRemove"
handler_of (search_catalog q) = "hlm.CatalogSearch"
handler_of (show_chart chart what version) = "hlm.ChartShow"
handler_of (ai_helm_values chart values ask) = "aiv.HelmValues"
handler_of velero_status = "vel.Status"
handler_of (list_velero resource) = "vel.List"
handler_of (create_velero_backup content) = "vel.CreateBackup"
handler_of (create_velero_schedule content) = "vel.CreateSchedule"
handler_of (create_velero_restore content) = "vel.CreateRestore"
handler_of (delete_velero resource name) = "vel.Delete"

-- The segments of the path that come from the arguments.
abbrev pub names_of : (String → String) → Call → List String
names_of encode (list_helm_releases namespace) = given namespace
names_of encode (get_helm_release namespace name) = namespace ∷ name ∷ []
names_of encode (install_helm_chart content) = []
names_of encode (preview_helm_install content) = []
names_of encode (upgrade_helm_release namespace name content) = namespace ∷ name ∷ []
names_of encode (preview_helm_upgrade namespace name content) = namespace ∷ name ∷ []
names_of encode (uninstall_helm_release namespace name) = namespace ∷ name ∷ []
names_of encode (rollback_helm_release namespace name revision) = namespace ∷ name ∷ []
names_of encode (get_helm_release_values namespace name revision) = namespace ∷ name ∷ []
names_of encode (get_helm_release_manifest namespace name revision) = namespace ∷ name ∷ []
names_of encode (get_helm_release_notes namespace name) = namespace ∷ name ∷ []
names_of encode (get_helm_release_history namespace name) = namespace ∷ name ∷ []
names_of encode (search_helm_repo repo_url keyword) = []
names_of encode list_helm_repos = []
names_of encode (add_helm_repo name url) = []
names_of encode (remove_helm_repo name) = encode name ∷ []
names_of encode (search_catalog q) = []
names_of encode (show_chart chart what version) = []
names_of encode (ai_helm_values chart values ask) = []
names_of encode velero_status = []
names_of encode (list_velero resource) = []
names_of encode (create_velero_backup content) = []
names_of encode (create_velero_schedule content) = []
names_of encode (create_velero_restore content) = []
names_of encode (delete_velero resource name) = resource ∷ encode name ∷ []

module _ (router : Router) (r : IsRouter router) (encode : String → String) where
  pub Served-Helm :
      (c : Call)
      → All IsSegment (names_of encode c)
      → Served router (request_of encode c) (handler_of c)
  unfolding matching workload_routes config_routes helm_routes console_routes report_routes
      auth_routes engine_routes routes segments_of pieces Helm.list_helm_releases
      Helm.get_helm_release Helm.install_helm_chart Helm.preview_helm_install
      Helm.upgrade_helm_release Helm.preview_helm_upgrade Helm.uninstall_helm_release
      Helm.rollback_helm_release Helm.get_helm_release_values Helm.get_helm_release_manifest
      Helm.get_helm_release_notes Helm.get_helm_release_history Helm.search_helm_repo
      Helm.list_helm_repos Helm.add_helm_repo Helm.remove_helm_repo Helm.search_catalog
      Helm.show_chart Helm.ai_helm_values Helm.velero_status Helm.list_velero
      Helm.create_velero_backup Helm.create_velero_schedule Helm.create_velero_restore
      Helm.delete_velero
  Served-Helm (list_helm_releases namespace) h =
      scoped-Served router namespace _ _ "hlm.ListNamespaced" "hlm.List" h
        (λ ns n.
          fetch-Served router r get ("namespaces" ∷ ns ∷ "helm" ∷ "releases" ∷ [])
            "hlm.ListNamespaced" (refl, (n, (refl, (refl, tt)))) refl)
        (fetch-Served router r get ("helm" ∷ "releases" ∷ []) "hlm.List" (refl, (refl, tt)) refl)
  Served-Helm (get_helm_release namespace name) (h0, (h1, _)) =
      fetch-Served router r get ("namespaces" ∷ namespace ∷ "helm" ∷ "releases" ∷ name ∷ [])
        "hlm.Get" (refl, (h0, (refl, (refl, (h1, tt))))) refl
  Served-Helm (install_helm_chart content) h =
      fetch-Served router r post ("helm" ∷ "install" ∷ []) "hlm.Install" (refl, (refl, tt)) refl
  Served-Helm (preview_helm_install content) h =
      fetch-Served router r post ("helm" ∷ "install" ∷ "preview" ∷ []) "hlm.InstallPreview"
        (refl, (refl, (refl, tt))) refl
  Served-Helm (upgrade_helm_release namespace name content) (h0, (h1, _)) =
      fetch-Served router r put ("namespaces" ∷ namespace ∷ "helm" ∷ "releases" ∷ name ∷ [])
        "hlm.Upgrade" (refl, (h0, (refl, (refl, (h1, tt))))) refl
  Served-Helm (preview_helm_upgrade namespace name content) (h0, (h1, _)) =
      fetch-Served router r post
        ("namespaces" ∷ namespace ∷ "helm" ∷ "releases" ∷ name ∷ "upgrade" ∷ "preview" ∷ [])
        "hlm.UpgradePreview" (refl, (h0, (refl, (refl, (h1, (refl, (refl, tt))))))) refl
  Served-Helm (uninstall_helm_release namespace name) (h0, (h1, _)) =
      fetch-Served router r delete ("namespaces" ∷ namespace ∷ "helm" ∷ "releases" ∷ name ∷ [])
        "hlm.Uninstall" (refl, (h0, (refl, (refl, (h1, tt))))) refl
  Served-Helm (rollback_helm_release namespace name revision) (h0, (h1, _)) =
      fetch-Served router r post
        ("namespaces" ∷ namespace ∷ "helm" ∷ "releases" ∷ name ∷ "rollback" ∷ []) "hlm.Rollback"
        (refl, (h0, (refl, (refl, (h1, (refl, tt)))))) refl
  Served-Helm (get_helm_release_values namespace name revision) (h0, (h1, _)) =
      fetch-Served router r get
        ("namespaces" ∷ namespace ∷ "helm" ∷ "releases" ∷ name ∷ "values" ∷ []) "hlm.GetValues"
        (refl, (h0, (refl, (refl, (h1, (refl, tt)))))) refl
  Served-Helm (get_helm_release_manifest namespace name revision) (h0, (h1, _)) =
      fetch-Served router r get
        ("namespaces" ∷ namespace ∷ "helm" ∷ "releases" ∷ name ∷ "manifest" ∷ []) "hlm.GetManifest"
        (refl, (h0, (refl, (refl, (h1, (refl, tt)))))) refl
  Served-Helm (get_helm_release_notes namespace name) (h0, (h1, _)) =
      fetch-Served router r get
        ("namespaces" ∷ namespace ∷ "helm" ∷ "releases" ∷ name ∷ "notes" ∷ []) "hlm.GetNotes"
        (refl, (h0, (refl, (refl, (h1, (refl, tt)))))) refl
  Served-Helm (get_helm_release_history namespace name) (h0, (h1, _)) =
      fetch-Served router r get
        ("namespaces" ∷ namespace ∷ "helm" ∷ "releases" ∷ name ∷ "history" ∷ []) "hlm.History"
        (refl, (h0, (refl, (refl, (h1, (refl, tt)))))) refl
  Served-Helm (search_helm_repo repo_url keyword) h =
      fetch-Served router r get ("helm" ∷ "search" ∷ []) "hlm.SearchRepo" (refl, (refl, tt)) refl
  Served-Helm list_helm_repos h =
      fetch-Served router r get ("helm" ∷ "repos" ∷ []) "hlm.RepoList" (refl, (refl, tt)) refl
  Served-Helm (add_helm_repo name url) h =
      fetch-Served router r post ("helm" ∷ "repos" ∷ []) "hlm.RepoAdd" (refl, (refl, tt)) refl
  Served-Helm (remove_helm_repo name) (h0, _) =
      fetch-Served router r delete ("helm" ∷ "repos" ∷ (encode name) ∷ []) "hlm.RepoRemove"
        (refl, (refl, (h0, tt))) refl
  Served-Helm (search_catalog q) h =
      fetch-Served router r get ("catalog" ∷ "charts" ∷ []) "hlm.CatalogSearch" (refl, (refl, tt))
        refl
  Served-Helm (show_chart chart what version) h =
      fetch-Served router r get ("catalog" ∷ "chart" ∷ []) "hlm.ChartShow" (refl, (refl, tt)) refl
  Served-Helm (ai_helm_values chart values ask) h =
      fetch-Served router r post ("catalog" ∷ "ai-values" ∷ []) "aiv.HelmValues" (refl, (refl, tt))
        refl
  Served-Helm velero_status h =
      exact-Served router r get ("velero" ∷ "status" ∷ []) "vel.Status" (refl, (refl, tt)) refl
  Served-Helm (list_velero backups) h =
      fetch-Served router r _ ("velero" ∷ "backups" ∷ []) "vel.List" (refl, (refl, tt)) refl
  Served-Helm (list_velero restores) h =
      fetch-Served router r _ ("velero" ∷ "restores" ∷ []) "vel.List" (refl, (refl, tt)) refl
  Served-Helm (list_velero schedules) h =
      fetch-Served router r _ ("velero" ∷ "schedules" ∷ []) "vel.List" (refl, (refl, tt)) refl
  Served-Helm (list_velero backup_storage_locations) h =
      fetch-Served router r _ ("velero" ∷ "backupstoragelocations" ∷ []) "vel.List"
        (refl, (refl, tt)) refl
  Served-Helm (create_velero_backup content) h =
      fetch-Served router r post ("velero" ∷ "backups" ∷ []) "vel.CreateBackup" (refl, (refl, tt))
        refl
  Served-Helm (create_velero_schedule content) h =
      fetch-Served router r post ("velero" ∷ "schedules" ∷ []) "vel.CreateSchedule"
        (refl, (refl, tt)) refl
  Served-Helm (create_velero_restore content) h =
      fetch-Served router r post ("velero" ∷ "restores" ∷ []) "vel.CreateRestore" (refl, (refl, tt))
        refl
  Served-Helm (delete_velero resource name) (h0, (h1, _)) =
      fetch-Served router r delete ("velero" ∷ resource ∷ (encode name) ∷ []) "vel.Delete"
        (refl, (h0, (h1, tt))) refl
