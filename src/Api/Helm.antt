-- ===== src/Api/Helm.antt =====
-- Calls of web/src/api/client.ts: Helm, the catalog and Velero.
use skyvirt_kubeui.Prelude.{ℕ, String, Option, [], ◌∷◌}
use skyvirt_kubeui.Json.{Json, num, str, obj, end, entry}
use skyvirt_kubeui.Api.{
  Request, post, put, delete, fetch, act, send, query, scoped, opt, param, param_number,
  VeleroResource, velero_name,
}

unfoldable pub list_helm_releases : Option String → Request
list_helm_releases namespace =
    scoped namespace (λ ns. fetch ("namespaces" ∷ ns ∷ "helm" ∷ "releases" ∷ []))
      (fetch ("helm" ∷ "releases" ∷ []))

unfoldable pub get_helm_release : String → String → Request
get_helm_release namespace name = fetch ("namespaces" ∷ namespace ∷ "helm" ∷ "releases" ∷ name ∷ [])

unfoldable pub install_helm_chart : Json ℕ → Request
install_helm_chart content = send post ("helm" ∷ "install" ∷ []) content

unfoldable pub preview_helm_install : Json ℕ → Request
preview_helm_install content = send post ("helm" ∷ "install" ∷ "preview" ∷ []) content

unfoldable pub upgrade_helm_release : String → String → Json ℕ → Request
upgrade_helm_release namespace name content =
    send put ("namespaces" ∷ namespace ∷ "helm" ∷ "releases" ∷ name ∷ []) content

unfoldable pub preview_helm_upgrade : String → String → Json ℕ → Request
preview_helm_upgrade namespace name content =
    send post ("namespaces" ∷ namespace ∷ "helm" ∷ "releases" ∷ name ∷ "upgrade" ∷ "preview" ∷ [])
      content

unfoldable pub uninstall_helm_release : String → String → Request
uninstall_helm_release namespace name =
    act delete ("namespaces" ∷ namespace ∷ "helm" ∷ "releases" ∷ name ∷ [])

unfoldable pub rollback_helm_release : String → String → ℕ → Request
rollback_helm_release namespace name revision =
    send post ("namespaces" ∷ namespace ∷ "helm" ∷ "releases" ∷ name ∷ "rollback" ∷ [])
      (obj (entry "revision" (num revision) end))

unfoldable pub get_helm_release_values : String → String → Option ℕ → Request
get_helm_release_values namespace name revision =
    query ("namespaces" ∷ namespace ∷ "helm" ∷ "releases" ∷ name ∷ "values" ∷ [])
      (param_number "revision" revision)

unfoldable pub get_helm_release_manifest : String → String → Option ℕ → Request
get_helm_release_manifest namespace name revision =
    query ("namespaces" ∷ namespace ∷ "helm" ∷ "releases" ∷ name ∷ "manifest" ∷ [])
      (param_number "revision" revision)

unfoldable pub get_helm_release_notes : String → String → Request
get_helm_release_notes namespace name =
    fetch ("namespaces" ∷ namespace ∷ "helm" ∷ "releases" ∷ name ∷ "notes" ∷ [])

unfoldable pub get_helm_release_history : String → String → Request
get_helm_release_history namespace name =
    fetch ("namespaces" ∷ namespace ∷ "helm" ∷ "releases" ∷ name ∷ "history" ∷ [])

unfoldable pub search_helm_repo : String → Option String → Request
search_helm_repo repo_url keyword =
    query ("helm" ∷ "search" ∷ []) (("repo_url", str repo_url) ∷ param "keyword" keyword)

unfoldable pub list_helm_repos : Request
list_helm_repos = fetch ("helm" ∷ "repos" ∷ [])

unfoldable pub add_helm_repo : String → String → Request
add_helm_repo name url =
    send post ("helm" ∷ "repos" ∷ []) (obj (entry "name" (str name) (entry "url" (str url) end)))

unfoldable pub remove_helm_repo : (String → String) → String → Request
remove_helm_repo encode name = act delete ("helm" ∷ "repos" ∷ (encode name) ∷ [])

unfoldable pub search_catalog : Option String → Request
search_catalog q = query ("catalog" ∷ "charts" ∷ []) (param "q" q)

unfoldable pub show_chart : String → String → Option String → Request
show_chart chart what version =
    query ("catalog" ∷ "chart" ∷ [])
      (("chart", str chart) ∷ ("what", str what) ∷ param "version" version)

unfoldable pub ai_helm_values : String → String → Option String → Request
ai_helm_values chart values ask =
    send post ("catalog" ∷ "ai-values" ∷ [])
      (obj (entry "chart" (str chart) (entry "values" (str values) (entry "ask" (opt ask) end))))

unfoldable pub velero_status : Request
velero_status = fetch ("velero" ∷ "status" ∷ [])

unfoldable pub list_velero : VeleroResource → Request
list_velero resource = fetch ("velero" ∷ (velero_name resource) ∷ [])

unfoldable pub create_velero_backup : Json ℕ → Request
create_velero_backup content = send post ("velero" ∷ "backups" ∷ []) content

unfoldable pub create_velero_schedule : Json ℕ → Request
create_velero_schedule content = send post ("velero" ∷ "schedules" ∷ []) content

unfoldable pub create_velero_restore : Json ℕ → Request
create_velero_restore content = send post ("velero" ∷ "restores" ∷ []) content

unfoldable pub delete_velero : (String → String) → String → String → Request
delete_velero encode resource name = act delete ("velero" ∷ resource ∷ (encode name) ∷ [])
