-- ===== src/Overlay/Tests.antt =====
-- Runs of the overlay's operations at a small chart.
use skyvirt_kubeui.Prelude.{ℕ, String, List, [], ◌∷◌, ◌≡◌, refl}
use skyvirt_kubeui.Json.{num, str, obj, Fields, end, entry, field, has, put}
use skyvirt_kubeui.Overlay.{get_at_path, delete_at_path, deep_merge, merge_into}
use skyvirt_kubeui.Overlay.Tidy.{IsTidy, IsTidyValue, delete_at_path-IsTidy}
use skyvirt_kubeui.Overlay.Merge.{IsPresent, IsAbsent, wins, kept, get-deep_merge}

abbrev image : Fields ℕ
image = entry "tag" (str "1.2") (entry "pull" (str "Always") end)

abbrev overlay : Fields ℕ
overlay = entry "replicas" (num 3) (entry "image" (obj image) end)

abbrev tag : List String
tag = "image" ∷ "tag" ∷ []

abbrev pull : List String
pull = "image" ∷ "pull" ∷ []

overlay-IsTidy : IsTidy overlay
unfolding IsTidy
overlay-IsTidy = (tt, ((refl, (tt, (tt, tt))), tt))

seven-IsTidyValue : IsTidyValue {N = ℕ} (num 7)
unfolding IsTidyValue
seven-IsTidyValue = tt

delete_at_path-IsTidy_example : IsTidy (delete_at_path overlay tag)
delete_at_path-IsTidy_example = delete_at_path-IsTidy overlay tag overlay-IsTidy

-- A path below two containers that the overlay does not have yet.
abbrev fresh : List String
fresh = "resources" ∷ "limits" ∷ "cpu" ∷ []

abbrev chart : Fields ℕ
chart =
    entry "replicas" (num 1)
      (entry "image" (obj (entry "repo" (str "nginx") (entry "tag" (str "1.1") end))) end)

tag-IsPresent : IsPresent (obj overlay) tag
unfolding has field
tag-IsPresent = (refl, (refl, (refl, tt)), (refl, (refl, (refl, tt)), tt))

abbrev repo : List String
repo = "image" ∷ "repo" ∷ []

repo-IsAbsent : IsAbsent (obj overlay) repo
unfolding has field
repo-IsAbsent = ((refl, (refl, tt)), ((refl, (refl, tt)), tt))

-- The overlay's tag wins over the chart's, and the chart's repository is kept.
get-deep_merge_example : get_at_path (deep_merge (obj chart) (obj overlay)) tag ≡ str "1.2"
unfolding get_at_path field
get-deep_merge_example =
    get-deep_merge (obj chart) (obj overlay) tag (str "1.2") (wins tag-IsPresent refl)

repo_kept : get_at_path (deep_merge (obj chart) (obj overlay)) repo ≡ str "nginx"
unfolding get_at_path field
repo_kept = get-deep_merge (obj chart) (obj overlay) repo (str "nginx") (kept repo-IsAbsent)

deep_merge_run :
    deep_merge (obj chart) (obj overlay)
    ≡ obj (
        entry "replicas" (num 3) (
          entry "image"
            (obj (
              entry "repo"
                (str "nginx")
                (entry "tag" (str "1.2") (entry "pull" (str "Always") end))))
            end))
unfolding deep_merge merge_into put has field
deep_merge_run = refl
