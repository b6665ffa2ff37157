-- ===== src/Drift/Tests.antt =====
-- Runs of the comparison with the last applied configuration at small objects.
use skyvirt_kubeui.Prelude.{ℕ, false, String, List, [], ◌∷◌, ◌≡◌, refl, some}
use skyvirt_kubeui.Json.{Json, num, str, arr, obj, nil, cons, Fields, end, entry, field, has}
use skyvirt_kubeui.Overlay.{get_at_path}
use skyvirt_kubeui.Drift.{
  is_structure, prune_to_shape, prune_items, prune_fields, last_applied, last_applied_key,
}
use skyvirt_kubeui.Drift.Prune.{IsDeclared, IsUndeclared, get-prune_to_shape}

abbrev declared : Json ℕ
declared = obj (entry "spec" (obj (entry "replicas" (num 2) end)) end)

abbrev live : Json ℕ
live = obj (
    entry "spec" (obj (entry "replicas" (num 5) (entry "paused" (num 0) end)))
      (entry "status" (num 1) end))

abbrev replicas : List String
replicas = "spec" ∷ "replicas" ∷ []

abbrev paused : List String
paused = "spec" ∷ "paused" ∷ []

replicas-IsDeclared : IsDeclared declared replicas
unfolding has field
replicas-IsDeclared = (refl, (refl, tt))

replicas_scalar : is_structure (get_at_path declared replicas) ≡ false
unfolding get_at_path field
replicas_scalar = refl

get-prune_to_shape_example :
    get_at_path (prune_to_shape live declared) replicas ≡ get_at_path live replicas
get-prune_to_shape_example =
    get-prune_to_shape live declared replicas replicas-IsDeclared replicas_scalar

paused-IsUndeclared : IsUndeclared declared paused
unfolding has field
paused-IsUndeclared = tt

abbrev stamped : Fields ℕ
stamped =
    entry "metadata"
      (obj (
        entry "name" (str "web") (
          entry "creationTimestamp" (str "now")
            (entry "annotations" (obj (entry last_applied_key (str "{}") end)) end))))
      end

last_applied_run : last_applied {N = ℕ} (λ s. some (num 0)) stamped ≡ some (num 0)
unfolding last_applied field
last_applied_run = refl

-- Two declared containers with different keys, unchanged in the cluster: the first one is the
-- template of both, so the second one loses what it declares.
abbrev first_container : Json ℕ
first_container = obj (entry "name" (str "app") end)

abbrev second_container : Json ℕ
second_container = obj (entry "name" (str "proxy") (entry "port" (num 80) end))

prune_to_shape_template :
    prune_to_shape
      (arr (cons first_container (cons second_container nil)))
      (arr (cons first_container (cons second_container nil)))
    ≡ arr (cons first_container (cons (obj (entry "name" (str "proxy") end)) nil))
unfolding prune_to_shape prune_items prune_fields field
prune_to_shape_template = refl
