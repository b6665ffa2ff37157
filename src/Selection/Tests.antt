-- ===== src/Selection/Tests.antt =====
-- The witnesses of the selection's theorems.
use skyvirt_kubeui.Prelude.{◌≡◌, String, not, List, [], ◌∷◌, map, if◌then◌else◌}
use skyvirt_kubeui.Selection.{has, toggle_all, all_selected}
use skyvirt_kubeui.Selection.Laws.{has-toggle_all}

abbrev key : String → String
key r = r

abbrev rows : List String
rows = "default/web" ∷ "default/db" ∷ []

abbrev selected : List String
selected = "default/db" ∷ "kube-system/dns" ∷ []

has-toggle_all_example : has "default/web" (toggle_all key rows selected) ≡ (
    if has "default/web" (map key rows)
    then not (all_selected key rows selected)
    else has "default/web" selected)
has-toggle_all_example = has-toggle_all key "default/web" rows selected
