-- ===== src/Forms/Restricted.antt =====
-- A filled rule of web/src/components/CreateNetworkPolicyModal.tsx stays a restriction.
use skyvirt_kubeui.Prelude.{
  ℕ, ◌+◌, String, ◌==◌, ◌≡◌, refl, ◌∙◌, Bool, true, false, ◌||◌, List, [], ◌∷◌, ◌++◌, Option, none,
  some, is_some, ltb, arith, All, Bool-cases, inl, inr,
}
use skyvirt_kubeui.Prelude.Text.{trim, is_filled}
use skyvirt_kubeui.Json.{Json, str, arr, cons, Fields, end, field, put}
use skyvirt_kubeui.Json.Laws.{field-put, field-put_self}
use skyvirt_kubeui.Forms.{Numerals, put_if, items}
use mathlib.Core.Path.{subst}
use skyvirt_kubeui.Forms.Narrow.{IsNarrow, build_peer_block-IsNarrow}
use skyvirt_kubeui.Forms.Policy.{
  LabelEntry, PolicyRule, labels_loop, labels_to_map, selected, ip_block, build_peer_block, some_of,
  build_ports_block, rule_entry, has_label, IsRestricted,
}

module _ {N : Type 0} where
  is_some-labels_loop :
      (entries : List LabelEntry) (labels : Fields N) (count : ℕ)
      → is_some (labels_loop entries labels count) ≡ (ltb 0 count || has_label entries)
  is_some-labels_loop [] labels count = ground arith
  is_some-labels_loop (l ∷ entries) labels count = elim (Bool-cases (is_filled (trim l.key))) [
    | inl e ↦
        rw
          (
            e,
            is_some-labels_loop entries (put (trim l.key) (str (trim l.value)) labels) (count + 1),
          )
          (ground arith)
    | inr e ↦ rw (e, is_some-labels_loop entries labels count) refl
  ]

  field-put_if_other :
      (cond : Bool) (k j : String) (v : Json N) (fs : Fields N)
      → (k == j) ≡ false
      → field j (put_if cond k v fs) ≡ field j fs
  field-put_if_other true k j v fs e = rw (field-put, e) refl
  field-put_if_other false k j v fs e = refl

  abbrev IsSome : List (Json N) → Type 0
  IsSome peers = (v : Json N) × (vs : List (Json N)) × (peers ≡ v ∷ vs)

  IsSome-block :
      (pods namespaces : Option (Fields N)) (cidr : String)
      → (is_some pods || (is_some namespaces || is_filled cidr)) ≡ true
      → IsSome (selected pods namespaces ++ ip_block cidr)
  IsSome-block (some p) namespaces cidr h = (_, _, refl)
  IsSome-block none (some n) cidr h = (_, _, refl)
  IsSome-block none none cidr h = rw h (_, _, refl)

  IsSome-build_peer_block : (rule : PolicyRule) → IsRestricted rule → IsSome (build_peer_block rule)
  unfolding build_peer_block labels_to_map
  IsSome-build_peer_block rule h =
      IsSome-block (labels_to_map rule.pod_selector) (labels_to_map rule.namespace_selector)
        (trim rule.cidr)
        (rw
          (
            is_some-labels_loop rule.pod_selector end 0,
            is_some-labels_loop rule.namespace_selector end 0,
          )
          h)

  -- An entry for a rule with a label or a range that is filled in names at least one peer, in
  -- either direction, and no peer but these: the range that is filled in, or what has all the labels
  -- of the pods or of the namespaces or of both, at least one of each that is named and, for each
  -- key, with the value that the last entry with the key gives it.
  pub rule_entry-Restricted :
      (numerals : Numerals N) (direction : String) (rule : PolicyRule)
      → ("ports" == direction) ≡ false
      → IsRestricted rule
      → (v : Json N) × (vs : List (Json N)) × (field direction (rule_entry numerals direction rule)
          ≡ arr (cons v (items vs)))
        × All (IsNarrow rule) (v ∷ vs)
  unfolding rule_entry
  rule_entry-Restricted numerals direction rule other h =
      let (v, vs, e) = IsSome-build_peer_block rule h in
      (
        v,
        vs,
        field-put_if_other (some_of (build_ports_block numerals rule.ports)) "ports" direction
              (arr (items (build_ports_block numerals rule.ports)))
              (put_if (some_of (build_peer_block rule)) direction
                (arr (items (build_peer_block rule))) end)
              other
            ∙ rw e (field-put_self direction (arr (cons v (items vs))) end),
        subst (All (IsNarrow rule)) e (build_peer_block-IsNarrow N rule),
      )
