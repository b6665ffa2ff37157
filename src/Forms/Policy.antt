-- ===== src/Forms/Policy.antt =====
-- The NetworkPolicy that web/src/components/CreateNetworkPolicyModal.tsx creates, and the claim of
-- CreatePVCModal.tsx.
use skyvirt_kubeui.Prelude.{
  ℕ, String, ◌≡◌, Bool, true, false, ◌||◌, List, [], ◌∷◌, ◌++◌, map, keep, if◌then◌else◌, Option,
  none, some, ltb, ◌+◌,
}
use skyvirt_kubeui.Prelude.Text.{trim, is_filled}
use skyvirt_kubeui.Json.{Json, num, str, arr, obj, Items, nil, cons, Fields, end, entry, put}
use skyvirt_kubeui.Forms.{Numerals, put_if, items, named, manifest}

pub record LabelEntry : Type 0 where
  pub key : String
  pub value : String

pub record PolicyPort : Type 0 where
  pub port : String
  pub protocol : String

-- `IngressRule` and `EgressRule`, which have the same fields
pub record PolicyRule : Type 0 where
  pub pod_selector : List LabelEntry
  pub namespace_selector : List LabelEntry
  pub cidr : String
  pub ports : List PolicyPort

pub record PolicyForm : Type 0 where
  pub name : String
  pub namespace : String
  pub pod_selector : List LabelEntry
  pub enable_ingress : Bool
  pub enable_egress : Bool
  pub ingress_rules : List PolicyRule
  pub egress_rules : List PolicyRule

pub record ClaimForm : Type 0 where
  pub name : String
  pub namespace : String
  pub storage_class : String
  pub access_mode : String
  pub capacity : String

module _ {N : Type 0} where
  -- The loop of `labelsToMap`, with its count.
  abbrev pub labels_loop : List LabelEntry → Fields N → ℕ → Option (Fields N)
  labels_loop [] labels count = if ltb 0 count then some labels else none
  labels_loop (l ∷ entries) labels count =
      if is_filled (trim l.key)
      then labels_loop entries (put (trim l.key) (str (trim l.value)) labels) (count + 1)
      else labels_loop entries labels count

  unfoldable pub labels_to_map : List LabelEntry → Option (Fields N)
  labels_to_map entries = labels_loop entries end 0

  abbrev pub match_labels : Option (Fields N) → Fields N
  match_labels none = end
  match_labels (some labels) = entry "matchLabels" (obj labels) end

  abbrev pub put_selector : String → Option (Fields N) → Fields N → Fields N
  put_selector k none peer = peer
  put_selector k (some labels) peer = put k (obj (match_labels (some labels))) peer

  abbrev pub selected : Option (Fields N) → Option (Fields N) → List (Json N)
  selected none none = []
  selected pods namespaces =
      obj (put_selector "namespaceSelector" namespaces (put_selector "podSelector" pods end)) ∷ []

  abbrev pub ip_block : String → List (Json N)
  ip_block cidr =
      if is_filled cidr
      then obj (entry "ipBlock" (obj (entry "cidr" (str cidr) end)) end) ∷ []
      else []

  unfoldable pub build_peer_block : PolicyRule → List (Json N)
  build_peer_block rule =
      selected (labels_to_map rule.pod_selector) (labels_to_map rule.namespace_selector)
      ++ ip_block (trim rule.cidr)

  abbrev pub some_of : List (Json N) → Bool
  some_of [] = false
  some_of (_ ∷ _) = true

module _ {N : Type 0} (numerals : Numerals N) where
  unfoldable pub build_ports_block : List PolicyPort → List (Json N)
  build_ports_block ports =
      map
        (λ p.
          obj (
            entry "port" (num (numerals.parse_int p.port)) (entry "protocol" (str p.protocol) end)))
        (keep (λ p. is_filled (trim p.port)) ports)

  -- An entry of `spec.ingress`, with `from`, or of `spec.egress`, with `to`.
  unfoldable pub rule_entry : String → PolicyRule → Fields N
  rule_entry direction rule =
      let peers = build_peer_block rule in
      let ports = build_ports_block rule.ports in
      put_if (some_of ports) "ports" (arr (items ports))
        (put_if (some_of peers) direction (arr (items peers)) end)

  abbrev pub policy_types : Bool → Bool → Items N
  policy_types ingress egress =
      let outward = if egress then cons (str "Egress") nil else nil in
      if ingress then cons (str "Ingress") outward else outward

  unfoldable pub policy_manifest : PolicyForm → Fields N
  policy_manifest f =
      let spec =
        entry "podSelector" (obj (match_labels (labels_to_map f.pod_selector)))
          (entry "policyTypes" (arr (policy_types f.enable_ingress f.enable_egress)) end) in
      let ingress =
        put_if f.enable_ingress "ingress"
          (arr (items (map (λ r. obj (rule_entry "from" r)) f.ingress_rules))) spec in
      manifest "networking.k8s.io/v1" "NetworkPolicy" (named f.name f.namespace) (
        put_if f.enable_egress "egress"
          (arr (items (map (λ r. obj (rule_entry "to" r)) f.egress_rules))) ingress)

-- CreatePVCModal
module _ {N : Type 0} where
  unfoldable pub claim_manifest : ClaimForm → Fields N
  claim_manifest f =
      let requests =
        obj (entry "requests" (obj (entry "storage" (str (trim f.capacity)) end)) end) in
      manifest "v1" "PersistentVolumeClaim" (named f.name f.namespace) (
        put_if (is_filled (trim f.storage_class)) "storageClassName" (str (trim f.storage_class)) (
          entry "accessModes" (arr (cons (str f.access_mode) nil))
            (entry "resources" requests end)))

-- A rule with a label, or a range of addresses, that is filled in.
abbrev pub has_label : List LabelEntry → Bool
has_label [] = false
has_label (l ∷ entries) = is_filled (trim l.key) || has_label entries

abbrev pub IsRestricted : PolicyRule → Type 0
IsRestricted rule =
    (has_label rule.pod_selector
      || (has_label rule.namespace_selector || is_filled (trim rule.cidr)))
    ≡ true
