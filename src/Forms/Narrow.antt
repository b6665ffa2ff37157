-- ===== src/Forms/Narrow.antt =====
-- What the peers of a rule of web/src/components/CreateNetworkPolicyModal.tsx are: the labels of
-- each selector, key by key, and the range of addresses.
use skyvirt_kubeui.Prelude.{
  ℕ, ◌+◌, ◌<◌, String, ◌==◌, ◌≡◌, refl, sym, ap, ◌∙◌, true, false, ◌&&◌, List, [], ◌∷◌, ◌++◌,
  Option, none, some, ltb, arith, All, Bool-cases, inl, inr, if◌then◌else◌,
}
use mathlib.Core.Option.{some-injective}
use skyvirt_kubeui.Prelude.Text.{trim, is_filled}
use skyvirt_kubeui.Json.{Json, undefined, str, obj, Fields, end, entry, field, put, is_empty}
use skyvirt_kubeui.Json.Laws.{field-put}
use skyvirt_kubeui.Forms.Policy.{
  LabelEntry, PolicyRule, labels_loop, labels_to_map, selected, ip_block, build_peer_block,
}

-- What an entry says of a key, once blanks around keys and values are cut; one with a blank key
-- says nothing.
abbrev pub of_entry : String → LabelEntry → Option String
of_entry k l = if is_filled (trim l.key) && trim l.key == k then some (trim l.value) else none

abbrev pub unless_later : Option String → Option String → Option String
unless_later none earlier = earlier
unless_later (some v) earlier = some v

-- The value that the last entry with a key gives it.
abbrev pub last_value : String → List LabelEntry → Option String
last_value k [] = none
last_value k (l ∷ entries) = unless_later (last_value k entries) (of_entry k l)

module _ {N : Type 0} where
  abbrev or_else : Option String → Json N → Json N
  or_else none v = v
  or_else (some s) v = str s

  -- At least one label, and for each key the value that the last entry gives it.
  pub record HasLabels (entries : List LabelEntry) (labels : Fields N) : Type 0 where
    pub not_empty : is_empty labels ≡ false
    pub each : (k : String) → field k labels ≡ or_else (last_value k entries) undefined

  -- A peer that takes part of the cluster or of the addresses only.
  pub data IsNarrow (rule : PolicyRule) : Json N → Type 0 where
    by_range :
        is_filled (trim rule.cidr) ≡ true
        → IsNarrow rule (obj (entry "ipBlock" (obj (entry "cidr" (str (trim rule.cidr)) end)) end))
    by_pods :
        {pods : Fields N}
        → HasLabels rule.pod_selector pods
        → IsNarrow rule (obj (entry "podSelector" (obj (entry "matchLabels" (obj pods) end)) end))
    by_namespaces :
        {spaces : Fields N}
        → HasLabels rule.namespace_selector spaces
        → IsNarrow rule
            (obj (entry "namespaceSelector" (obj (entry "matchLabels" (obj spaces) end)) end))
    by_both :
        {pods spaces : Fields N}
        → HasLabels rule.pod_selector pods
        → HasLabels rule.namespace_selector spaces
        → IsNarrow rule (
            obj (
              entry "podSelector"
                (obj (entry "matchLabels" (obj pods) end))
                (entry "namespaceSelector" (obj (entry "matchLabels" (obj spaces) end)) end)))

  is_empty-put : (k : String) (v : Json N) (fs : Fields N) → is_empty (put k v fs) ≡ false
  unfolding put
  is_empty-put k v end = refl
  is_empty-put k v (entry j w fs) = ground arith

  is_empty-labels_loop :
      (entries : List LabelEntry) (labels out : Fields N) (count : ℕ)
      → (0 < count → is_empty labels ≡ false)
      → labels_loop entries labels count ≡ some out
      → is_empty out ≡ false
  is_empty-labels_loop [] labels out count h e = elim (Bool-cases (ltb 0 count)) [
    | inl t ↦ ap is_empty (sym (some-injective _ _ (rw t at e))) ∙ h (ground arith)
    | inr f ↦ let e' : ◌≡◌ {A = Option (Fields N)} none (some out) = rw f at e in absurd (cc)
  ]
  is_empty-labels_loop (l ∷ entries) labels out count h e =
      elim (Bool-cases (is_filled (trim l.key))) [
        | inl t ↦
            is_empty-labels_loop entries (put (trim l.key) (str (trim l.value)) labels) out
              (count + 1) (λ _. is_empty-put (trim l.key) (str (trim l.value)) labels) (rw t at e)
        | inr f ↦ is_empty-labels_loop entries labels out count h (rw f at e)
      ]

  or_else-filled :
      (later : Option String) (k : String) (l : LabelEntry) (labels : Fields N)
      → is_filled (trim l.key) ≡ true
      → or_else later (field k (put (trim l.key) (str (trim l.value)) labels))
        ≡ or_else (unless_later later (of_entry k l)) (field k labels)
  or_else-filled none k l labels t = elim (Bool-cases (trim l.key == k)) [
    | inl e ↦ rw (field-put, t, e) refl
    | inr e ↦ rw (field-put, t, e) refl
  ]
  or_else-filled (some w) k l labels t = refl

  or_else-blank :
      (later : Option String) (k : String) (l : LabelEntry) (v : Json N)
      → is_filled (trim l.key) ≡ false
      → or_else later v ≡ or_else (unless_later later (of_entry k l)) v
  or_else-blank none k l v f = rw f refl
  or_else-blank (some w) k l v f = refl

  field-labels_loop :
      (entries : List LabelEntry) (labels out : Fields N) (count : ℕ) (k : String)
      → labels_loop entries labels count ≡ some out
      → field k out ≡ or_else (last_value k entries) (field k labels)
  field-labels_loop [] labels out count k e = elim (Bool-cases (ltb 0 count)) [
    | inl t ↦ ap (field k) (sym (some-injective _ _ (rw t at e)))
    | inr f ↦ let e' : ◌≡◌ {A = Option (Fields N)} none (some out) = rw f at e in absurd (cc)
  ]
  field-labels_loop (l ∷ entries) labels out count k e =
      elim (Bool-cases (is_filled (trim l.key))) [
        | inl t ↦
            field-labels_loop entries (put (trim l.key) (str (trim l.value)) labels) out (count + 1)
              k (rw t at e)
            ∙ or_else-filled (last_value k entries) k l labels t
        | inr f ↦
            field-labels_loop entries labels out count k (rw f at e)
            ∙ or_else-blank (last_value k entries) k l (field k labels) f
      ]

  labels_to_map-HasLabels :
      (entries : List LabelEntry) (labels : Fields N)
      → labels_to_map entries ≡ some labels
      → HasLabels entries labels
  unfolding labels_to_map field
  labels_to_map-HasLabels entries labels e = record {
    not_empty = is_empty-labels_loop entries end labels 0 (λ h. absurd (omega arith)) e;
    each = λ k. field-labels_loop entries end labels 0 k e;
  }

IsNarrow-ip_block :
    (N : Type 0) (rule : PolicyRule) → All (IsNarrow {N = N} rule) (ip_block (trim rule.cidr))
IsNarrow-ip_block N rule = elim (Bool-cases (is_filled (trim rule.cidr))) [
  | inl e ↦ rw e (by_range e, tt)
  | inr e ↦ rw e tt
]

IsNarrow-block :
    (N : Type 0) (rule : PolicyRule) (pods spaces : Option (Fields N))
    → ((fs : Fields N) → pods ≡ some fs → HasLabels rule.pod_selector fs)
    → ((fs : Fields N) → spaces ≡ some fs → HasLabels rule.namespace_selector fs)
    → All (IsNarrow rule) (selected pods spaces ++ ip_block (trim rule.cidr))
unfolding put
IsNarrow-block N rule none none p s = IsNarrow-ip_block N rule
IsNarrow-block N rule (some a) none p s = (by_pods (p a refl), IsNarrow-ip_block N rule)
IsNarrow-block N rule none (some b) p s = (by_namespaces (s b refl), IsNarrow-ip_block N rule)
IsNarrow-block N rule (some a) (some b) p s =
    (by_both (p a refl) (s b refl), IsNarrow-ip_block N rule)

pub build_peer_block-IsNarrow :
    (N : Type 0) (rule : PolicyRule) → All (IsNarrow rule) (build_peer_block {N = N} rule)
unfolding build_peer_block
build_peer_block-IsNarrow N rule =
    IsNarrow-block N rule (labels_to_map rule.pod_selector) (labels_to_map rule.namespace_selector)
      (labels_to_map-HasLabels rule.pod_selector) (labels_to_map-HasLabels rule.namespace_selector)
