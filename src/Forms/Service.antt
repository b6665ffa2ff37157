-- ===== src/Forms/Service.antt =====
-- The Service that web/src/components/CreateServiceModal.tsx creates, and its merge into the live
-- object. The object comes from JSON, so its JSON copy is equal to it; `spec` and the like are
-- objects where they are given.
use skyvirt_kubeui.Prelude.{String, ◌==◌, ◌&&◌, List, [], ◌∷◌, map, keep, if◌then◌else◌, not}
use skyvirt_kubeui.Prelude.Text.{trim, is_filled}
use skyvirt_kubeui.Json.{
  Json, num, str, arr, obj, Fields, end, entry, field, put, remove, is_empty, fields_of,
}
use skyvirt_kubeui.Forms.{Numerals, put_if, items, named, manifest}

pub record SelectorLabel : Type 0 where
  pub key : String
  pub value : String

pub record PortEntry : Type 0 where
  pub name : String
  pub port : String
  pub target_port : String
  pub node_port : String
  pub protocol : String

pub record ServiceForm : Type 0 where
  pub name : String
  pub namespace : String
  pub service_type : String
  pub selector_labels : List SelectorLabel
  pub ports : List PortEntry
  pub address_pool : String
  pub lb_ip : String

abbrev pub pool_key : String
pool_key = "metallb.universe.tf/address-pool"

abbrev pub ips_key : String
ips_key = "metallb.universe.tf/loadBalancerIPs"

module _ {N : Type 0} where
  abbrev pub selector_loop : List SelectorLabel → Fields N → Fields N
  selector_loop [] selector = selector
  selector_loop (l ∷ labels) selector =
      selector_loop labels
        (put_if (is_filled (trim l.key)) (trim l.key) (str (trim l.value)) selector)

  unfoldable pub build_selector : ServiceForm → Fields N
  build_selector f = selector_loop f.selector_labels end

  unfoldable pub pool_annotations : ServiceForm → Fields N
  pool_annotations f =
      if f.service_type == "LoadBalancer"
      then put_if (is_filled (trim f.lb_ip)) ips_key (str (trim f.lb_ip))
          (put_if (is_filled f.address_pool) pool_key (str f.address_pool) end)
      else end

  -- `Object.assign(a, b)`
  unfoldable pub assign : Fields N → Fields N → Fields N
  assign a end = a
  assign a (entry k v b) = assign (put k v a) b

  -- `if (Object.keys(v).length) o[k] = v; else delete o[k]`
  abbrev pub put_or_remove : String → Fields N → Fields N → Fields N
  put_or_remove k v o = if is_empty v then remove k o else put k (obj v) o

module _ {N : Type 0} (numerals : Numerals N) where
  abbrev pub target_of : String → Json N
  target_of text =
      if numerals.is_nan (numerals.parse_int text)
      then str (trim text)
      else num (numerals.parse_int text)

  abbrev pub port_spec : ServiceForm → PortEntry → Json N
  port_spec f p =
      let spec =
        entry "port" (num (numerals.parse_int p.port)) (entry "protocol" (str p.protocol) end) in
      let name = put_if (is_filled (trim p.name)) "name" (str (trim p.name)) spec in
      let target =
        put_if (is_filled (trim p.target_port)) "targetPort" (target_of p.target_port) name in
      obj (
        put_if ((f.service_type == "NodePort") && is_filled (trim p.node_port)) "nodePort"
          (num (numerals.parse_int p.node_port)) target)

  unfoldable pub build_port_specs : ServiceForm → Json N
  build_port_specs f = arr (items (map (port_spec f) (keep (λ p. is_filled p.port) f.ports)))

  unfoldable pub service_manifest : ServiceForm → Fields N
  service_manifest f =
      let annotations = pool_annotations f in
      let selector = build_selector f in
      manifest "v1" "Service"
        (put_if (not (is_empty annotations)) "annotations" (obj annotations)
          (named f.name f.namespace))
        (put "ports" (build_port_specs f) (
          put_if (not (is_empty selector)) "selector" (obj selector)
            (entry "type" (str f.service_type) end)))

  abbrev pub edit_spec : ServiceForm → Fields N → Fields N
  edit_spec f spec =
      put "ports" (build_port_specs f)
        (put_or_remove "selector" (build_selector f) (put "type" (str f.service_type) spec))

  abbrev pub edit_annotations : ServiceForm → Fields N → Fields N
  edit_annotations f annotations =
      assign (remove ips_key (remove pool_key annotations)) (pool_annotations f)

  abbrev pub edit_metadata : ServiceForm → Fields N → Fields N
  edit_metadata f metadata =
      put_or_remove "annotations" (edit_annotations f (fields_of (field "annotations" metadata)))
        metadata

  unfoldable pub edit_service : ServiceForm → Fields N → Fields N
  edit_service f original =
      put "metadata" (obj (edit_metadata f (fields_of (field "metadata" original))))
        (put "spec" (obj (edit_spec f (fields_of (field "spec" original)))) original)
