-- ===== src/Api/Fixes.antt =====
-- `applyProposedFix` of web/src/api/client.ts: the actions that an approved fix can take.
use skyvirt_kubeui.Prelude.{
  String, ◌==◌, ◌≡◌, refl, arith, eq_iff, ◌↔◌, Option, none, some, if◌then◌else◌, inl, inr, ◌⊎◌,
  Bool-cases, All,
}
use mathlib.Core.Path.{subst}
use mathlib.Core.Option.{some-injective}
use skyvirt_kubeui.Api.{Request}
use skyvirt_kubeui.Api.Nodes
use skyvirt_kubeui.Api.Workloads
use skyvirt_kubeui.Api.Paths.{IsSegment}
use skyvirt_kubeui.Api.Served.Serving.{Router, IsRouter, Served}
use skyvirt_kubeui.Api.Served.Nodes as N
use skyvirt_kubeui.Api.Served.Workloads as W

pub data FixAction : Type 0 where
  restart delete_pod uncordon cordon : FixAction

pub record ProposedFix : Type 0 where
  pub action : FixAction
  pub kind : String
  pub namespace : Option String
  pub name : String

-- `fix.namespace ?? ""`
abbrev pub namespace_of : Option String → String
namespace_of none = ""
namespace_of (some ns) = ns

abbrev pub restart_of : String → String → String → Option Request
restart_of kind ns name =
    if kind == "Deployment"
    then some (Workloads.restart_deployment ns name)
    else if kind == "StatefulSet"
    then some (Workloads.restart_stateful_set ns name)
    else if kind == "DaemonSet"
    then some (Workloads.restart_daemon_set ns name)
    else none

-- The `switch` over the action; `none` for "Unsupported fix action".
abbrev pub apply_action : FixAction → String → String → String → Option Request
apply_action delete_pod kind ns name = some (Nodes.delete_pod ns name)
apply_action restart kind ns name = restart_of kind ns name
apply_action uncordon kind ns name = some (Nodes.uncordon_node name)
apply_action cordon kind ns name = some (Nodes.cordon_node name)

unfoldable pub apply_proposed_fix : ProposedFix → Option Request
apply_proposed_fix fix = apply_action fix.action fix.kind (namespace_of fix.namespace) fix.name

-- The handlers that a fix may reach, of the objects that it may act on.
pub data IsAllowed : String → Type 0 where
  deletes : IsAllowed "pods.Delete"
  restarts_deployment : IsAllowed "deps.Restart"
  restarts_stateful_set : IsAllowed "sts.Restart"
  restarts_daemon_set : IsAllowed "ds.Restart"
  uncordons : IsAllowed "nodes.Uncordon"
  cordons : IsAllowed "nodes.Cordon"

abbrev pub Reaches : Router → Request → Type 0
Reaches router req = (h : String) × IsAllowed h × Served router req h

abbrev pub IsRestarted : String → Type 0
IsRestarted kind = (kind ≡ "Deployment") ⊎ ((kind ≡ "StatefulSet") ⊎ (kind ≡ "DaemonSet"))

module _ (router : Router) (r : IsRouter router) where
  node_call :
      (c : N.Call) (req : Request)
      → All IsSegment (N.names_of (λ s. s) c)
      → IsAllowed (N.handler_of c)
      → some (N.request_of (λ s. s) c) ≡ some req
      → Reaches router req
  node_call c req names allowed e =
      subst (Reaches router) (some-injective _ _ e)
        (N.handler_of c, allowed, N.Served-Nodes router r (λ s. s) c names)

  workload_call :
      (c : W.Call) (req : Request)
      → All IsSegment (W.names_of (λ s. s) c)
      → IsAllowed (W.handler_of c)
      → some (W.request_of (λ s. s) c) ≡ some req
      → Reaches router req
  workload_call c req names allowed e =
      subst (Reaches router) (some-injective _ _ e)
        (W.handler_of c, allowed, W.Served-Workloads router r (λ s. s) c names)

  restart_of-Reaches :
      (kind ns name : String) (req : Request)
      → IsSegment ns
      → IsSegment name
      → restart_of kind ns name ≡ some req
      → Reaches router req
  restart_of-Reaches kind ns name req hn hm e = elim (Bool-cases (kind == "Deployment")) [
    | inl d ↦
        workload_call (W.restart_deployment ns name) req (hn, (hm, tt)) restarts_deployment
          (rw d at e)
    | inr nd ↦ elim (Bool-cases (kind == "StatefulSet")) [
      | inl d ↦
          workload_call (W.restart_stateful_set ns name) req (hn, (hm, tt)) restarts_stateful_set
            (rw (nd, d) at e)
      | inr ns' ↦ elim (Bool-cases (kind == "DaemonSet")) [
        | inl d ↦
            workload_call (W.restart_daemon_set ns name) req (hn, (hm, tt)) restarts_daemon_set
              (rw (nd, ns', d) at e)
        | inr n ↦ let bad : none ≡ some req = rw (nd, ns', n) at e in cc
      ]
    ]
  ]

  apply_action-Reaches :
      (action : FixAction) (kind ns name : String) (req : Request)
      → IsSegment ns
      → IsSegment name
      → apply_action action kind ns name ≡ some req
      → Reaches router req
  apply_action-Reaches delete_pod kind ns name req hn hm e =
      node_call (N.delete_pod ns name) req (hn, (hm, tt)) deletes e
  apply_action-Reaches restart kind ns name req hn hm e =
      restart_of-Reaches kind ns name req hn hm e
  apply_action-Reaches uncordon kind ns name req hn hm e =
      node_call (N.uncordon_node name) req (hm, tt) uncordons e
  apply_action-Reaches cordon kind ns name req hn hm e =
      node_call (N.cordon_node name) req (hm, tt) cordons e

restart_of-none : (kind ns name : String) → (restart_of kind ns name ≡ none) ↔ (¬ IsRestarted kind)
restart_of-none kind ns name =
    ground (arith, eq_iff kind "Deployment", eq_iff kind "StatefulSet", eq_iff kind "DaemonSet")

apply_action-none :
    (action : FixAction) (kind ns name : String)
    → (apply_action action kind ns name ≡ none) ↔ ((action ≡ restart) × ¬ IsRestarted kind)
apply_action-none restart kind ns name =
    let (f, g) = restart_of-none kind ns name in (λ e. (refl, f e), λ h. g h.1)
apply_action-none delete_pod kind ns name = (λ e. cc, λ h. cc)
apply_action-none uncordon kind ns name = (λ e. cc, λ h. cc)
apply_action-none cordon kind ns name = (λ e. cc, λ h. cc)

-- A fix whose namespace and name are segments sends nothing but a request that reaches one of six
-- handlers: it deletes a pod, restarts a deployment, a stateful set or a daemon set, or cordons or
-- uncordons a node.
pub apply_proposed_fix-Reaches :
    (router : Router)
    → IsRouter router
    → (fix : ProposedFix) (req : Request) → IsSegment (namespace_of fix.namespace)
    → IsSegment fix.name
    → apply_proposed_fix fix ≡ some req
    → Reaches router req
unfolding apply_proposed_fix
apply_proposed_fix-Reaches router r fix req hn hm e =
    apply_action-Reaches router r fix.action fix.kind (namespace_of fix.namespace) fix.name req hn
      hm e

-- A fix is refused exactly if it restarts something else than a deployment, a stateful set or a
-- daemon set.
pub apply_proposed_fix-refused :
    (fix : ProposedFix)
    → (apply_proposed_fix fix ≡ none) ↔ ((fix.action ≡ restart) × ¬ IsRestarted fix.kind)
unfolding apply_proposed_fix
apply_proposed_fix-refused fix =
    apply_action-none fix.action fix.kind (namespace_of fix.namespace) fix.name
