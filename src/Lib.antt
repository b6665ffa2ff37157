-- ===== src/Lib.antt =====
-- Verification of the front end of SkyVirt KubeUI: its own state and computations, which are in
-- web/src/lib, web/src/hooks and the forms of web/src/components.
--
-- How the program works. A page lists a kind of Kubernetes resource. `useResource` fetches the
-- list; `useLiveResource` opens a watch over a WebSocket (`openWatchConnection` of `useWatch`),
-- patches the list in place or fetches it again after a burst of changes, and shows the state of
-- the connection. The rows are filtered by a label selector (`useLabelSelector`), sorted
-- (`useSortableTable`), cut into pages (`usePagination`) and selected (`useRowSelection`) for bulk
-- operations (`runBulk`). What the user chose is kept in the query of the address (`useUrlState`).
-- The catalog reads the fields of a form from a chart's schema and edits a sparse overlay over its
-- values (`schemaForm`), manifests are compared by lines (`diff`), the drift page compares live
-- objects with their last applied configuration (`drift`), and the forms build manifests or merge
-- their inputs into a live object. Every call goes through `request` of the client of the HTTP
-- interface, with the token that the provider of the session stores (`useAuth`).
--
-- The files.
--   Prelude     names passed on from the libraries; Boolean tests and lists on native numbers;
--               Prelude/Text is JavaScript's `trim`, Prelude/Dict is a plain object with text keys.
--   Diff        web/src/lib/diff.ts. Sides: what each column shows. Trim: the common head and tail.
--               Lcs: the table against the textbook recursion. Kept: the lines kept, and
--               counts. Same: a text with itself.
--   Json        JavaScript values; an object is a list of keys in insertion order.
--   Overlay     the path operations and the merge of web/src/lib/schemaForm.ts. Paths: reads after
--               writes and deletions. Tidy: empty containers. Merge: what the preview shows.
--   Schema      the walk over a chart's schema in the same file, and the check and the texts of the
--               values. Reading: a node. Bounds, Ends: the measure of the walk. Sources, Sourced:
--               where fields come from. Values, Meaning, Accepted: the checks and the
--               preview.
--   Selection   `useRowSelection` of web/src/hooks/useRowSelection.ts, over a set of keys.
--   Bulk        `runBulk` of the same file: workers that share a queue, a step for each `shift` and
--               each settled operation. Invariant: what every step keeps. Progress: the end.
--   Watch       `openWatchConnection` of web/src/hooks/useWatch.ts: sockets, timer and visibility as
--               one state, a function for each handler, `Steps` for their order. Range: the
--               bounds of the backoff. Ending: closed sockets. Laws: the end, and failing attempts.
--               Sockets: how many are open.
--   Live        web/src/hooks/useLiveResource.ts. Patch: the list after an event, and the coalescing
--               timer. Status: the aggregate of several watches.
--   Pagination  web/src/hooks/usePagination.tsx. Pages: the cut. Window: the numbers under a table.
--   Drift       web/src/lib/drift.ts. Prune: the pruned live object. Noise: what is stripped.
--   Labels      web/src/hooks/useLabelSelector.tsx. Matching: the terms. Pieces, Splitting: the
--               query.
--   Workload    `buildManifest` of web/src/components/CreateWorkloadModal.tsx. Manifest: the objects.
--               Labelled: labels and selectors.
--   Url         web/src/hooks/useUrlState.ts, `toggleSort` of web/src/hooks/useSortableTable.tsx and
--               `setPageSize` of web/src/hooks/usePagination.tsx. Writes: what a handler leaves.
--   Resource    web/src/hooks/useResource.ts: runs of the effect and their answers, in any order.
--   Api         web/src/api/client.ts: Nodes, Workloads, Config, Helm, Reports and Manage have a
--               function for each call. Router: the table of internal/api/router.go, and which of its
--               routes match. Served: the handler of each call. Session: `request` and its errors.
--               Fixes: `applyProposedFix`.
--   Forms       CreateHPAModal, CreateResourceQuotaModal and CreateSecretModal of
--               web/src/components; Service: CreateServiceModal; Ingress: CreateIngressModal; Policy:
--               CreateNetworkPolicyModal and CreatePVCModal. Edits, Rules: what an edit keeps. Sealed:
--               refused and encoded inputs. Narrow, Restricted: the peers of a policy.
--   Auth        web/src/hooks/useAuth.tsx and web/src/lib/clusterContext.ts. Fragment: the parameters
--               of the address. Token: the handed-over context, and the check of a token. Checked:
--               what passes it. Verified: the token kept. Synced: the token sent.
-- Each Tests module runs the definitions on small inputs.
--
-- Conventions. The code's names are in snake case. `undefined` is `none`, or a value of its own in
-- Json. Numbers are natural numbers; the page size, which a hand-written address can make
-- negative, is an integer, and the numbers of a form are a type with its operations. Loops are
-- structural recursion, so no fuel is needed, but for the walk over a schema: its fuel, that of
-- `enough_fuel` in Schema/Ends, is the size of the schema, once more for each text in it, since every
-- reference that the walk follows uses up one of these texts. The asynchronous parts are step relations
-- without a bound on the number of steps. A text is its characters.
--
-- Parameters, for what is not in the repository: the operation of a bulk run settles either way at
-- any time; a socket's events come in any order that its ready state allows; the router gives
-- an update the query of the render that made the setter it came by; `JSON.parse` and
-- the JSON copy of an object are functions; the network answers a call or fails; a router serves a
-- request by the routes that match it; the YAML package, `encodeURIComponent`, `atob`, `parseInt`,
-- the conversion of a value to a number and regular expressions are functions, and the time of a
-- token's check is a number.
--
-- Not modelled: the markup and the pages; the regular expressions of label terms and of the syntax
-- highlighting; the comparison of two rows in a sorted table; the lists of inputs in the forms;
-- the steps of the workload wizard; the server, which is in Go, but for its table of routes.
pub mod Prelude
pub mod Diff
pub mod Json
pub mod Overlay
pub mod Selection
pub mod Bulk
pub mod Watch
pub mod Live
pub mod Pagination
pub mod Drift
pub mod Labels
pub mod Workload
pub mod Url
pub mod Resource
pub mod Schema
pub mod Api
pub mod Forms
pub mod Auth
