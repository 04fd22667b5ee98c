-- ===== src/Messaging/Trees/Runtime/Removal.antt =====
-- trees/runtime.py: `remove_message_subtree`.
use free_claude_code_my_pr_i.Messaging.Trees.Graph.References.{get_reference_descendants}
use free_claude_code_my_pr_i.Messaging.Trees.Runtime.Cancel.{
  without_queued, with_target, mark_node, cancelled_with, request_cancellation,
}
use free_claude_code_my_pr_i.Messaging.Trees.Graph.{
  remove_nodes, root_id, resolve_reference, get_node, clear_status_of, MessageTreeGraph,
}
use free_claude_code_my_pr_i.Messaging.Trees.Node.{
  is_error, out_of_fuel, err, status_reference, is_runnable, ok, Result, prompt_reference,
  NodeClaim, MessageReferenceKind, MessageNode, NodeUiTarget, TreeCancellation,
}
use free_claude_code_my_pr_i.Prelude.{
  String, Bool, true, false, ◌&&◌, ◌||◌, Option, none, some, List, [], ◌∷◌, ◌++◌, str_eq,
  if◌then◌else◌, is_some,
}
use free_claude_code_my_pr_i.Messaging.Trees.Queue.{remove}
use free_claude_code_my_pr_i.Messaging.Trees.Runtime.{ui_target, MessageTree, Run, ◌>>=◌}
use free_claude_code_my_pr_i.Prelude.Dict.{elem}

pub record MessageSubtreeRemoval : Type 0 where
  pub cancellation : TreeCancellation
  pub removed_message_ids : List String
  pub removed_entire_tree : Bool

abbrev pub nothing_removed : MessageSubtreeRemoval
nothing_removed = record {
  cancellation = record { nodes = []; active_claim = none; queue_update = none };
  removed_message_ids = [];
  removed_entire_tree = false;
}

-- The candidates that are nodes
unfoldable pub known_nodes : List String → MessageTreeGraph → List String
known_nodes [] g = []
known_nodes (k ∷ ks) g =
    let rest = known_nodes ks g in if is_some (get_node k g) then k ∷ rest else rest

abbrev pub is_status : MessageReferenceKind → Bool
is_status prompt_reference = false
is_status status_reference = true

-- The active claim, if its node is affected
unfoldable pub claim_among : List String → MessageTree → Option NodeClaim
claim_among ks t = elim t.active [
  | none ↦ none
  | some a ↦ if elem a.claim.node.node_id ks then some a.claim else none
]

abbrev pub claims : Option NodeClaim → String → Bool
claims none k = false
claims (some c) k = str_eq c.node.node_id k

-- What the loop over the affected nodes has found
pub record Halted : Type 0 where
  pub cancelled_nodes : List NodeUiTarget
  pub queue_changed : Bool

abbrev pub and_node : NodeUiTarget → Halted → Halted
and_node target h = record h { cancelled_nodes = h.cancelled_nodes ++ target ∷ [] }

-- One round of the loop, for a node that is there
unfoldable pub halt_found : Option NodeClaim → String → MessageNode → Halted → Run Halted
halt_found active k n h t =
    if is_runnable n.state
    then elim (ui_target n) [
      | err e ↦ (err e, t)
      | ok target ↦ (ok (and_node target h), mark_node k t)
    ]
    else if is_error n.state && claims active k
    then (with_target n (λ target. ok (and_node target h)), t)
    else (ok h, t)

unfoldable pub halt_one : Option NodeClaim → String → Halted → Run Halted
halt_one active k h t = elim (get_node k t.graph) [
  | none ↦ (ok h, t)
  | some n ↦
      halt_found active k n (record h { queue_changed = (remove k t.queue).0 || h.queue_changed })
        (without_queued k t)
]

unfoldable pub halt_each : Option NodeClaim → List String → Halted → Run Halted
halt_each active [] h t = (ok h, t)
halt_each active (k ∷ ks) h t = (halt_one active k h >>= halt_each active ks) t

-- The tree without the nodes, and without the status of the owner if that is what was replied to
abbrev pub detach : Bool → String → List String → MessageTree → MessageTree
detach status owner removed t =
    let g = if status then clear_status_of owner t.graph else t.graph in
    record t { graph = remove_nodes removed g }

abbrev pub removal :
    List String → Option NodeClaim → Bool → Halted → MessageTree → Result MessageSubtreeRemoval
removal ids active entire h t = elim (cancelled_with h.cancelled_nodes active h.queue_changed t) [
  | err e ↦ err e
  | ok cancellation ↦ ok (record {
    cancellation = cancellation;
    removed_message_ids = ids;
    removed_entire_tree = entire;
  })
]

-- The nodes whose runs end: those that go, and the owner of a status message that goes
abbrev pub affected_nodes :
    List String → MessageNode → MessageReferenceKind → MessageTreeGraph → List String
affected_nodes ids owner kind g =
    let removed = known_nodes ids g in if is_status kind then owner.node_id ∷ removed else removed

-- The request to the active claim, and the loop. `arrange` is the order in which a set is iterated.
unfoldable pub halt_affected : (List String → List String) → List String → Run Halted
halt_affected arrange affected t =
    let active = claim_among affected t in
    halt_each active (arrange affected) (record { cancelled_nodes = []; queue_changed = false })
      (if is_some active then request_cancellation t else t)

-- What comes after the loop; `before` is the tree in which the nodes and the claim were looked up.
unfoldable pub remove_affected :
    (List String → List String)
    → List String
    → MessageNode
    → MessageReferenceKind
    → MessageTree
    → Halted
    → Run MessageSubtreeRemoval
remove_affected arrange ids owner kind before h t =
    let removed = known_nodes ids before.graph in
    let affected = affected_nodes ids owner kind before.graph in
    let u = detach (is_status kind) owner.node_id (arrange removed) t in
    (removal ids (claim_among affected before) (elem (root_id before.graph) removed) h u, u)

-- `remove_message_subtree` for the replies below a reference
unfoldable pub remove_replies :
    (List String → List String)
    → MessageNode
    → MessageReferenceKind
    → List String
    → Run MessageSubtreeRemoval
remove_replies arrange owner kind [] t = (ok nothing_removed, t)
remove_replies arrange owner kind (k ∷ ks) t =
    (halt_affected arrange (affected_nodes (k ∷ ks) owner kind t.graph)
        >>= remove_affected arrange (k ∷ ks) owner kind t)
      t

unfoldable pub remove_message_subtree :
    (List String → List String) → String → Run MessageSubtreeRemoval
remove_message_subtree arrange r t = elim (resolve_reference r t.graph) [
  | none ↦ (ok nothing_removed, t)
  | some (owner, kind) ↦ elim (get_reference_descendants r t.graph) [
    | none ↦ (err out_of_fuel, t)
    | some ids ↦ remove_replies arrange owner kind ids t
  ]
]
