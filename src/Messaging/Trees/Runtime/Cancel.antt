-- ===== src/Messaging/Trees/Runtime/Cancel.antt =====
-- trees/runtime.py: `cancel_node` and `cancel_all`.
use free_claude_code_my_pr_i.Prelude.Dict.{elem}
use free_claude_code_my_pr_i.Messaging.Trees.Queue.{drain, remove}
use free_claude_code_my_pr_i.Messaging.Trees.Graph.{get_node, update_node}
use free_claude_code_my_pr_i.Messaging.Trees.Node.{
  QueueEntry, is_error, mark_error, is_runnable, TreeCancellation, NodeClaim, Result, ok, err,
  NodeUiTarget, MessageNode,
}
use free_claude_code_my_pr_i.Messaging.Trees.Runtime.{
  ◌>>=◌, ui_target, queue_entries, MessageTree, Run,
}
use free_claude_code_my_pr_i.Prelude.{
  String, Bool, true, false, not, ◌&&◌, Option, none, some, List, [], ◌∷◌, ◌++◌, map, str_eq,
  if◌then◌else◌, is_some,
}

abbrev pub request_cancellation : MessageTree → MessageTree
request_cancellation t = record t {
  active = elim t.active [
    | none ↦ none
    | some a ↦ some (record a { cancellation_requested = true })
  ];
}

-- `node.mark_error()` for the node under a key
abbrev pub mark_node : String → MessageTree → MessageTree
mark_node k t = record t { graph = update_node k mark_error t.graph }

-- `self._queue.remove(node_id)`
abbrev pub without_queued : String → MessageTree → MessageTree
without_queued k t = record t { queue = (remove k t.queue).1 }

-- The active claim, if it is for this node.
unfoldable pub active_claim_of : String → MessageTree → Option NodeClaim
active_claim_of k t = elim t.active [
  | none ↦ none
  | some a ↦ if str_eq a.claim.node.node_id k then some a.claim else none
]

abbrev pub cancelled_with :
    List NodeUiTarget → Option NodeClaim → Bool → MessageTree → Result TreeCancellation
cancelled_with nodes active changed t =
    if changed
    then elim (queue_entries t) [
      | err e ↦ err e
      | ok entries ↦
          ok (record { nodes = nodes; active_claim = active; queue_update = some entries })
    ]
    else ok (record { nodes = nodes; active_claim = active; queue_update = none })

-- The target of a node, and then the result with it.
abbrev pub with_target : {A : Type 0} → MessageNode → (NodeUiTarget → Result A) → Result A
with_target n f = elim (ui_target n) [ err e ↦ err e | ok target ↦ f target ]

-- `cancel_node` after the node was found and taken out of the queue
unfoldable pub cancel_found : String → MessageNode → Option NodeClaim → Bool → Run TreeCancellation
cancel_found k n active changed t =
    if is_runnable n.state
    then (
      with_target n (λ target. cancelled_with (target ∷ []) active changed (mark_node k t)),
      mark_node k t,
    )
    else if is_error n.state && is_some active
    then (with_target n (λ target. cancelled_with (target ∷ []) active changed t), t)
    else (cancelled_with [] active changed t, t)

unfoldable pub cancel_node : String → Run TreeCancellation
unfolding active_claim_of cancel_found
cancel_node k t =
    let active = active_claim_of k t in
    let t' = if is_some active then request_cancellation t else t in
    elim (get_node k t.graph) [
      | none ↦ (ok (record { nodes = []; active_claim = active; queue_update = none }), t')
      | some n ↦
          cancel_found k n active (remove k t.queue).0 (record t' { queue = (remove k t.queue).1 })
    ]

-- What `cancel_all` has found so far.
pub record Found : Type 0 where
  pub cancelled_nodes : List NodeUiTarget
  pub seen : List String

abbrev pub add_found : MessageNode → Bool → Found → Result Found
add_found n is_seen found = with_target n (λ target. ok (record {
  cancelled_nodes = found.cancelled_nodes ++ target ∷ [];
  seen = if is_seen then n.node_id ∷ found.seen else found.seen;
}))

abbrev pub nothing_found : Found
nothing_found = record { cancelled_nodes = []; seen = [] }

-- The part of `cancel_all` for the node of the active claim
unfoldable pub cancel_claimed : String → Run Found
cancel_claimed k t = elim (get_node k t.graph) [
  | none ↦ (ok nothing_found, t)
  | some n ↦
      if is_runnable n.state
      then (add_found n true nothing_found, mark_node k t)
      else if is_error n.state
      then (add_found n true nothing_found, t)
      else (ok (record { cancelled_nodes = []; seen = n.node_id ∷ [] }), t)
]

unfoldable pub cancel_active : Run Found
unfolding cancel_claimed
cancel_active t = elim t.active [
  | none ↦ (ok nothing_found, t)
  | some a ↦ cancel_claimed a.claim.node.node_id (request_cancellation t)
]

-- The node under a key, if `cancel_all` has to cancel it.
unfoldable pub to_cancel : String → List String → MessageTree → Option MessageNode
to_cancel k seen t = elim (get_node k t.graph) [
  | none ↦ none
  | some n ↦ if not (elem n.node_id seen) && is_runnable n.state then some n else none
]

-- A loop of `cancel_all`: the one over the queue adds to the set and does not read it, the one over
-- the nodes reads it and does not add to it.
unfoldable pub cancel_each : Bool → List String → Found → Run Found
unfolding to_cancel
cancel_each queued [] found t = (ok found, t)
cancel_each queued (k ∷ ks) found t = elim (to_cancel k (if queued then [] else found.seen) t) [
  | none ↦ cancel_each queued ks found t
  | some n ↦ elim (add_found n queued found) [
    | err e ↦ (err e, mark_node k t)
    | ok found' ↦ cancel_each queued ks found' (mark_node k t)
  ]
]

abbrev pub node_ids : MessageTree → List String
node_ids t = map (λ e. e.0) t.graph.nodes

-- The two loops, over the queue that was drained and over all nodes
unfoldable pub cancel_waiting : List String → Found → Run Found
unfolding cancel_each
cancel_waiting queued_ids found =
    cancel_each true queued_ids found >>= λ found' t. cancel_each false (node_ids t) found' t

-- The nodes that `cancel_all` cancels, of the claim, of the drained queue and of the graph
unfoldable pub cancel_nodes : Run Found
unfolding cancel_active cancel_waiting
cancel_nodes = cancel_active >>= λ found t.
    cancel_waiting (drain t.queue).0 found (record t { queue = (drain t.queue).1 })

unfoldable pub cancel_all : Run TreeCancellation
unfolding cancel_nodes
cancel_all t =
    let active : Option NodeClaim = elim t.active [ none ↦ none | some a ↦ some a.claim ] in
    let update : Option (List QueueEntry) = elim t.queue.deque [ [] ↦ none | k ∷ ks ↦ some [] ] in
    (cancel_nodes >>= λ found t'. (
      ok (record { nodes = found.cancelled_nodes; active_claim = active; queue_update = update }),
      t',
    ))
      t
