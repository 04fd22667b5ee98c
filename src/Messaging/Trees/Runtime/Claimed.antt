-- ===== src/Messaging/Trees/Runtime/Claimed.antt =====
-- trees/runtime.py: `record_session`, `complete_claim` and `fail_claim`, the operations of the
-- holder of the active claim.
use free_claude_code_my_pr_i.Messaging.Trees.Queue.{remove}
use free_claude_code_my_pr_i.Messaging.Trees.Graph.{
  snapshot, get_node, get_descendants, update_node,
}
use free_claude_code_my_pr_i.Messaging.Trees.Runtime.{
  ◌>>=◌, ui_target, queue_entries, MessageTree, Run, pending_node,
}
use free_claude_code_my_pr_i.Messaging.Trees.Node.{
  in_progress, completed, out_of_fuel, is_in_progress, mark_error, update_state, err, TreeSnapshot,
  Result, ok, is_error, FailureResult, is_completed, MessageNode, NodeUiTarget, MessageState,
}
use free_claude_code_my_pr_i.Prelude.{
  String, Bool, false, not, ◌||◌, Option, none, some, List, [], ◌∷◌, ◌++◌, str_eq, if◌then◌else◌,
}

-- The node of the active claim with its key, if the claim has this id and is not cancelled.
unfoldable pub claimed_node : String → MessageTree → Option (String × MessageNode)
claimed_node claim_id t = elim t.active [
  | none ↦ none
  | some a ↦
      if not (str_eq a.claim.claim_id claim_id) || a.cancellation_requested
      then none
      else elim (get_node a.claim.node.node_id t.graph) [
        | none ↦ none
        | some n ↦ some (a.claim.node.node_id, n)
      ]
]

-- The change of a node, and the snapshot after it.
abbrev pub update_and_snapshot :
    String → MessageState → Option String → MessageTree → Option TreeSnapshot × MessageTree
update_and_snapshot k state session t =
    let g = update_node k (update_state state session) t.graph in
    (some (snapshot g), record t { graph = g })

unfoldable pub record_session : String → String → MessageTree → Option TreeSnapshot × MessageTree
unfolding claimed_node
record_session claim_id session t = elim (claimed_node claim_id t) [
  | none ↦ (none, t)
  | some (k, n) ↦
      if is_in_progress n.state
      then update_and_snapshot k in_progress (some session) t
      else (none, t)
]

unfoldable pub complete_claim :
    String → Option String → MessageTree → Option TreeSnapshot × MessageTree
unfolding claimed_node
complete_claim claim_id session t = elim (claimed_node claim_id t) [
  | none ↦ (none, t)
  | some (k, n) ↦
      if is_in_progress n.state || is_error n.state
      then update_and_snapshot k completed session t
      else (none, t)
]

-- What `fail_claim` has changed so far.
pub record Failing : Type 0 where
  pub affected : List NodeUiTarget
  pub queue_changed : Bool

abbrev pub nothing_failed : Failing
nothing_failed = record { affected = []; queue_changed = false }

-- A pending descendant fails and leaves the queue.
abbrev pub fail_and_remove : String → MessageNode → MessageTree → MessageTree
fail_and_remove k n t = record t {
  graph = update_node k mark_error t.graph;
  queue = (remove n.node_id t.queue).1;
}

-- The loop over the descendants
unfoldable pub fail_each : List String → Failing → Run Failing
unfolding pending_node
fail_each [] failing t = (ok failing, t)
fail_each (k ∷ ks) failing t = elim (pending_node k t.graph) [
  | none ↦ fail_each ks failing t
  | some n ↦ elim (ui_target n) [
    | err e ↦ (err e, fail_and_remove k n t)
    | ok target ↦
        fail_each ks
          (record {
            affected = failing.affected ++ target ∷ [];
            queue_changed = (remove n.node_id t.queue).0 || failing.queue_changed;
          })
          (fail_and_remove k n t)
  ]
]

abbrev pub tail_of : List String → List String
tail_of [] = []
tail_of (k ∷ ks) = ks

-- The pending descendants, if the failure is propagated
unfoldable pub fail_descendants : Bool → String → Failing → Run Failing
unfolding fail_each
fail_descendants propagate k failing t =
    if propagate
    then elim (get_descendants k t.graph) [
      | none ↦ (err out_of_fuel, t)
      | some ks ↦ fail_each (tail_of ks) failing t
    ]
    else (ok failing, t)

-- The claimed node itself, unless it has failed already
unfoldable pub fail_own : String → MessageNode → Run Failing
fail_own k n t = if is_error n.state then (ok nothing_failed, t) else (
  elim (ui_target n) [
    | err e ↦ err e
    | ok target ↦ ok (record { affected = target ∷ []; queue_changed = false })
  ],
  record t { graph = update_node k mark_error t.graph },
)

unfoldable pub fail_node : Bool → String → MessageNode → Run Failing
unfolding fail_own fail_descendants
fail_node propagate k n t =
    if is_completed n.state
    then (ok nothing_failed, t)
    else (fail_own k n >>= fail_descendants propagate n.node_id) t

abbrev pub failed_with : Failing → MessageTree → Result FailureResult
failed_with failing t =
    if failing.queue_changed
    then elim (queue_entries t) [
      | err e ↦ err e
      | ok entries ↦ ok (record {
        affected = failing.affected;
        queue_update = some entries;
        snapshot = some (snapshot t.graph);
      })
    ]
    else ok (record {
      affected = failing.affected;
      queue_update = none;
      snapshot = some (snapshot t.graph);
    })

unfoldable pub fail_claim : String → Bool → Run FailureResult
unfolding claimed_node fail_node
fail_claim claim_id propagate t = elim (claimed_node claim_id t) [
  | none ↦ (ok (record { affected = []; queue_update = none; snapshot = none }), t)
  | some (k, n) ↦ (fail_node propagate k n >>= λ failing t'. (failed_with failing t', t')) t
]
