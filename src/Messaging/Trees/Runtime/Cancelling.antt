-- ===== src/Messaging/Trees/Runtime/Cancelling.antt =====
-- `cancel_all` of trees/runtime.py keeps the invariant, also when it raises.
use free_claude_code_my_pr_i.Messaging.Trees.Runtime.Steps.{
  mark_node-IsSound, request_cancellation-IsSound,
}
use free_claude_code_my_pr_i.Messaging.Trees.Graph.{get_node}
use free_claude_code_my_pr_i.Messaging.Trees.Queue.Fifo.{IsIndexed}
use free_claude_code_my_pr_i.Messaging.Trees.Node.{TreeCancellation, is_error, is_runnable, Result}
use free_claude_code_my_pr_i.Prelude.Dict.{distinct}
use free_claude_code_my_pr_i.Messaging.Trees.Runtime.Sound.{IsSound}
use free_claude_code_my_pr_i.Messaging.Trees.Runtime.Cancel.{
  mark_node, add_found, to_cancel, node_ids, request_cancellation, Found, cancel_waiting,
  cancel_each, cancel_all, cancel_active, cancel_claimed, cancel_nodes,
}
use free_claude_code_my_pr_i.Messaging.Trees.Runtime.Detach.{by_result, >>=-IsSound}
use free_claude_code_my_pr_i.Messaging.Trees.Queue.{drain}
use free_claude_code_my_pr_i.Messaging.Trees.Queue
use free_claude_code_my_pr_i.Messaging.Trees.Runtime.{MessageTree}
use free_claude_code_my_pr_i.Prelude.Dict
use free_claude_code_my_pr_i.Prelude.{
  String, refl, Bool, true, false, List, [], ◌∷◌, if◌then◌else◌, by_test, by_option,
}

empty-IsIndexed : IsIndexed Queue.empty
unfolding Queue.empty distinct
empty-IsIndexed = record { members = λ x. refl; once = refl }

drain-IsSound : (t : MessageTree) → IsSound t → IsSound (record t { queue = (drain t.queue).1 })
unfolding drain
drain-IsSound t s = record {
  steady = record {
    tree = s.steady.tree;
    indexed = empty-IsIndexed;
    nonempty = unfold Queue.empty Dict.elem in refl;
  };
  idle = λ _. unfold Queue.empty in refl;
}

cancel_claimed-IsSound : (k : String) (t : MessageTree) → IsSound t → IsSound (cancel_claimed k t).1
unfolding cancel_claimed
cancel_claimed-IsSound k t s =
    by_option (λ (x : Result Found × MessageTree). IsSound x.1) (get_node k t.graph) _ _ (λ _. s)
      (λ n _.
        by_test (λ (x : Result Found × MessageTree). IsSound x.1) (is_runnable n.state) _ _
          (λ _. mark_node-IsSound k t s)
          (λ _.
            by_test (λ (x : Result Found × MessageTree). IsSound x.1) (is_error n.state) _ _
              (λ _. s) (λ _. s)))

cancel_active-IsSound : (t : MessageTree) → IsSound t → IsSound (cancel_active t).1
unfolding cancel_active
cancel_active-IsSound t s =
    by_option (λ (x : Result Found × MessageTree). IsSound x.1) t.active _ _ (λ _. s)
      (λ a _.
        cancel_claimed-IsSound a.claim.node.node_id (request_cancellation t)
          (request_cancellation-IsSound t s))

cancel_each-IsSound :
    (queued : Bool) (ks : List String) (found : Found) (t : MessageTree)
    → IsSound t
    → IsSound (cancel_each queued ks found t).1
unfolding cancel_each
cancel_each-IsSound queued [] found t s = s
cancel_each-IsSound queued (k ∷ ks) found t s =
    by_option (λ (x : Result Found × MessageTree). IsSound x.1)
      (to_cancel k (if queued then [] else found.seen) t) _ _
      (λ _. cancel_each-IsSound queued ks found t s)
      (λ n _.
        by_result (λ (x : Result Found × MessageTree). IsSound x.1) (add_found n queued found) _ _
          (λ _. mark_node-IsSound k t s)
          (λ found'.
            cancel_each-IsSound queued ks found' (mark_node k t) (mark_node-IsSound k t s)))

cancel_waiting-IsSound :
    (ks : List String) (found : Found) (t : MessageTree)
    → IsSound t
    → IsSound (cancel_waiting ks found t).1
unfolding cancel_waiting
cancel_waiting-IsSound ks found t s =
    >>=-IsSound (cancel_each true ks found) (λ found' u. cancel_each false (node_ids u) found' u) t
      (cancel_each-IsSound true ks found t s)
      (λ found' u s'. cancel_each-IsSound false (node_ids u) found' u s')

cancel_nodes-IsSound : (t : MessageTree) → IsSound t → IsSound (cancel_nodes t).1
unfolding cancel_nodes
cancel_nodes-IsSound t s =
    >>=-IsSound cancel_active
      (λ found u. cancel_waiting (drain u.queue).0 found (record u { queue = (drain u.queue).1 })) t
      (cancel_active-IsSound t s)
      (λ found u s'. cancel_waiting-IsSound (drain u.queue).0 found _ (drain-IsSound u s'))

pub cancel_all-IsSound : (t : MessageTree) → IsSound t → IsSound (cancel_all t).1
unfolding cancel_all
cancel_all-IsSound t s =
    let kept = cancel_nodes-IsSound t s in
    by_result (λ (x : Result TreeCancellation × MessageTree). IsSound x.1) (cancel_nodes t).0 _ _
      (λ _. kept) (λ _. kept)
