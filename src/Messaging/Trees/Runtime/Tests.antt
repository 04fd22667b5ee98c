-- ===== src/Messaging/Trees/Runtime/Tests.antt =====
-- The removal of replies at a concrete tree.
use free_claude_code_my_pr_i.Messaging.Trees.Queue.{remove}
use free_claude_code_my_pr_i.Messaging.Trees.Runtime.Cancel.{
  cancel_claimed, cancel_active, cancel_nodes, cancel_all,
}
use free_claude_code_my_pr_i.Messaging.Trees.Runtime.{ui_target, MessageTree}
use free_claude_code_my_pr_i.Messaging.Trees.Node.{
  clear_status, mark_error, value_error, err, MessageNode,
}
use free_claude_code_my_pr_i.Messaging.Trees.Graph.Replies.{
  get_reference_descendants_total, is_source, IsReplyOrdered,
}
use free_claude_code_my_pr_i.Messaging.Trees.Graph.References.{
  reference_children, get_reference_descendants,
}
use free_claude_code_my_pr_i.Messaging.Trees.Tests.{small_graph, node, busy_tree}
use free_claude_code_my_pr_i.Prelude.Dict
use mathlib.Core.Option.{some-injective}
use free_claude_code_my_pr_i.Messaging.Trees.Runtime.Removal.{
  known_nodes, claim_among, halt_found, halt_one, halt_each, halt_affected, remove_affected,
  remove_replies, remove_message_subtree,
}
use free_claude_code_my_pr_i.Messaging.Trees.Graph.{
  update_node, clear_status_of, remove_nodes, get_node, find_node_by_status_message,
  resolve_reference,
}
use free_claude_code_my_pr_i.Messaging.Trees.Node.{pending, in_progress}
use free_claude_code_my_pr_i.Prelude.{
  String, ◌≡◌, refl, subst, true, false, none, some, List, [], ◌∷◌, is_some,
}

later :
    (n : MessageNode) (t : String)
    → is_source n t ≡ false
    → (s : String) → some t ≡ some s
    → is_source n s ≡ false
later n t h s e = subst (λ u. is_source n u ≡ false) (some-injective t s e) h

abbrev root_node : MessageNode
root_node = node "r" "s" in_progress none ("a" ∷ "b" ∷ [])

abbrev first_reply : MessageNode
first_reply = node "a" "t" pending (some "r") []

abbrev second_reply : MessageNode
second_reply = node "b" "u" pending (some "r") []

small_graph-IsReplyOrdered : IsReplyOrdered small_graph.nodes
small_graph-IsReplyOrdered = (
  refl,
  later root_node "s" refl,
  ((refl, later root_node "t" refl), ((refl, later root_node "u" refl), tt)),
  (
    refl,
    later first_reply "t" refl,
    ((refl, later first_reply "u" refl), tt),
    (refl, later second_reply "u" refl, tt, tt),
  ),
)

status_known : is_some (resolve_reference "s" small_graph) ≡ true
unfolding resolve_reference find_node_by_status_message Dict.get
status_known = refl

get_reference_descendants_total_example :
    (result : List String) × (get_reference_descendants "s" small_graph ≡ some result)
    × (Dict.elem "s" result ≡ true)
    × ((x k : String) (n : MessageNode)
        → Dict.elem x result ≡ true
        → Dict.get k small_graph.nodes ≡ some n
        → (n.parent_reference_id ≡ some x → Dict.elem n.node_id result ≡ true)
          × ((s : String)
              → n.node_id ≡ x
              → n.status_message_id ≡ some s
              → Dict.elem s result ≡ true))
get_reference_descendants_total_example =
    get_reference_descendants_total small_graph "s" small_graph-IsReplyOrdered status_known

-- After the status message of the running root is removed, `cancel_all` raises, and the replies are
-- left queued.
abbrev status_removed : MessageTree
status_removed = (remove_message_subtree (λ ks. ks) "s" busy_tree).1

cancel_all_raises :
    ((cancel_all status_removed).0 ≡ err value_error)
    × ((cancel_all status_removed).1.queue.deque ≡ "a" ∷ "b" ∷ [])
unfolding remove_message_subtree remove_replies remove_affected halt_affected halt_each halt_one
    halt_found cancel_all cancel_nodes cancel_active cancel_claimed resolve_reference
    get_reference_descendants reference_children get_node claim_among ui_target known_nodes
    remove_nodes clear_status_of update_node mark_error clear_status remove Dict.get Dict.elem
    Dict.modify
cancel_all_raises = (refl, refl)
