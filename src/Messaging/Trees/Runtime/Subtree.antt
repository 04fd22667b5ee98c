-- ===== src/Messaging/Trees/Runtime/Subtree.antt =====
-- `remove_message_subtree` of trees/runtime.py as a whole.
use free_claude_code_my_pr_i.Messaging.Trees.Runtime.Lookup.{Reports}
use free_claude_code_my_pr_i.Messaging.Trees.Graph.{root_id, clear_status_of, MessageTreeGraph}
use free_claude_code_my_pr_i.Messaging.Trees.Runtime.Cancel.{request_cancellation}
use free_claude_code_my_pr_i.Messaging.Trees.Runtime.Detach.{Was}
use free_claude_code_my_pr_i.Messaging.Trees.Runtime.Stop.{IsActiveShown}
use free_claude_code_my_pr_i.Messaging.Trees.Runtime.Removal.{
  removal, Halted, known_nodes, detach, halt_affected, claim_among, affected_nodes, is_status,
  MessageSubtreeRemoval,
}
use free_claude_code_my_pr_i.Messaging.Trees.Runtime.Sound.{IsSound}
use free_claude_code_my_pr_i.Messaging.Trees.Node.{
  error, is_runnable, ok, MessageReferenceKind, Result, MessageNode,
}
use free_claude_code_my_pr_i.Messaging.Trees.Runtime.{MessageTree}
use free_claude_code_my_pr_i.Prelude.Dict
use free_claude_code_my_pr_i.Prelude.{
  String, ◌≡◌, true, false, ◌&&◌, none, some, List, if◌then◌else◌, is_some,
}

-- What is left of a tree from which the messages `ids` are removed, while the nodes `affected` end
pub record Removes (ids affected : List String) (t : MessageTree)
    (m : Result MessageSubtreeRemoval × MessageTree) : Type 0 where
  pub returned :
      (r : MessageSubtreeRemoval) × (m.0 ≡ ok r)
      × Reports ids
          (claim_among affected t)
          (Dict.elem (root_id t.graph) ids && is_some (Dict.get (root_id t.graph) t.graph.nodes))
          r
  pub sound : IsSound m.1
  pub gone : (k : String) → Dict.elem k ids ≡ true → Dict.get k m.1.graph.nodes ≡ none
  pub left :
      (k : String)
      → Dict.elem k ids ≡ false
      → is_some (Dict.get k m.1.graph.nodes) ≡ is_some (Dict.get k t.graph.nodes)
  pub same :
      (k : String) (n : MessageNode)
      → Dict.elem k affected ≡ false
      → Dict.get k m.1.graph.nodes ≡ some n
      → Was k n t.graph.nodes
  pub halted :
      (k : String) (n : MessageNode)
      → Dict.elem k affected ≡ true
      → Dict.get k m.1.graph.nodes ≡ some n
      → is_runnable n.state ≡ false
  pub failed :
      (k : String) (o n : MessageNode)
      → Dict.elem k affected ≡ true
      → Dict.get k t.graph.nodes ≡ some o
      → is_some o.status_message_id ≡ true
      → Dict.get k m.1.graph.nodes ≡ some n
      → (n.state ≡ error) × (n.status_message_id ≡ none) × (n.session_id ≡ none)
  pub unqueued : (k : String) → Dict.elem k affected ≡ true → Dict.elem k m.1.queue.deque ≡ false
  pub waiting :
      (k : String)
      → Dict.elem k affected ≡ false
      → Dict.elem k m.1.queue.deque ≡ Dict.elem k t.queue.deque
  pub told :
      m.1.active ≡ (if is_some (claim_among affected t) then request_cancellation t else t).active

-- A removal whose references have been found
module _ (arrange : List String → List String)
    (same_set : (x : String) (ks : List String) → Dict.elem x (arrange ks) ≡ Dict.elem x ks)
    (ids : List String) (owner : MessageNode) (kind : MessageReferenceKind) (t : MessageTree)
    (s : IsSound t) (shown : IsActiveShown t)
    (there : is_status kind ≡ true → is_some (Dict.get owner.node_id t.graph.nodes) ≡ true) where
  abbrev affected : List String
  affected = affected_nodes ids owner kind t.graph

  abbrev told : MessageTree
  told = if is_some (claim_among affected t) then request_cancellation t else t

  -- The tree after the loop, and after all
  abbrev halted_tree : MessageTree
  halted_tree = (halt_affected arrange affected t).1

  abbrev cleared : MessageTreeGraph
  cleared =
      if is_status kind then clear_status_of owner.node_id halted_tree.graph else halted_tree.graph

  abbrev removed : List String
  removed = arrange (known_nodes ids t.graph)

  abbrev left_tree : MessageTree
  left_tree = detach (is_status kind) owner.node_id removed halted_tree

  -- What the operation returns or raises
  abbrev outcome : Halted → Result MessageSubtreeRemoval
  outcome h =
      removal ids (claim_among affected t) (Dict.elem (root_id t.graph) (known_nodes ids t.graph)) h
        left_tree
