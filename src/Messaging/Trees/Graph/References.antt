-- ===== src/Messaging/Trees/Graph/References.antt =====
-- trees/graph.py: `get_reference_descendants`, the replies below a prompt or a status message.
use free_claude_code_my_pr_i.Messaging.Trees.Node.{MessageNode}
use free_claude_code_my_pr_i.Messaging.Trees.Graph.{
  sum_rounds, visit, is_text, MessageTreeGraph, resolve_reference,
}
use free_claude_code_my_pr_i.Prelude.Dict.{Dict}
use free_claude_code_my_pr_i.Prelude.{
  ℕ, ◌+◌, String, Option, none, some, List, [], ◌∷◌, ◌++◌, str_eq, if◌then◌else◌,
}

-- The status message of a node, if there is one
abbrev pub status_list : MessageNode → List String
status_list n = elim n.status_message_id [ none ↦ [] | some s ↦ s ∷ [] ]

-- What one node adds to `children[key]` in `get_reference_descendants`
abbrev pub replies_at : String → MessageNode → List String
replies_at key n =
    (if str_eq n.node_id key then status_list n else [])
    ++ (if is_text n.parent_reference_id key then n.node_id ∷ [] else [])

-- `children.get(key, ())`, over the values of the nodes
unfoldable pub reference_children : String → Dict MessageNode → List String
reference_children key [] = []
reference_children key ((k, n) ∷ d) = replies_at key n ++ reference_children key d

-- How often the loop goes round below a reference, if replies stand after what they reply to.
unfoldable pub reference_rounds : String → Dict MessageNode → ℕ
reference_rounds key [] = 1
reference_rounds key ((k, n) ∷ d) =
    let below = reference_rounds key d in
    let status = sum_rounds (λ s. reference_rounds s d) (status_list n) in
    let reply = reference_rounds n.node_id d + status in
    if str_eq n.node_id key
    then below + status
    else if is_text n.parent_reference_id key
    then below + reply
    else below

unfoldable pub get_reference_descendants : String → MessageTreeGraph → Option (List String)
unfolding resolve_reference visit reference_rounds
get_reference_descendants r g = elim (resolve_reference r g) [
  | none ↦ some []
  | some owner ↦ visit (reference_rounds r g.nodes) (λ k. reference_children k g.nodes) (r ∷ []) []
]
