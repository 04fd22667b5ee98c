-- ===== src/Messaging/Trees/Runtime/Tree.antt =====
-- The nodes of a tree of trees/runtime.py, and the changes of a node that keep them well formed.
use free_claude_code_my_pr_i.Messaging.Trees.Graph.{
  may_add, add_child, add_node, reply_node, MessageTreeGraph, Reply,
}
use free_claude_code_my_pr_i.Prelude.Dict
use free_claude_code_my_pr_i.Messaging.Trees.Graph.Order.{
  add_node-IsOrdered, IsOrdered, IsOrdered-modify,
}
use free_claude_code_my_pr_i.Messaging.Trees.Node.{
  ok, MessageState, update_state, mark_error, is_runnable, MessageNode,
}
use free_claude_code_my_pr_i.Prelude.Dict.{get-put, get-modify, Dict}
use free_claude_code_my_pr_i.Prelude.{
  String, ◌≡◌, refl, sym, ◌⊎◌, inl, inr, true, false, Option, none, some, arith, str_eq, eq_iff,
  Bool-cases, Option-cases, is_some,
}

-- Every node is stored under its own id, no id is empty, a node that is pending or in progress has a
-- status message, and parents stand before their children.
pub record IsTree (d : Dict MessageNode) : Type 0 where
  pub keyed : (k : String) (n : MessageNode) → Dict.get k d ≡ some n → str_eq n.node_id k ≡ true
  pub named : Dict.get "" d ≡ none
  pub visible :
      (k : String) (n : MessageNode)
      → Dict.get k d ≡ some n
      → is_runnable n.state ≡ true
      → is_some n.status_message_id ≡ true
  pub ordered : IsOrdered d

-- A change of a node that keeps its id and its children, and its status message as long as it is
-- needed.
pub record Fits (n m : MessageNode) : Type 0 where
  pub same_id : m.node_id ≡ n.node_id
  pub same_children : m.children_ids ≡ n.children_ids
  pub still_visible : is_runnable m.state ≡ true → is_some m.status_message_id ≡ true

module _ (k : String) (f : MessageNode → MessageNode) (d : Dict MessageNode) where
  pub modified :
      (j : String) (m : MessageNode)
      → Dict.get j (Dict.modify k f d) ≡ some m
      → (Dict.get j d ≡ some m)
        ⊎ ((n : MessageNode) × (k ≡ j) × (Dict.get k d ≡ some n) × (m ≡ f n))
  modified j m e = elim (Bool-cases (str_eq k j)) [
    | inr ne ↦ inl (ground (arith, get-modify k j f d))
    | inl here ↦ elim (Option-cases (Dict.get j d)) [
      | inl none_ ↦ absurd (ground (arith, get-modify k j f d))
      | inr (n, e') ↦ inr (
        n,
        (eq_iff k j).0 here,
        ground (arith, (eq_iff k j).0 here),
        ground (arith, get-modify k j f d),
      )
    ]
  ]

module _ (k : String) (f : MessageNode → MessageNode) (d : Dict MessageNode)
    (children : (n : MessageNode) → (f n).children_ids ≡ n.children_ids) (i : IsTree d)
    (fits : (n : MessageNode) → Dict.get k d ≡ some n → Fits n (f n)) where
  pub modify-IsTree : IsTree (Dict.modify k f d)
  modify-IsTree = record {
    keyed = λ j m e. elim (modified k f d j m e) [
      | inl old ↦ i.keyed j m old
      | inr (n, same, old, new) ↦ ground (arith, (fits n old).same_id, i.keyed k n old)
    ];
    named = ground (arith, get-modify k "" f d, eq_iff k "", i.named);
    visible = λ j m e run. elim (modified k f d j m e) [
      | inl old ↦ i.visible j m old run
      | inr (n, same, old, new) ↦ ground (arith, (fits n old).still_visible)
    ];
    ordered = IsOrdered-modify k f d (λ j n h. rw (children n) h) i.ordered;
  }

-- `update_state`, where a node that is to run has a status message
pub update_state-IsTree :
    (k : String) (state : MessageState) (session : Option String) (d : Dict MessageNode)
    → IsTree d
    → ((n : MessageNode)
        → Dict.get k d ≡ some n
        → is_runnable state ≡ true
        → is_some n.status_message_id ≡ true)
    → IsTree (Dict.modify k (update_state state session) d)
unfolding update_state
update_state-IsTree k state session d i v =
    modify-IsTree k (update_state state session) d (λ n. refl) i
      (λ n e. record { same_id = refl; same_children = refl; still_visible = v n e })

pub mark_error-IsTree :
    (k : String) (d : Dict MessageNode) → IsTree d → IsTree (Dict.modify k mark_error d)
unfolding mark_error update_state
mark_error-IsTree k d i =
    modify-IsTree k mark_error d (λ n. refl) i
      (λ n e. record { same_id = refl; same_children = refl; still_visible = λ run. cc })

put-IsTree :
    (r : Reply) (d : Dict MessageNode)
    → str_eq r.node_id "" ≡ false
    → IsTree d
    → (k : String) (n : MessageNode) → Dict.get k (Dict.put r.node_id (reply_node r) d) ≡ some n
    → (str_eq n.node_id k ≡ true)
      × (is_runnable n.state ≡ true → is_some n.status_message_id ≡ true)
put-IsTree r d ne i k n e = elim (Bool-cases (str_eq r.node_id k)) [
  | inl here ↦
      let new : reply_node r ≡ n = ground (arith, get-put r.node_id k (reply_node r) d) in
      rw (sym new) (here, λ run. refl)
  | inr there ↦
      let old : Dict.get k d ≡ some n = ground (arith, get-put r.node_id k (reply_node r) d) in
      (i.keyed k n old, i.visible k n old)
]

pub add_node-IsTree :
    (r : Reply) (g g' : MessageTreeGraph)
    → str_eq r.node_id "" ≡ false
    → IsTree g.nodes
    → add_node r g ≡ ok g'
    → IsTree g'.nodes
unfolding add_node
add_node-IsTree r g g' ne i e = elim (Bool-cases (may_add r g)) [
  | inr not_ ↦ absurd (ground arith)
  | inl may ↦
      let added : g'.nodes ≡ d' = ground arith in
      record {
        keyed = λ k n h. (facts k n (rw (sym added) h)).0;
        named = rw added (
            ground (
              arith,
              get-modify r.parent_id "" (add_child r.node_id)
                  (Dict.put r.node_id (reply_node r) g.nodes),
              get-put r.node_id "" (reply_node r) g.nodes,
              i.named,
            ));
        visible = λ k n h. (facts k n (rw (sym added) h)).1;
        ordered = add_node-IsOrdered r g g' i.ordered e;
      }
]
  where
    d' : Dict MessageNode
    d' = Dict.modify r.parent_id (add_child r.node_id) (Dict.put r.node_id (reply_node r) g.nodes)

    facts :
        (k : String) (n : MessageNode)
        → Dict.get k d' ≡ some n
        → (str_eq n.node_id k ≡ true)
          × (is_runnable n.state ≡ true → is_some n.status_message_id ≡ true)
    facts k n h =
        elim (modified r.parent_id (add_child r.node_id) (Dict.put r.node_id (reply_node r) g.nodes)
          k n h) [
            | inl old ↦ put-IsTree r g.nodes ne i k n old
            | inr (m, same, old, new) ↦
                rw new (rw (sym same) (put-IsTree r g.nodes ne i r.parent_id m old))
          ]
