-- ===== src/Messaging/Trees/Graph.antt =====
-- trees/graph.py: `MessageTreeGraph`, the parent and child links and the lookup of references.
-- Nodes are reached through the graph alone, so a change of a node is a change of its entry.
pub mod Marked
pub mod Order
pub mod References
pub mod Replies
pub mod Traversal
use mathlib.Core.List.{reverse}
use free_claude_code_my_pr_i.Messaging.Trees.Queue.{without}
use free_claude_code_my_pr_i.Messaging.Trees.Node.{
  status_reference, value_error, prompt_reference, node_to_snapshot, err, ok, pending,
  MessageReferenceKind, Result, TreeSnapshot, TreeIdentity, scope_eq, MessageNode, clear_status,
  MessageScope,
}
use free_claude_code_my_pr_i.Prelude.{
  ℕ, zero, suc, ◌+◌, ◌-◌, ◌*◌, ◌/◌, ◌%◌, ◌^◌, ◌≤◌, ◌<◌, min, max, String, ◌≡◌, refl, sym, ap, subst,
  ◌∙◌, ◌≢◌, ◌↔◌, ◌⊎◌, inl, inr, Bool, true, false, not, ◌&&◌, ◌||◌, false≢true, Option, none, some,
  List, [], ◌∷◌, ◌++◌, map, arith, str_eq, eq_iff, ltb, leb, ◌==◌, if◌then◌else◌, ltb→lt, leb→le,
  ==_iff, Bool-cases, Option-cases, is_some, length, length-append, All, All-append, All-map,
  list_cases, join, join-append, join-last, join-nil, ◌⊕◌, is_empty, strip, strip-empty, by_test,
  by_option,
}
use free_claude_code_my_pr_i.Prelude.Dict
use free_claude_code_my_pr_i.Prelude.Dict.{Dict}

pub record MessageTreeGraph : Type 0 where
  pub identity : TreeIdentity
  pub nodes : Dict MessageNode
  pub status_to_node : Dict String

-- `self.root_id`, which `identity` holds too
abbrev pub root_id : MessageTreeGraph → String
root_id g = g.identity.root_id

abbrev pub status_entry : MessageNode → Dict String
status_entry n = elim n.status_message_id [ none ↦ [] | some s ↦ (s, n.node_id) ∷ [] ]

abbrev pub is_text : Option String → String → Bool
is_text none s = false
is_text (some t) s = str_eq t s

unfoldable pub new_graph : MessageNode → Result MessageTreeGraph
new_graph root =
    if is_text root.status_message_id root.node_id
    then err value_error
    else ok (record {
      identity = record { scope = root.scope; root_id = root.node_id };
      nodes = (root.node_id, root) ∷ [];
      status_to_node = status_entry root;
    })

unfoldable pub get_node : String → MessageTreeGraph → Option MessageNode
get_node k g = Dict.get k g.nodes

-- A lookup through an optional id that must be given and not empty.
abbrev pub get_if_given : Option String → MessageTreeGraph → Option MessageNode
get_if_given none g = none
get_if_given (some k) g = if str_eq k "" then none else Dict.get k g.nodes

unfoldable pub get_parent : String → MessageTreeGraph → Option MessageNode
get_parent k g = elim (Dict.get k g.nodes) [ none ↦ none | some n ↦ get_if_given n.parent_id g ]

unfoldable pub get_parent_session_id : String → MessageTreeGraph → Option String
unfolding get_parent
get_parent_session_id k g = elim (get_parent k g) [ none ↦ none | some n ↦ n.session_id ]

unfoldable pub find_node_by_status_message : String → MessageTreeGraph → Option MessageNode
find_node_by_status_message s g = get_if_given (Dict.get s g.status_to_node) g

unfoldable pub resolve_reference :
    String → MessageTreeGraph → Option (MessageNode × MessageReferenceKind)
unfolding find_node_by_status_message
resolve_reference r g = elim (Dict.get r g.nodes) [
  | some n ↦ some (n, prompt_reference)
  | none ↦ elim (find_node_by_status_message r g) [
    | some n ↦ some (n, status_reference)
    | none ↦ none
  ]
]

-- The arguments of `add_node`.
pub record Reply : Type 0 where
  pub node_id : String
  pub scope : MessageScope
  pub prompt : String
  pub status_message_id : String
  pub parent_id : String
  pub parent_reference_id : String

abbrev pub reply_node : Reply → MessageNode
reply_node r = record {
  node_id = r.node_id;
  scope = r.scope;
  prompt = r.prompt;
  status_message_id = some r.status_message_id;
  state = pending;
  parent_id = some r.parent_id;
  parent_reference_id = some r.parent_reference_id;
  session_id = none;
  children_ids = [];
}

abbrev pub owns_reference : Option (MessageNode × MessageReferenceKind) → String → Bool
owns_reference none k = false
owns_reference (some (n, kind)) k = str_eq n.node_id k

-- The tests of `add_node`, in their order; each failure raises `ValueError`.
unfoldable pub may_add : Reply → MessageTreeGraph → Bool
unfolding resolve_reference
may_add r g =
    scope_eq r.scope g.identity.scope
    && (Dict.has r.parent_id g.nodes
        && (owns_reference (resolve_reference r.parent_reference_id g) r.parent_id
            && (not (Dict.has r.node_id g.nodes)
                && (not (str_eq r.status_message_id r.node_id)
                    && (not (Dict.has r.node_id g.status_to_node)
                        && (not (Dict.has r.status_message_id g.status_to_node)
                            && not (Dict.has r.status_message_id g.nodes)))))))

abbrev pub add_child : String → MessageNode → MessageNode
add_child c n = record n { children_ids = n.children_ids ++ c ∷ [] }

unfoldable pub add_node : Reply → MessageTreeGraph → Result MessageTreeGraph
add_node r g =
    if may_add r g
    then ok (record g {
      nodes =
          Dict.modify r.parent_id (add_child r.node_id) (Dict.put r.node_id (reply_node r) g.nodes);
      status_to_node = Dict.put r.status_message_id r.node_id g.status_to_node;
    })
    else err value_error

-- A change of the node under an id, if there is one.
unfoldable pub update_node :
    String → (MessageNode → MessageNode) → MessageTreeGraph → MessageTreeGraph
update_node k f g = record g { nodes = Dict.modify k f g.nodes }

abbrev pub drop_child : String → MessageNode → MessageNode
drop_child c n = record n { children_ids = without c n.children_ids }

abbrev pub pop_if_some {ℓ} : {V : Type ℓ} → Option String → Dict V → Dict V
pop_if_some none d = d
pop_if_some (some k) d = Dict.pop k d

abbrev pub modify_if_some :
    Option String → (MessageNode → MessageNode) → Dict MessageNode → Dict MessageNode
modify_if_some none f d = d
modify_if_some (some k) f d = Dict.modify k f d

-- One round of the loop of `remove_nodes`.
unfoldable pub remove_node : String → MessageTreeGraph → MessageTreeGraph
remove_node k g = elim (Dict.get k g.nodes) [
  | none ↦ g
  | some n ↦ record g {
    nodes = Dict.pop k (modify_if_some n.parent_id (drop_child k) g.nodes);
    status_to_node = pop_if_some n.status_message_id g.status_to_node;
  }
]

-- The set is given in the order in which it is iterated.
unfoldable pub remove_nodes : List String → MessageTreeGraph → MessageTreeGraph
unfolding remove_node
remove_nodes [] g = g
remove_nodes (k ∷ ks) g = remove_nodes ks (remove_node k g)

unfoldable pub clear_status_of : String → MessageTreeGraph → MessageTreeGraph
clear_status_of k g = elim (Dict.get k g.nodes) [
  | none ↦ g
  | some n ↦ elim n.status_message_id [
    | none ↦ g
    | some s ↦ record g {
      nodes = Dict.modify k clear_status g.nodes;
      status_to_node = Dict.pop s g.status_to_node;
    }
  ]
]

unfoldable pub all_reference_ids : MessageTreeGraph → List String
all_reference_ids g = map (λ e. e.0) g.nodes ++ map (λ e. e.0) g.status_to_node

unfoldable pub snapshot : MessageTreeGraph → TreeSnapshot
snapshot g = record {
  scope = g.identity.scope;
  root_id = g.identity.root_id;
  nodes = map (λ (e : String × MessageNode). (e.0, node_to_snapshot e.1)) g.nodes;
}

unfoldable pub children_of : String → Dict MessageNode → List String
children_of k d = elim (Dict.get k d) [ none ↦ [] | some n ↦ n.children_ids ]

-- The `while` loop of `get_descendants` and of `get_reference_descendants`. The head of the stack is
-- the end of the Python list, so the children are pushed in reverse. `none` means that the fuel ran
-- out.
unfoldable pub visit : ℕ → (String → List String) → List String → List String → Option (List String)
visit fuel children [] result = some result
visit zero children (k ∷ stack) result = none
visit (suc fuel) children (k ∷ stack) result =
    visit fuel children (reverse (children k) ++ stack) (result ++ k ∷ [])

abbrev pub sum_rounds : (String → ℕ) → List String → ℕ
sum_rounds f [] = 0
sum_rounds f (k ∷ ks) = f k + sum_rounds f ks

-- How often the loop goes round below a node, if parents stand before their children.
unfoldable pub rounds : String → Dict MessageNode → ℕ
rounds k [] = 1
rounds k ((j, n) ∷ d) =
    if str_eq j k then suc (sum_rounds (λ c. rounds c d) n.children_ids) else rounds k d

unfoldable pub get_descendants : String → MessageTreeGraph → Option (List String)
unfolding visit rounds
get_descendants k g =
    if Dict.has k g.nodes
    then visit (rounds k g.nodes) (λ j. children_of j g.nodes) (k ∷ []) []
    else some []
