-- ===== src/Messaging/Trees/Graph/Order.antt =====
-- Parents stand before their children in the nodes of trees/graph.py, since nodes are only added
-- below nodes that are there.
use free_claude_code_my_pr_i.Messaging.Trees.Queue.{without}
use free_claude_code_my_pr_i.Messaging.Trees.Queue.Fifo.{elem-without}
use free_claude_code_my_pr_i.Messaging.Trees.Node.{ok, MessageNode}
use free_claude_code_my_pr_i.Prelude.{
  String, ◌≡◌, refl, inl, inr, true, false, Option, none, some, List, [], ◌∷◌, arith, str_eq,
  eq_iff, Bool-cases, Option-cases, All,
}
use free_claude_code_my_pr_i.Prelude.Dict
use free_claude_code_my_pr_i.Prelude.Dict.{elem-append, Dict, elem}
use free_claude_code_my_pr_i.Messaging.Trees.Graph.{
  drop_child, modify_if_some, may_add, remove_node, add_node, reply_node, add_child, Reply,
  MessageTreeGraph,
}

-- No node lists the id as a child.
abbrev pub IsUnlisted : String → Dict MessageNode → Type 0
IsUnlisted k d = All (λ (e : String × MessageNode). elem k e.1.children_ids ≡ false) d

-- No node lists a node that stands before it, or itself, as a child.
abbrev pub IsOrdered : Dict MessageNode → Type 0
IsOrdered [] = Unit
IsOrdered ((k, n) ∷ d) = IsUnlisted k ((k, n) ∷ d) × IsOrdered d

IsUnlisted-modify :
    (k j : String) (f : MessageNode → MessageNode) (d : Dict MessageNode)
    → ((n : MessageNode) → elem k n.children_ids ≡ false → elem k (f n).children_ids ≡ false)
    → IsUnlisted k d
    → IsUnlisted k (Dict.modify j f d)
unfolding Dict.modify
IsUnlisted-modify k j f [] keep u = tt
IsUnlisted-modify k j f ((i, n) ∷ d) keep u =
    (ground (arith, keep n u.0), IsUnlisted-modify k j f d keep u.1)

-- A change of a node that lists no new children keeps the order.
pub IsOrdered-modify :
    (j : String) (f : MessageNode → MessageNode) (d : Dict MessageNode)
    → ((k : String) (n : MessageNode)
        → elem k n.children_ids ≡ false
        → elem k (f n).children_ids ≡ false)
    → IsOrdered d
    → IsOrdered (Dict.modify j f d)
unfolding Dict.modify
IsOrdered-modify j f [] keep o = tt
IsOrdered-modify j f ((i, n) ∷ d) keep o = (
  (ground (arith, keep i n o.0.0), IsUnlisted-modify i j f d (keep i) o.0.1),
  IsOrdered-modify j f d keep o.1,
)

IsUnlisted-pop :
    (k j : String) (d : Dict MessageNode) → IsUnlisted k d → IsUnlisted k (Dict.pop j d)
unfolding Dict.pop
IsUnlisted-pop k j [] u = tt
IsUnlisted-pop k j ((i, n) ∷ d) u = elim (Bool-cases (str_eq i j)) [
  | inl here ↦ rw (here, Dict.pop) (IsUnlisted-pop k j d u.1)
  | inr there ↦ rw (there, Dict.pop) (u.0, IsUnlisted-pop k j d u.1)
]

pub IsOrdered-pop : (j : String) (d : Dict MessageNode) → IsOrdered d → IsOrdered (Dict.pop j d)
unfolding Dict.pop
IsOrdered-pop j [] o = tt
IsOrdered-pop j ((i, n) ∷ d) o = elim (Bool-cases (str_eq i j)) [
  | inl here ↦ rw (here, Dict.pop) (IsOrdered-pop j d o.1)
  | inr there ↦ rw (there, Dict.pop) ((o.0.0, IsUnlisted-pop i j d o.0.1), IsOrdered-pop j d o.1)
]

-- A put keeps an id unlisted that the new node does not list.
IsUnlisted-put :
    (k j : String) (m : MessageNode) (d : Dict MessageNode)
    → elem k m.children_ids ≡ false
    → IsUnlisted k d
    → IsUnlisted k (Dict.put j m d)
unfolding Dict.put
IsUnlisted-put k j m [] h u = (h, tt)
IsUnlisted-put k j m ((i, n) ∷ d) h u = elim (Bool-cases (str_eq i j)) [
  | inl here ↦ rw (here, Dict.put) (h, u.1)
  | inr there ↦ rw (there, Dict.put) (u.0, IsUnlisted-put k j m d h u.1)
]

add_child-elem :
    (k c : String) (n : MessageNode)
    → str_eq c k ≡ false
    → elem k n.children_ids ≡ false
    → elem k (add_child c n).children_ids ≡ false
unfolding elem
add_child-elem k c n ne h = ground (arith, elem-append k n.children_ids (c ∷ []))

-- A new leaf goes to the end of the dictionary and is listed by a node before it.
IsOrdered-add :
    (r : Reply) (d : Dict MessageNode)
    → str_eq r.node_id r.parent_id ≡ false
    → Dict.get r.node_id d ≡ none
    → IsOrdered d
    → IsOrdered
        (Dict.modify r.parent_id (add_child r.node_id) (Dict.put r.node_id (reply_node r) d))
unfolding Dict.modify Dict.put Dict.get elem
IsOrdered-add r [] ne new o = rw ne ((refl, tt), tt)
IsOrdered-add r ((i, n) ∷ d) ne new o =
    let other : str_eq i r.node_id ≡ false = ground arith in
    let other_way : str_eq r.node_id i ≡ false =
      ground (arith, eq_iff r.node_id i, eq_iff i r.node_id) in
    rw (other, Dict.put)
      (
        (
          elim (Bool-cases (str_eq i r.parent_id)) [
            | inl here ↦ rw here (add_child-elem i r.node_id n other_way o.0.0)
            | inr there ↦ rw there o.0.0
          ],
          IsUnlisted-modify i r.parent_id (add_child r.node_id)
              (Dict.put r.node_id (reply_node r) d)
              (λ n h. add_child-elem i r.node_id n other_way h)
              (IsUnlisted-put i r.node_id (reply_node r) d refl o.0.1),
        ),
        IsOrdered-add r d ne (ground arith) o.1,
      )

may_add-new :
    (r : Reply) (g : MessageTreeGraph) → may_add r g ≡ true → Dict.get r.node_id g.nodes ≡ none
unfolding may_add
may_add-new r g h = ground arith

may_add-apart :
    (r : Reply) (g : MessageTreeGraph) → may_add r g ≡ true → str_eq r.node_id r.parent_id ≡ false
unfolding may_add
may_add-apart r g h = ground (arith, eq_iff r.node_id r.parent_id)

-- `add_node` keeps the order: the new node stands behind its parent.
pub add_node-IsOrdered :
    (r : Reply) (g g' : MessageTreeGraph)
    → IsOrdered g.nodes
    → add_node r g ≡ ok g'
    → IsOrdered g'.nodes
unfolding add_node
add_node-IsOrdered r g g' o e = elim (Bool-cases (may_add r g)) [
  | inl may ↦
      let added : g'.nodes
          ≡ Dict.modify r.parent_id (add_child r.node_id)
              (Dict.put r.node_id (reply_node r) g.nodes) =
        ground arith in
      rw added (IsOrdered-add r g.nodes (may_add-apart r g may) (may_add-new r g may) o)
  | inr not_ ↦ absurd (ground arith)
]

elem-without-false :
    (x y : String) (xs : List String) → elem x xs ≡ false → elem x (without y xs) ≡ false
elem-without-false x y xs h = elim (Bool-cases (str_eq y x)) [
  | inl here ↦ rw (elem-without y x xs, here) refl
  | inr there ↦ rw (elem-without y x xs, there) h
]

-- `remove_node` keeps the order.
pub remove_node-IsOrdered :
    (k : String) (g : MessageTreeGraph) → IsOrdered g.nodes → IsOrdered (remove_node k g).nodes
remove_node-IsOrdered k g o = elim (Option-cases (Dict.get k g.nodes)) [
  | inl e ↦
      let same : (remove_node k g).nodes ≡ g.nodes = unfold remove_node in ground arith in rw same o
  | inr (n, e) ↦
      let taken : (remove_node k g).nodes
          ≡ Dict.pop k (modify_if_some n.parent_id (drop_child k) g.nodes) =
        unfold remove_node in ground arith in
      rw taken
        (IsOrdered-pop k (modify_if_some n.parent_id (drop_child k) g.nodes) (unlinked n.parent_id))
]
  where
    unlinked : (parent : Option String) → IsOrdered (modify_if_some parent (drop_child k) g.nodes)
    unlinked none = o
    unlinked (some p) =
        IsOrdered-modify p (drop_child k) g.nodes (λ j n h. elem-without-false j k n.children_ids h)
          o
