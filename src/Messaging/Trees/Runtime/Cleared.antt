-- ===== src/Messaging/Trees/Runtime/Cleared.antt =====
-- The nodes that `remove_nodes` and `clear_status` of trees/graph.py leave.
use free_claude_code_my_pr_i.Messaging.Trees.Runtime.Tree.{modified}
use free_claude_code_my_pr_i.Messaging.Trees.Runtime.Detach.{
  Alike-refl, get-remove_node, Alike, Was,
}
use free_claude_code_my_pr_i.Messaging.Trees.Node.{
  update_state, mark_error, clear_status, is_runnable, MessageNode,
}
use free_claude_code_my_pr_i.Messaging.Trees.Runtime.Removal.{known_nodes}
use free_claude_code_my_pr_i.Messaging.Trees.Graph.{
  clear_status_of, drop_child, get_node, modify_if_some, remove_node, remove_nodes,
  MessageTreeGraph,
}
use free_claude_code_my_pr_i.Prelude.Dict
use free_claude_code_my_pr_i.Prelude.Dict.{elem, get-modify, get-pop}
use free_claude_code_my_pr_i.Prelude.{
  String, ◌≡◌, refl, ap, ◌∙◌, ◌⊎◌, inl, inr, true, false, ◌&&◌, Option, none, some, List, [], ◌∷◌,
  arith, str_eq, eq_iff, Bool-cases, Option-cases, is_some, by_option,
}

remove_node-get :
    (k j : String) (g : MessageTreeGraph)
    → str_eq k j ≡ false
    → is_some (Dict.get j (remove_node k g).nodes) ≡ is_some (Dict.get j g.nodes)
remove_node-get k j g apart = elim (Option-cases (Dict.get k g.nodes)) [
  | inl gone ↦
      let same : (remove_node k g).nodes ≡ g.nodes = unfold remove_node in ground arith in
      ap (λ d. is_some (Dict.get j d)) same
  | inr (n, there) ↦
      let taken : (remove_node k g).nodes
          ≡ Dict.pop k (modify_if_some n.parent_id (drop_child k) g.nodes) =
        unfold remove_node in ground arith in
      let left = get-pop k j (modify_if_some n.parent_id (drop_child k) g.nodes) in
      ap (λ d. is_some (Dict.get j d)) taken ∙ (ground (arith, left) ∙ unlink n.parent_id)
]
  where
    unlink :
        (p : Option String)
        → is_some (Dict.get j (modify_if_some p (drop_child k) g.nodes))
          ≡ is_some (Dict.get j g.nodes)
    unlink none = refl
    unlink (some p) = ground (arith, get-modify p j (drop_child k) g.nodes)

pub remove_nodes-gone :
    (ks : List String) (j : String) (g : MessageTreeGraph)
    → Dict.get j g.nodes ≡ none
    → Dict.get j (remove_nodes ks g).nodes ≡ none
unfolding remove_nodes
remove_nodes-gone [] j g e = e
remove_nodes-gone (k ∷ ks) j g e =
    remove_nodes-gone ks j (remove_node k g)
      (elim (Option-cases (Dict.get j (remove_node k g).nodes)) [
        | inl none_ ↦ none_
        | inr (m, e') ↦
            let (apart, (n, there, like)) = get-remove_node k j m g e' in absurd (ground arith)
      ])

pub remove_nodes-removes :
    (ks : List String) (j : String) (g : MessageTreeGraph)
    → elem j ks ≡ true
    → Dict.get j (remove_nodes ks g).nodes ≡ none
unfolding remove_nodes elem
remove_nodes-removes [] j g listed = absurd (cc listed)
remove_nodes-removes (k ∷ ks) j g listed = elim (Bool-cases (elem j ks)) [
  | inl later ↦ remove_nodes-removes ks j (remove_node k g) later
  | inr not_later ↦
      remove_nodes-gone ks j (remove_node k g)
        (elim (Option-cases (Dict.get j (remove_node k g).nodes)) [
          | inl none_ ↦ none_
          | inr (m, e) ↦ let (apart, was) = get-remove_node k j m g e in absurd (ground arith)
        ])
]

pub remove_nodes-get :
    (ks : List String) (j : String) (g : MessageTreeGraph)
    → elem j ks ≡ false
    → is_some (Dict.get j (remove_nodes ks g).nodes) ≡ is_some (Dict.get j g.nodes)
unfolding remove_nodes elem
remove_nodes-get [] j g out = refl
remove_nodes-get (k ∷ ks) j g out =
    remove_nodes-get ks j (remove_node k g) (ground arith) ∙ remove_node-get k j g (ground arith)

Alike-trans : (a b c : MessageNode) → Alike a b → Alike b c → Alike a c
Alike-trans a b c h l = record {
  same_id = l.same_id ∙ h.same_id;
  same_state = l.same_state ∙ h.same_state;
  same_status = l.same_status ∙ h.same_status;
  same_scope = l.same_scope ∙ h.same_scope;
  same_prompt = l.same_prompt ∙ h.same_prompt;
  same_parent = l.same_parent ∙ h.same_parent;
  same_reference = l.same_reference ∙ h.same_reference;
  same_session = l.same_session ∙ h.same_session;
}

pub remove_nodes-Was :
    (ks : List String) (j : String) (m : MessageNode) (g : MessageTreeGraph)
    → Dict.get j (remove_nodes ks g).nodes ≡ some m
    → Was j m g.nodes
unfolding remove_nodes
remove_nodes-Was [] j m g e = (m, e, Alike-refl m)
remove_nodes-Was (k ∷ ks) j m g e =
    let (n, there, like) = remove_nodes-Was ks j m (remove_node k g) e in
    let (apart, (o, was, like')) = get-remove_node k j n g there in
    (o, was, Alike-trans o n m like' like)

pub known_nodes-elem :
    (ks : List String) (j : String) (g : MessageTreeGraph)
    → elem j (known_nodes ks g) ≡ (elem j ks && is_some (Dict.get j g.nodes))
unfolding known_nodes elem get_node
known_nodes-elem [] j g = refl
known_nodes-elem (k ∷ ks) j g = ground (arith, known_nodes-elem ks j g, eq_iff k j)

-- The node whose status is cleared, if it has one
pub clear_status-here :
    (k : String) (n : MessageNode) (g : MessageTreeGraph)
    → Dict.get k g.nodes ≡ some n
    → is_some n.status_message_id ≡ true
    → Dict.get k (clear_status_of k g).nodes ≡ some (clear_status n)
unfolding clear_status_of
clear_status-here k n g there shown = elim (Option-cases n.status_message_id) [
  | inl none_ ↦ absurd (ground arith)
  | inr (s, e) ↦
      rw (there, clear_status_of)
        (rw e (ground (arith, get-modify k k clear_status g.nodes, eq_iff k k)))
]

-- The node under a key after `clear_status` of another one, or of this one
pub get-clear_status :
    (k j : String) (m : MessageNode) (g : MessageTreeGraph)
    → Dict.get j (clear_status_of k g).nodes ≡ some m
    → (Dict.get j g.nodes ≡ some m)
      ⊎ ((k ≡ j) × (is_some (Dict.get j g.nodes) ≡ true) × (is_runnable m.state ≡ false))
unfolding clear_status_of
get-clear_status k j m g =
    by_option (λ (h : MessageTreeGraph). Dict.get j h.nodes ≡ some m → Kept) (Dict.get k g.nodes) _
      _ (λ _ e. inl e)
      (λ n _.
        by_option (λ (h : MessageTreeGraph). Dict.get j h.nodes ≡ some m → Kept) n.status_message_id
          _ _ (λ _ e. inl e)
          (λ _ _ e. elim (modified k clear_status g.nodes j m e) [
            | inl old ↦ inl old
            | inr (n', same, old, new) ↦ inr (
              same,
              ground (arith, same),
              rw new (unfold clear_status mark_error update_state in refl),
            )
          ]))
  where
    Kept : Type 0
    Kept =
        (Dict.get j g.nodes ≡ some m)
        ⊎ ((k ≡ j) × (is_some (Dict.get j g.nodes) ≡ true) × (is_runnable m.state ≡ false))

pub clear_status-get :
    (k j : String) (g : MessageTreeGraph)
    → is_some (Dict.get j (clear_status_of k g).nodes) ≡ is_some (Dict.get j g.nodes)
unfolding clear_status_of
clear_status-get k j g =
    by_option
      (λ (h : MessageTreeGraph). is_some (Dict.get j h.nodes) ≡ is_some (Dict.get j g.nodes))
      (Dict.get k g.nodes) _ _ (λ _. refl)
      (λ n _.
        by_option
          (λ (h : MessageTreeGraph). is_some (Dict.get j h.nodes) ≡ is_some (Dict.get j g.nodes))
          n.status_message_id _ _ (λ _. refl)
          (λ _ _. ground (arith, get-modify k j clear_status g.nodes)))
