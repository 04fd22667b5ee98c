-- ===== src/Messaging/Trees/Runtime/Marking.antt =====
-- How the nodes of a tree of trees/runtime.py change while a removal ends their runs.
use free_claude_code_my_pr_i.Messaging.Trees.Runtime.Cancel.{mark_node}
use free_claude_code_my_pr_i.Messaging.Trees.Node.{
  is_error, is_runnable, MessageNode, update_state, mark_error, NodeClaim,
}
use free_claude_code_my_pr_i.Messaging.Trees.Graph.{update_node}
use mathlib.Core.Option.{some-injective}
use free_claude_code_my_pr_i.Messaging.Trees.Runtime.{MessageTree}
use free_claude_code_my_pr_i.Prelude.Dict
use free_claude_code_my_pr_i.Prelude.Dict.{get-modify, get-pop}
use free_claude_code_my_pr_i.Prelude.{
  String, ◌≡◌, refl, sym, ap, ◌∙◌, ◌⊎◌, inl, inr, true, false, ◌||◌, Option, some, arith, str_eq,
  eq_iff, Bool-cases, is_some,
}

-- The node under a key is as before, or was to run and has failed.
abbrev pub IsMarked : String → MessageTree → MessageTree → Type 0
IsMarked j t u =
    (Dict.get j u.graph.nodes ≡ Dict.get j t.graph.nodes)
    ⊎ ((n : MessageNode) × (Dict.get j t.graph.nodes ≡ some n)
        × (is_runnable n.state ≡ true)
        × (Dict.get j u.graph.nodes ≡ some (mark_error n)))

mark_error_stops : (n : MessageNode) → is_runnable (mark_error n).state ≡ false
unfolding mark_error update_state
mark_error_stops n = refl

pub IsMarked-trans :
    (j : String) (t u v : MessageTree) → IsMarked j t u → IsMarked j u v → IsMarked j t v
IsMarked-trans j t u v (inl a) (inl b) = inl (b ∙ a)
IsMarked-trans j t u v (inl a) (inr (n, there, run, b)) = inr (n, sym a ∙ there, run, b)
IsMarked-trans j t u v (inr (n, there, run, a)) (inl b) = inr (n, there, run, b ∙ a)
IsMarked-trans j t u v (inr (n, there, run, a)) (inr (m, again, run', b)) =
    let same : mark_error n ≡ m = some-injective (mark_error n) m (sym a ∙ again) in
    absurd (ground (arith, mark_error_stops n))

pub mark_node-IsMarked :
    (k j : String) (n : MessageNode) (t : MessageTree)
    → Dict.get k t.graph.nodes ≡ some n
    → is_runnable n.state ≡ true
    → IsMarked j t (mark_node k t)
unfolding update_node
mark_node-IsMarked k j n t there run = elim (Bool-cases (str_eq k j)) [
  | inr other ↦ inl (ground (arith, get-modify k j mark_error t.graph.nodes))
  | inl here ↦
      let same : Dict.get j t.graph.nodes ≡ some n = ground (arith, (eq_iff k j).0 here) in
      inr (n, same, run, ground (arith, get-modify k j mark_error t.graph.nodes))
]

-- The node of the claim has its status message if it has failed or is to run.
abbrev pub IsClaimShown : Option NodeClaim → MessageTree → Type 0
IsClaimShown active t =
    (c : NodeClaim) (n : MessageNode)
    → active ≡ some c
    → Dict.get c.node.node_id t.graph.nodes ≡ some n
    → (is_error n.state || is_runnable n.state) ≡ true
    → is_some n.status_message_id ≡ true

pub mark_error-status : (n : MessageNode) → (mark_error n).status_message_id ≡ n.status_message_id
unfolding mark_error update_state
mark_error-status n = refl

pub IsMarked-IsClaimShown :
    (active : Option NodeClaim) (t u : MessageTree)
    → ((j : String) → IsMarked j t u)
    → IsClaimShown active t
    → IsClaimShown active u
IsMarked-IsClaimShown active t u marked shown c n e there state = elim (marked c.node.node_id) [
  | inl same ↦ shown c n e (sym same ∙ there) state
  | inr (m, was, run, now) ↦
      let same : mark_error m ≡ n = some-injective (mark_error m) n (sym now ∙ there) in
      let visible = shown c m e was (ground arith) in ground (arith, mark_error-status m)
]

pub IsMarked-stopped :
    (k : String) (t u : MessageTree)
    → IsMarked k t u
    → ((n : MessageNode) → Dict.get k t.graph.nodes ≡ some n → is_runnable n.state ≡ false)
    → (n : MessageNode) → Dict.get k u.graph.nodes ≡ some n
    → is_runnable n.state ≡ false
IsMarked-stopped k t u (inl same) still n there = still n (sym same ∙ there)
IsMarked-stopped k t u (inr (m, was, run, now)) still n there = absurd (ground (arith, still m was))

pub IsMarked-get :
    (k : String) (t u : MessageTree)
    → IsMarked k t u
    → is_some (Dict.get k u.graph.nodes) ≡ is_some (Dict.get k t.graph.nodes)
IsMarked-get k t u (inl same) = ap is_some same
IsMarked-get k t u (inr (m, was, run, now)) = ap is_some now ∙ ap is_some (sym was)
