-- ===== src/Messaging/Trees/Runtime/Halting.antt =====
-- `cancel_all` of trees/runtime.py stops every node of a tree.
use free_claude_code_my_pr_i.Messaging.Trees.Runtime.Sound.{ui_target_returns}
use free_claude_code_my_pr_i.Prelude.Dict.{get-modify}
use free_claude_code_my_pr_i.Messaging.Trees.Runtime.Tree.{modified, mark_error-IsTree, IsTree}
use free_claude_code_my_pr_i.Messaging.Trees.Runtime.{MessageTree}
use free_claude_code_my_pr_i.Messaging.Trees.Graph.{get_node, update_node}
use free_claude_code_my_pr_i.Messaging.Trees.Runtime.Cancel.{
  cancel_each, to_cancel, mark_node, Found,
}
use free_claude_code_my_pr_i.Messaging.Trees.Node.{
  update_state, mark_error, ok, is_runnable, Result, MessageNode,
}
use free_claude_code_my_pr_i.Prelude.Dict
use free_claude_code_my_pr_i.Prelude.{
  String, ◌≡◌, refl, sym, ap, subst, ◌∙◌, inl, inr, Bool, true, false, none, some, List, [], ◌∷◌,
  ◌++◌, arith, str_eq, eq_iff, if◌then◌else◌, Bool-cases, Option-cases, is_some,
}

-- The node under an id, if there is one, is neither pending nor in progress.
abbrev pub IsStopped : MessageTree → String → Type 0
IsStopped t k = (n : MessageNode) → Dict.get k t.graph.nodes ≡ some n → is_runnable n.state ≡ false

-- Nodes were cancelled, and nothing else happened.
pub record Cancelled (t t' : MessageTree) : Type 0 where
  pub tree : IsTree t'.graph.nodes
  pub queue : t'.queue ≡ t.queue
  pub active : t'.active ≡ t.active
  pub running :
      (k : String) (n : MessageNode)
      → Dict.get k t'.graph.nodes ≡ some n
      → is_runnable n.state ≡ true
      → Dict.get k t.graph.nodes ≡ some n

pub Cancelled-refl : (t : MessageTree) → IsTree t.graph.nodes → Cancelled t t
Cancelled-refl t i = record { tree = i; queue = refl; active = refl; running = λ k n e run. e }

pub Cancelled-trans : (t u v : MessageTree) → Cancelled t u → Cancelled u v → Cancelled t v
Cancelled-trans t u v a b = record {
  tree = b.tree;
  queue = b.queue ∙ a.queue;
  active = b.active ∙ a.active;
  running = λ k n e run. a.running k n (b.running k n e run) run;
}

pub IsStopped-later :
    (t u : MessageTree) (k : String) → Cancelled t u → IsStopped t k → IsStopped u k
IsStopped-later t u k c stopped n e = elim (Bool-cases (is_runnable n.state)) [
  | inl run ↦ stopped n (c.running k n e run)
  | inr no_ ↦ no_
]

pub mark_error-stopped : (n : MessageNode) → is_runnable (mark_error n).state ≡ false
unfolding mark_error update_state
mark_error-stopped n = refl

pub mark_node-Cancelled :
    (k : String) (t : MessageTree) → IsTree t.graph.nodes → Cancelled t (mark_node k t)
unfolding update_node
mark_node-Cancelled k t i = record {
  tree = mark_error-IsTree k t.graph.nodes i;
  queue = refl;
  active = refl;
  running = λ j n e run. elim (modified k mark_error t.graph.nodes j n e) [
    | inl old ↦ old
    | inr (m, same, old, new) ↦
        absurd (ground (arith, ap (λ x. is_runnable x.state) new, mark_error-stopped m))
  ];
}

pub mark_node-IsStopped : (k : String) (t : MessageTree) → IsStopped (mark_node k t) k
unfolding update_node
mark_node-IsStopped k t n e = elim (Option-cases (Dict.get k t.graph.nodes)) [
  | inl none_ ↦ absurd (ground (arith, get-modify k k mark_error t.graph.nodes, eq_iff k k))
  | inr (m, there) ↦
      let new : n ≡ mark_error m =
        ground (arith, get-modify k k mark_error t.graph.nodes, eq_iff k k) in
      rw new (mark_error-stopped m)
]

-- A part of `cancel_all` that returns, and whose nodes are stopped then
pub record Halts (ks : List String) (t : MessageTree) (m : Result Found × MessageTree)
    : Type 0 where
  pub found : Found
  pub returned : m.0 ≡ ok found
  pub cancelled : Cancelled t m.1
  pub stopped : (k : String) → Dict.elem k found.seen ≡ true → IsStopped m.1 k
  pub covered : (k : String) → Dict.elem k ks ≡ true → IsStopped m.1 k

pub seen-IsStopped :
    (k : String) (n : MessageNode) (t t' : MessageTree) (seen : List String)
    → Cancelled t t'
    → str_eq n.node_id k ≡ true
    → IsStopped t' k
    → ((j : String) → Dict.elem j seen ≡ true → IsStopped t j)
    → (j : String) → Dict.elem j (n.node_id ∷ seen) ≡ true
    → IsStopped t' j
seen-IsStopped k n t t' seen c same here before j h = elim (Bool-cases (str_eq n.node_id j)) [
  | inl mine ↦
      subst (IsStopped t') (sym ((eq_iff n.node_id k).0 same) ∙ (eq_iff n.node_id j).0 mine) here
  | inr other ↦ IsStopped-later t t' j c (before j (unfold Dict.elem in ground arith))
]

-- The node that the loop has to cancel is one that runs, and all others are stopped.
to_cancel-none :
    (k : String) (seen : List String) (t : MessageTree)
    → IsTree t.graph.nodes
    → ((j : String) → Dict.elem j seen ≡ true → IsStopped t j)
    → to_cancel k seen t ≡ none
    → IsStopped t k
to_cancel-none k seen t i before none_ n e = elim (Bool-cases (Dict.elem n.node_id seen)) [
  | inl old ↦
      subst (IsStopped t) ((eq_iff n.node_id k).0 (i.keyed k n e)) (before n.node_id old) n e
  | inr new ↦ unfold to_cancel get_node in ground arith
]

-- The node that a round of the loop cancels
record ToCancel (k : String) (n : MessageNode) (t : MessageTree) : Type 0 where
  there : Dict.get k t.graph.nodes ≡ some n
  same : str_eq n.node_id k ≡ true
  shown : is_some n.status_message_id ≡ true

to_cancel-some :
    (k : String) (n : MessageNode) (seen : List String) (t : MessageTree)
    → IsTree t.graph.nodes
    → to_cancel k seen t ≡ some n
    → ToCancel k n t
unfolding to_cancel get_node
to_cancel-some k n seen t i e = record {
  there = found;
  same = i.keyed k n found;
  shown = i.visible k n found runs;
}
  where
    found : Dict.get k t.graph.nodes ≡ some n
    found = ground arith

    runs : is_runnable n.state ≡ true
    runs = ground (arith, found)

read_seen :
    (queued : Bool) (found : Found) (t : MessageTree)
    → ((j : String) → Dict.elem j found.seen ≡ true → IsStopped t j)
    → (j : String) → Dict.elem j (if queued then [] else found.seen) ≡ true
    → IsStopped t j
unfolding Dict.elem
read_seen true found t before j h = absurd (cc h)
read_seen false found t before j h = before j h

covers :
    (k : String) (ks : List String) (t : MessageTree)
    → IsStopped t k
    → ((j : String) → Dict.elem j ks ≡ true → IsStopped t j)
    → (j : String) → Dict.elem j (k ∷ ks) ≡ true
    → IsStopped t j
covers k ks t here rest j h = elim (Bool-cases (str_eq k j)) [
  | inl same ↦ subst (IsStopped t) ((eq_iff k j).0 same) here
  | inr other ↦ rest j (unfold Dict.elem in ground arith)
]

seen_after :
    (queued : Bool) (k : String) (n : MessageNode) (found : Found) (t : MessageTree)
    → IsTree t.graph.nodes
    → str_eq n.node_id k ≡ true
    → ((j : String) → Dict.elem j found.seen ≡ true → IsStopped t j)
    → (j : String) → Dict.elem j (if queued then n.node_id ∷ found.seen else found.seen) ≡ true
    → IsStopped (mark_node k t) j
seen_after true k n found t i same before j h =
    seen-IsStopped k n t (mark_node k t) found.seen (mark_node-Cancelled k t i) same
      (mark_node-IsStopped k t) before j h
seen_after false k n found t i same before j h =
    IsStopped-later t (mark_node k t) j (mark_node-Cancelled k t i) (before j h)

pub cancel_each-Halts :
    (queued : Bool) (ks : List String) (found : Found) (t : MessageTree)
    → IsTree t.graph.nodes
    → ((j : String) → Dict.elem j found.seen ≡ true → IsStopped t j)
    → Halts ks t (cancel_each queued ks found t)
unfolding cancel_each
cancel_each-Halts queued [] found t i before = record {
  found = found;
  returned = refl;
  cancelled = Cancelled-refl t i;
  stopped = before;
  covered = λ k h. absurd (unfold Dict.elem in cc h);
}
cancel_each-Halts queued (k ∷ ks) found t i before =
    let seen = if queued then [] else found.seen in
    elim (Option-cases (to_cancel k (if queued then [] else found.seen) t)) [
      | inl none_ ↦
          let rest = cancel_each-Halts queued ks found t i before in
          let here = to_cancel-none k seen t i (read_seen queued found t before) none_ in
          let u = (cancel_each queued ks found t).1 in
          rw (none_, cancel_each)
            (record {
              found = rest.found;
              returned = rest.returned;
              cancelled = rest.cancelled;
              stopped = rest.stopped;
              covered = covers k ks u (IsStopped-later t u k rest.cancelled here) rest.covered;
            })
      | inr (n, e) ↦
          let it = to_cancel-some k n seen t i e in
          let (target, shown) = ui_target_returns n it.shown in
          let next : Found = record {
            cancelled_nodes = found.cancelled_nodes ++ target ∷ [];
            seen = if queued then n.node_id ∷ found.seen else found.seen;
          } in
          let u = mark_node k t in
          let v = (cancel_each queued ks next u).1 in
          let step = mark_node-Cancelled k t i in
          let rest =
            cancel_each-Halts queued ks next u step.tree
              (seen_after queued k n found t i it.same before) in
          rw (e, cancel_each)
            (rw shown (record {
              found = rest.found;
              returned = rest.returned;
              cancelled = Cancelled-trans t u v step rest.cancelled;
              stopped = rest.stopped;
              covered =
                  covers k ks v (IsStopped-later u v k rest.cancelled (mark_node-IsStopped k t))
                    rest.covered;
            }))
    ]
