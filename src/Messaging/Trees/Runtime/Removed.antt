-- ===== src/Messaging/Trees/Runtime/Removed.antt =====
-- What the loop of `remove_message_subtree` in trees/runtime.py does to the nodes and the queue.
use free_claude_code_my_pr_i.Messaging.Trees.Runtime.Halting.{mark_node-IsStopped}
use free_claude_code_my_pr_i.Messaging.Trees.Runtime.Cancel.{without_queued}
use free_claude_code_my_pr_i.Messaging.Trees.Runtime.Detach.{halt_one-IsSound}
use free_claude_code_my_pr_i.Messaging.Trees.Runtime.Marking.{
  mark_node-IsMarked, IsMarked-stopped, IsMarked-IsClaimShown, IsMarked, IsMarked-get,
  IsMarked-trans, IsClaimShown,
}
use free_claude_code_my_pr_i.Messaging.Trees.Queue.Fifo.{elem-without, queue-ActsAsFifo, IsIndexed}
use free_claude_code_my_pr_i.Messaging.Trees.Runtime.Sound.{ui_target_returns, IsSound}
use free_claude_code_my_pr_i.Messaging.Trees.Graph.{get_node, update_node}
use free_claude_code_my_pr_i.Messaging.Trees.Node.{
  mark_error, err, NodeUiTarget, is_error, is_runnable, ok, Result, NodeClaim, MessageNode,
}
use free_claude_code_my_pr_i.Messaging.Trees.Runtime.Removal.{
  and_node, claims, Halted, halt_found, halt_each, halt_one,
}
use mathlib.Core.Option.{some-injective}
use free_claude_code_my_pr_i.Messaging.Trees.Runtime.{MessageTree, ◌>>=◌}
use free_claude_code_my_pr_i.Messaging.Trees.Queue
use free_claude_code_my_pr_i.Prelude.Dict
use free_claude_code_my_pr_i.Prelude.Dict.{elem, get-modify, get-pop}
use free_claude_code_my_pr_i.Prelude.{
  String, ◌≡◌, refl, sym, ap, subst, ◌∙◌, inl, inr, true, false, ◌&&◌, Option, none, some, List, [],
  ◌∷◌, arith, str_eq, eq_iff, if◌then◌else◌, Bool-cases, Option-cases, is_some,
}

-- What the loop over some keys does, from a tree to the one it leaves
pub record EndsRuns (ks : List String) (t : MessageTree) (m : Result Halted × MessageTree)
    : Type 0 where
  pub returned : (h : Halted) × (m.0 ≡ ok h)
  pub marked : (j : String) → IsMarked j t m.1
  pub active : m.1.active ≡ t.active
  pub same_graph : m.1.graph.status_to_node ≡ t.graph.status_to_node
  pub unqueued :
      (k : String)
      → elem k ks ≡ true
      → is_some (Dict.get k t.graph.nodes) ≡ true
      → elem k m.1.queue.deque ≡ false
  pub stopped :
      (k : String) (n : MessageNode)
      → elem k ks ≡ true
      → Dict.get k m.1.graph.nodes ≡ some n
      → is_runnable n.state ≡ false
  pub untouched :
      (x : String) → elem x ks ≡ false → Dict.get x m.1.graph.nodes ≡ Dict.get x t.graph.nodes
  pub kept : (x : String) → elem x ks ≡ false → elem x m.1.queue.deque ≡ elem x t.queue.deque
  pub shrinks : (x : String) → elem x t.queue.deque ≡ false → elem x m.1.queue.deque ≡ false

only_elem : (k x : String) → elem x (k ∷ []) ≡ true → x ≡ k
unfolding elem
only_elem k x h = sym ((eq_iff k x).0 (ground arith))

not_elem : (k x : String) → elem x (k ∷ []) ≡ false → str_eq k x ≡ false
unfolding elem
not_elem k x h = ground arith

-- What a round does for a key whose node is there, besides the queue
record Round (k : String) (t : MessageTree) (m : Result Halted × MessageTree) : Type 0 where
  returned : (h : Halted) × (m.0 ≡ ok h)
  marked : (j : String) → IsMarked j t m.1
  active : m.1.active ≡ t.active
  same_graph : m.1.graph.status_to_node ≡ t.graph.status_to_node
  queue : m.1.queue ≡ (Queue.remove k t.queue).1
  untouched :
      (j : String) → str_eq k j ≡ false → Dict.get j m.1.graph.nodes ≡ Dict.get j t.graph.nodes
  stopped : (n : MessageNode) → Dict.get k m.1.graph.nodes ≡ some n → is_runnable n.state ≡ false

Round-EndsRuns :
    (k : String) (t : MessageTree) (m : Result Halted × MessageTree)
    → IsIndexed t.queue
    → Round k t m
    → EndsRuns (k ∷ []) t m
Round-EndsRuns k t m i r = record {
  returned = r.returned;
  marked = r.marked;
  active = r.active;
  same_graph = r.same_graph;
  unqueued = λ x listed there. ground (arith, left x, (eq_iff k x).1 (sym (only_elem k x listed)));
  stopped = λ x n listed there.
      r.stopped n (subst (λ j. Dict.get j m.1.graph.nodes ≡ some n) (only_elem k x listed) there);
  untouched = λ x other. r.untouched x (not_elem k x other);
  kept = λ x other. ground (arith, left x, not_elem k x other);
  shrinks = λ x out. ground (arith, left x);
}
  where
    left :
        (x : String) → elem x m.1.queue.deque ≡ (if str_eq k x then false else elem x t.queue.deque)
    left x =
        ap (λ q. elem x q.deque) r.queue
        ∙ ap (elem x) (queue-ActsAsFifo t.queue k i).rest
        ∙ elem-without k x t.queue.deque

-- A node that is not to run
quiet-Round :
    (k : String) (n : MessageNode) (h : Halted) (r : Result Halted) (t : MessageTree)
    → r ≡ ok h
    → Dict.get k t.graph.nodes ≡ some n
    → is_runnable n.state ≡ false
    → Round k t (r, without_queued k t)
quiet-Round k n h r t e there still = record {
  returned = (h, e);
  marked = λ j. inl refl;
  active = refl;
  same_graph = refl;
  queue = refl;
  untouched = λ j other. refl;
  stopped = λ m now.
      subst (λ x. is_runnable x.state ≡ false) (some-injective n m (sym there ∙ now)) still;
}

claimed_node_shown :
    (active : Option NodeClaim) (k : String) (n : MessageNode) (t : MessageTree)
    → claims active k ≡ true
    → IsClaimShown active t
    → Dict.get k t.graph.nodes ≡ some n
    → is_error n.state ≡ true
    → is_some n.status_message_id ≡ true
claimed_node_shown none k n t c shown there failed = absurd (cc c)
claimed_node_shown (some a) k n t c shown there failed =
    shown a n refl (ground (arith, eq_iff a.node.node_id k)) (ground arith)

halt_found-Round :
    (active : Option NodeClaim) (k : String) (n : MessageNode) (h : Halted) (t : MessageTree)
    → IsSound t
    → IsClaimShown active t
    → Dict.get k t.graph.nodes ≡ some n
    → Round k t (halt_found active k n h (without_queued k t))
unfolding halt_found update_node
halt_found-Round active k n h t s shown there = elim (Bool-cases (is_runnable n.state)) [
  | inl run ↦
      let (target, e) = ui_target_returns n (s.steady.tree.visible k n there run) in
      rw (run, halt_found)
        (rw e (record {
          returned = (_, refl);
          marked = λ j. mark_node-IsMarked k j n t there run;
          active = refl;
          same_graph = refl;
          queue = refl;
          untouched = λ j other. ground (arith, get-modify k j mark_error t.graph.nodes);
          stopped = λ m now. mark_node-IsStopped k (without_queued k t) m now;
        }))
  | inr still ↦ elim (Bool-cases (is_error n.state && claims active k)) [
    | inr other ↦ rw (still, halt_found) (rw other (quiet-Round k n h (ok h) t refl there still))
    | inl failed ↦
        let (target, e) =
          ui_target_returns n
            (claimed_node_shown active k n t (ground arith) shown there (ground arith)) in
        rw (still, halt_found)
          (rw failed (
            quiet-Round k n (and_node target h) _ t
              (ap
                (λ (o : Result NodeUiTarget). elim o as (λ _. Result Halted) [
                  | err x ↦ err x
                  | ok u ↦ ok (and_node u h)
                ])
                e)
              there still))
  ]
]

halt_one-EndsRuns :
    (active : Option NodeClaim) (k : String) (h : Halted) (t : MessageTree)
    → IsSound t
    → IsClaimShown active t
    → EndsRuns (k ∷ []) t (halt_one active k h t)
unfolding halt_one get_node
halt_one-EndsRuns active k h t s shown = elim (Option-cases (Dict.get k t.graph.nodes)) [
  | inl gone ↦
      rw (gone, halt_one, get_node)
        (record {
          returned = (h, refl);
          marked = λ j. inl refl;
          active = refl;
          same_graph = refl;
          unqueued = λ x listed there. absurd (ground (arith, only_elem k x listed));
          stopped = λ x n listed there. absurd (ground (arith, only_elem k x listed));
          untouched = λ x other. refl;
          kept = λ x other. refl;
          shrinks = λ x out. out;
        })
  | inr (n, there) ↦
      rw (there, halt_one, get_node)
        (Round-EndsRuns k t _ s.steady.indexed (halt_found-Round active k n _ t s shown there))
]

EndsRuns-cons :
    (k : String) (ks : List String) (t : MessageTree) (m : Result Halted × MessageTree)
    (m' : Result Halted × MessageTree)
    → EndsRuns (k ∷ []) t m
    → EndsRuns ks m.1 m'
    → EndsRuns (k ∷ ks) t m'
unfolding elem
EndsRuns-cons k ks t m m' a b = record {
  returned = b.returned;
  marked = λ j. IsMarked-trans j t m.1 m'.1 (a.marked j) (b.marked j);
  active = b.active ∙ a.active;
  same_graph = b.same_graph ∙ a.same_graph;
  unqueued = λ x listed there. elim (Bool-cases (str_eq k x)) [
    | inl here ↦ b.shrinks x (a.unqueued x (ground arith) there)
    | inr later ↦ b.unqueued x (ground arith) (IsMarked-get x t m.1 (a.marked x) ∙ there)
  ];
  stopped = λ x n listed there. elim (Bool-cases (str_eq k x)) [
    | inl here ↦
        IsMarked-stopped x m.1 m'.1 (b.marked x) (λ n' there'. a.stopped x n' (ground arith) there')
          n there
    | inr later ↦ b.stopped x n (ground arith) there
  ];
  untouched = λ x other. b.untouched x (ground arith) ∙ a.untouched x (ground arith);
  kept = λ x other. b.kept x (ground arith) ∙ a.kept x (ground arith);
  shrinks = λ x out. b.shrinks x (a.shrinks x out);
}

pub halt_each-EndsRuns :
    (active : Option NodeClaim) (ks : List String) (h : Halted) (t : MessageTree)
    → IsSound t
    → IsClaimShown active t
    → EndsRuns ks t (halt_each active ks h t)
unfolding halt_each elem
halt_each-EndsRuns active [] h t s shown = record {
  returned = (h, refl);
  marked = λ j. inl refl;
  active = refl;
  same_graph = refl;
  unqueued = λ x listed there. absurd (cc listed);
  stopped = λ x n listed there. absurd (cc listed);
  untouched = λ x other. refl;
  kept = λ x other. refl;
  shrinks = λ x out. out;
}
halt_each-EndsRuns active (k ∷ ks) h t s shown =
    let a = halt_one-EndsRuns active k h t s shown in
    let u = (halt_one active k h t).1 in
    let b =
      halt_each-EndsRuns active ks a.returned.0 u (halt_one-IsSound active k h t s)
        (IsMarked-IsClaimShown active t u a.marked shown) in
    rw (a.returned.1, halt_each, ◌>>=◌) (EndsRuns-cons k ks t (halt_one active k h t) _ a b)
