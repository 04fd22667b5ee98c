-- ===== src/Messaging/Trees/Runtime/Stop.antt =====
-- `cancel_node` and `cancel_all` of trees/runtime.py as a whole.
use free_claude_code_my_pr_i.Prelude.Dict.{Dict}
use free_claude_code_my_pr_i.Messaging.Trees.Runtime.Sound.{IsSound, ui_target_returns}
use free_claude_code_my_pr_i.Messaging.Trees.Runtime.Tree.{IsTree}
use free_claude_code_my_pr_i.Messaging.Trees.Graph.{get_node}
use free_claude_code_my_pr_i.Messaging.Trees.Runtime.Halting.{
  Cancelled-trans, cancel_each-Halts, Cancelled, mark_node-IsStopped, mark_node-Cancelled,
  Cancelled-refl, Halts, seen-IsStopped, IsStopped,
}
use free_claude_code_my_pr_i.Messaging.Trees.Node.{
  err, NodeUiTarget, ok, Result, is_runnable, is_error, MessageNode,
}
use free_claude_code_my_pr_i.Messaging.Trees.Runtime.{ui_target, ◌>>=◌, ActiveClaim, MessageTree}
use free_claude_code_my_pr_i.Messaging.Trees.Runtime.Cancel.{
  add_found, cancel_nodes, cancel_each, cancel_all, mark_node, request_cancellation, nothing_found,
  node_ids, Found, cancel_claimed, cancel_active, cancel_waiting,
}
use free_claude_code_my_pr_i.Prelude.Dict
use free_claude_code_my_pr_i.Messaging.Trees.Queue
use free_claude_code_my_pr_i.Prelude.{
  String, ◌≡◌, refl, sym, ap, subst, ◌∙◌, inl, inr, true, false, none, some, List, [], ◌∷◌, map,
  arith, str_eq, Bool-cases, Option-cases, is_some,
}

-- If the node under the id has failed, its status message was not cleared.
abbrev pub IsShown : String → MessageTree → Type 0
IsShown k t =
    (n : MessageNode)
    → Dict.get k t.graph.nodes ≡ some n
    → is_error n.state ≡ true
    → is_some n.status_message_id ≡ true

-- The node of the active claim still has its status message, unless it has not failed.
abbrev pub IsActiveShown : MessageTree → Type 0
IsActiveShown t = (a : ActiveClaim) → t.active ≡ some a → IsShown a.claim.node.node_id t

only_seen :
    (k : String) (n : MessageNode) (t : MessageTree)
    → str_eq n.node_id k ≡ true
    → IsStopped t k
    → IsTree t.graph.nodes
    → (j : String) → Dict.elem j (n.node_id ∷ []) ≡ true
    → IsStopped t j
only_seen k n t same here i =
    seen-IsStopped k n t t [] (Cancelled-refl t i) same here
      (λ j h. absurd (unfold Dict.elem in cc h))

nothing_elem : (t : MessageTree) (j : String) → Dict.elem j [] ≡ true → IsStopped t j
unfolding Dict.elem
nothing_elem t j h = absurd (cc h)

abbrev found_one : NodeUiTarget → MessageNode → Found
found_one target n = record { cancelled_nodes = target ∷ []; seen = n.node_id ∷ [] }

add_found_one :
    (n : MessageNode) (target : NodeUiTarget)
    → ui_target n ≡ ok target
    → add_found n true nothing_found ≡ ok (found_one target n)
add_found_one n target e =
    ap (λ r. elim r as (λ _. Result Found) [ err x ↦ err x | ok u ↦ ok (found_one u n) ]) e

-- The claimed node is not to run, or has failed, or has a status message.
stopped-Halts :
    (k : String) (n : MessageNode) (found : Found) (t t' : MessageTree)
    → Dict.get k t.graph.nodes ≡ some n
    → IsTree t.graph.nodes
    → Cancelled t t'
    → IsStopped t' k
    → found.seen ≡ n.node_id ∷ []
    → Halts [] t (ok found, t')
stopped-Halts k n found t t' e i c here seen = record {
  found = found;
  returned = refl;
  cancelled = c;
  stopped = λ j h. only_seen k n t' (i.keyed k n e) here c.tree j (rw seen at h);
  covered = nothing_elem t';
}

cancel_claimed-Halts :
    (k : String) (t : MessageTree)
    → IsTree t.graph.nodes
    → IsShown k t
    → Halts [] t (cancel_claimed k t)
unfolding cancel_claimed get_node
cancel_claimed-Halts k t i shown = elim (Option-cases (Dict.get k t.graph.nodes)) [
  | inl none_ ↦
      rw (none_, cancel_claimed, get_node)
        (record {
          found = nothing_found;
          returned = refl;
          cancelled = Cancelled-refl t i;
          stopped = nothing_elem t;
          covered = nothing_elem t;
        })
  | inr (n, e) ↦ elim (Bool-cases (is_runnable n.state)) [
    | inl runs ↦
        let (target, named) = ui_target_returns n (i.visible k n e runs) in
        rw (e, cancel_claimed, get_node)
          (rw runs (
            subst (λ (r : Result Found). Halts [] t (r, mark_node k t))
              (sym (add_found_one n target named))
              (stopped-Halts k n (found_one target n) t (mark_node k t) e i
                (mark_node-Cancelled k t i) (mark_node-IsStopped k t) refl)))
    | inr halted ↦
        let here : IsStopped t k = λ m e'. ground arith in
        elim (Bool-cases (is_error n.state)) [
          | inl failed ↦
              let (target, named) = ui_target_returns n (shown n e failed) in
              rw (e, cancel_claimed, get_node)
                (rw halted (
                  rw failed (
                    subst (λ (r : Result Found). Halts [] t (r, t))
                      (sym (add_found_one n target named))
                      (stopped-Halts k n (found_one target n) t t e i (Cancelled-refl t i) here
                        refl))))
          | inr other ↦
              rw (e, cancel_claimed, get_node)
                (rw halted (
                  rw other (
                    stopped-Halts k n (record { cancelled_nodes = []; seen = n.node_id ∷ [] }) t t e
                      i (Cancelled-refl t i) here refl)))
        ]
  ]
]

-- `cancel_active` is a halt of the tree whose claim was told to stop.
cancel_active-Halts :
    (t : MessageTree)
    → IsTree t.graph.nodes
    → IsActiveShown t
    → Halts [] (request_cancellation t) (cancel_active t)
unfolding cancel_active
cancel_active-Halts t i shown = elim (Option-cases t.active) [
  | inl free ↦
      rw (free, cancel_active)
        (record {
          found = nothing_found;
          returned = refl;
          cancelled = record { tree = i; queue = refl; active = free; running = λ k n e run. e };
          stopped = nothing_elem t;
          covered = nothing_elem t;
        })
  | inr (a, busy) ↦
      let claimed : cancel_active t ≡ cancel_claimed a.claim.node.node_id (request_cancellation t) =
        cc in
      rw claimed
        (cancel_claimed-Halts a.claim.node.node_id (request_cancellation t) i (shown a busy))
]

get-unlisted :
    (k : String) (d : Dict MessageNode)
    → Dict.elem k (map (λ e. e.0) d) ≡ false
    → Dict.get k d ≡ none
unfolding Dict.get Dict.elem
get-unlisted k [] h = refl
get-unlisted k ((j, n) ∷ d) h = ground (arith, get-unlisted k d)

-- A part of `cancel_all` that returns and leaves no node to run
pub record StopsAll (t : MessageTree) (m : Result Found × MessageTree) : Type 0 where
  pub found : Found
  pub returned : m.0 ≡ ok found
  pub cancelled : Cancelled t m.1
  pub all_stopped : (k : String) → IsStopped m.1 k

-- A loop over all nodes stops them all.
all_covered :
    (t t' : MessageTree)
    → Cancelled t t'
    → ((k : String) → Dict.elem k (node_ids t) ≡ true → IsStopped t' k)
    → (k : String) → IsStopped t' k
all_covered t t' c covered k n e = elim (Bool-cases (Dict.elem k (node_ids t))) [
  | inl listed ↦ covered k listed n e
  | inr unlisted ↦ elim (Bool-cases (is_runnable n.state)) [
    | inr halted ↦ halted
    | inl runs ↦
        absurd (ground (arith, get-unlisted k t.graph.nodes unlisted, c.running k n e runs))
  ]
]

cancel_waiting-StopsAll :
    (ks : List String) (found : Found) (t : MessageTree)
    → IsTree t.graph.nodes
    → ((j : String) → Dict.elem j found.seen ≡ true → IsStopped t j)
    → StopsAll t (cancel_waiting ks found t)
unfolding cancel_waiting
cancel_waiting-StopsAll ks found t i before =
    let u = (cancel_each true ks found t).1 in
    let a = cancel_each-Halts true ks found t i before in
    let v = (cancel_each false (node_ids u) a.found u).1 in
    let b = cancel_each-Halts false (node_ids u) a.found u a.cancelled.tree a.stopped in
    rw (a.returned, cancel_waiting, ◌>>=◌)
      (record {
        found = b.found;
        returned = b.returned;
        cancelled = Cancelled-trans t u v a.cancelled b.cancelled;
        all_stopped = all_covered u v b.cancelled b.covered;
      })

-- The tree with an empty queue
abbrev pub drained : MessageTree → MessageTree
drained t = record t { queue = (Queue.drain t.queue).1 }

-- What `cancel_all` does in the end: it returns, no node is left to run, the queue is empty, and the
-- active claim stays active and is told to stop.
pub record StopsTree {A : Type 0} (t : MessageTree) (m : Result A × MessageTree) : Type 0 where
  pub returned : (r : A) × (m.0 ≡ ok r)
  pub tree : IsTree m.1.graph.nodes
  pub all_stopped : (k : String) → IsStopped m.1 k
  pub queue : m.1.queue ≡ Queue.empty
  pub active : m.1.active ≡ (request_cancellation t).active

cancel_nodes-StopsTree :
    (t : MessageTree) → IsTree t.graph.nodes → IsActiveShown t → StopsTree t (cancel_nodes t)
unfolding cancel_nodes
cancel_nodes-StopsTree t i shown =
    let a = cancel_active-Halts t i shown in
    let u = (cancel_active t).1 in
    let b =
      cancel_waiting-StopsAll (Queue.drain u.queue).0 a.found (drained u) a.cancelled.tree
        a.stopped in
    rw (a.returned, cancel_nodes, ◌>>=◌)
      (record {
        returned = (b.found, b.returned);
        tree = b.cancelled.tree;
        all_stopped = b.all_stopped;
        queue = rw b.cancelled.queue (unfold Queue.drain in refl);
        active = b.cancelled.active ∙ a.cancelled.active;
      })

-- In a sound tree whose active node still has its status message, or has not failed, `cancel_all`
-- returns. Afterwards no node is pending or in progress, the queue is empty, and the active claim
-- stays active and is told to stop.
pub cancel_all_stops : (t : MessageTree) → IsSound t → IsActiveShown t → StopsTree t (cancel_all t)
unfolding cancel_all
cancel_all_stops t s shown =
    let a = cancel_nodes-StopsTree t s.steady.tree shown in
    rw (a.returned.1, cancel_all, ◌>>=◌)
      (record {
        returned = (_, refl);
        tree = a.tree;
        all_stopped = a.all_stopped;
        queue = a.queue;
        active = a.active;
      })
