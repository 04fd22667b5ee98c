-- ===== src/Messaging/Trees/Runtime/Failing.antt =====
-- `fail_claim` of trees/runtime.py fails the pending descendants of its node.
use free_claude_code_my_pr_i.Messaging.Trees.Graph.Marked.{get_descendants-mark}
use free_claude_code_my_pr_i.Messaging.Trees.Graph.Traversal.{get_descendants_total}
use free_claude_code_my_pr_i.Messaging.Trees.Runtime.Steps.{
  fail_node-IsSound, claimed_node-get, fail_own-IsSound,
}
use free_claude_code_my_pr_i.Messaging.Trees.Runtime.Sound.{
  queue_entries_return, IsSound, pending-Waiting, ui_target_returns,
}
use free_claude_code_my_pr_i.Messaging.Trees.Runtime.Tree.{mark_error-IsTree, IsTree}
use free_claude_code_my_pr_i.Messaging.Trees.Runtime.Claimed.{
  failed_with, claimed_node, fail_claim, nothing_failed, tail_of, fail_descendants, fail_own,
  fail_node, fail_and_remove, Failing, fail_each,
}
use free_claude_code_my_pr_i.Messaging.Trees.Queue.{MessageNodeQueue}
use free_claude_code_my_pr_i.Messaging.Trees.Node.{
  FailureResult, error, completed, in_progress, pending, is_runnable, is_error, MessageState,
  is_completed, ok, Result, is_pending, update_state, MessageNode, mark_error,
}
use free_claude_code_my_pr_i.Prelude.Dict.{get-modify, Dict}
use free_claude_code_my_pr_i.Messaging.Trees.Runtime.{◌>>=◌, MessageTree, pending_node}
use free_claude_code_my_pr_i.Messaging.Trees.Graph.{
  MessageTreeGraph, get_node, update_node, get_descendants,
}
use free_claude_code_my_pr_i.Prelude.Dict
use free_claude_code_my_pr_i.Messaging.Trees.Queue
use free_claude_code_my_pr_i.Prelude.{
  String, ◌≡◌, refl, sym, ap, subst, ◌∙◌, ◌⊎◌, inl, inr, Bool, true, false, ◌||◌, false≢true,
  Option, none, some, List, [], ◌∷◌, ◌++◌, arith, str_eq, eq_iff, if◌then◌else◌, Bool-cases,
  Option-cases,
}

abbrev pending_in : Option MessageNode → Option MessageNode
pending_in none = none
pending_in (some n) = if is_pending n.state then some n else none

pending_in-mark :
    (b : Bool) (o : Option MessageNode)
    → (pending_in o ≡ none) ⊎ (b ≡ true)
    → pending_in (if b then Dict.map_option mark_error o else o) ≡ none
unfolding mark_error update_state
pending_in-mark true none h = refl
pending_in-mark true (some n) h = refl
pending_in-mark false o (inl h) = h
pending_in-mark false o (inr h) = absurd (false≢true h)

-- The node is not pending.
abbrev pub IsSettled : MessageTree → String → Type 0
IsSettled t k = pending_node k t.graph ≡ none

IsSettled-lookup :
    (j : String) (g : MessageTreeGraph) → pending_node j g ≡ pending_in (Dict.get j g.nodes)
unfolding pending_node get_node
IsSettled-lookup j g = ground arith

-- A failed node is settled, and so are the nodes that were.
mark_error-IsSettled :
    (k j : String) (t : MessageTree) (q : MessageNodeQueue)
    → (IsSettled t j) ⊎ (str_eq k j ≡ true)
    → IsSettled (record t { graph = update_node k mark_error t.graph; queue = q }) j
mark_error-IsSettled k j t q h =
    let looked : Dict.get j (update_node k mark_error t.graph).nodes ≡ (
        if str_eq k j
        then Dict.map_option mark_error (Dict.get j t.graph.nodes)
        else Dict.get j t.graph.nodes) =
      unfold update_node in get-modify k j mark_error t.graph.nodes in
    IsSettled-lookup j (update_node k mark_error t.graph)
    ∙ (ap pending_in looked ∙ pending_in-mark (str_eq k j) (Dict.get j t.graph.nodes) (before h))
  where
    before :
        (IsSettled t j) ⊎ (str_eq k j ≡ true)
        → (pending_in (Dict.get j t.graph.nodes) ≡ none) ⊎ (str_eq k j ≡ true)
    before (inl e) = inl (sym (IsSettled-lookup j t.graph) ∙ e)
    before (inr e) = inr e

-- The loop over the descendants returns, and settles each of them.
record Settles (ks : List String) (t : MessageTree) (m : Result Failing × MessageTree)
    : Type 0 where
  failing : Failing
  returned : m.0 ≡ ok failing
  kept : (j : String) → IsSettled t j → IsSettled m.1 j
  settled : (j : String) → Dict.elem j ks ≡ true → IsSettled m.1 j

fail_each-Settles :
    (ks : List String) (failing : Failing) (t : MessageTree)
    → IsTree t.graph.nodes
    → Settles ks t (fail_each ks failing t)
unfolding fail_each
fail_each-Settles [] failing t i = record {
  failing = failing;
  returned = refl;
  kept = λ j h. h;
  settled = λ j h. absurd (unfold Dict.elem in cc h);
}
fail_each-Settles (k ∷ ks) failing t i = elim (Option-cases (pending_node k t.graph)) [
  | inl none_ ↦
      let rest = fail_each-Settles ks failing t i in
      rw (none_, fail_each)
        (record {
          failing = rest.failing;
          returned = rest.returned;
          kept = rest.kept;
          settled = covers k ks (fail_each ks failing t).1 (rest.kept k none_) rest.settled;
        })
  | inr (n, e) ↦
      let (target, shown) = ui_target_returns n (pending-Waiting k n t.graph i e).shown in
      let next : Failing = record {
        affected = failing.affected ++ target ∷ [];
        queue_changed = (Queue.remove n.node_id t.queue).0 || failing.queue_changed;
      } in
      let u = fail_and_remove k n t in
      let q = (Queue.remove n.node_id t.queue).1 in
      let rest =
        fail_each-Settles ks next u (unfold update_node in mark_error-IsTree k t.graph.nodes i) in
      rw (e, fail_each)
        (rw shown (record {
          failing = rest.failing;
          returned = rest.returned;
          kept = λ j h. rest.kept j (mark_error-IsSettled k j t q (inl h));
          settled =
              covers k ks (fail_each ks next u).1
                (rest.kept k (mark_error-IsSettled k k t q (inr ((eq_iff k k).1 refl))))
                rest.settled;
        }))
]
  where
    covers :
        (k : String) (ks : List String) (v : MessageTree)
        → IsSettled v k
        → ((j : String) → Dict.elem j ks ≡ true → IsSettled v j)
        → (j : String) → Dict.elem j (k ∷ ks) ≡ true
        → IsSettled v j
    covers k ks v here rest j h = elim (Bool-cases (str_eq k j)) [
      | inl same ↦ subst (IsSettled v) ((eq_iff k j).0 same) here
      | inr other ↦ rest j (unfold Dict.elem in ground arith)
    ]

-- The claimed node itself is failed first.
record OwnFails (k : String) (n : MessageNode) (t : MessageTree) : Type 0 where
  failing : Failing
  returned : (fail_own k n t).0 ≡ ok failing
  same : get_descendants k (fail_own k n t).1.graph ≡ get_descendants k t.graph

fail_own-OwnFails :
    (k : String) (n : MessageNode) (t : MessageTree)
    → IsTree t.graph.nodes
    → Dict.get k t.graph.nodes ≡ some n
    → is_completed n.state ≡ false
    → OwnFails k n t
unfolding fail_own
fail_own-OwnFails k n t i there open_ = elim (Bool-cases (is_error n.state)) [
  | inl failed ↦
      let e : fail_own k n t ≡ (ok nothing_failed, t) = ground arith in
      record {
        failing = nothing_failed;
        returned = ap (λ r. r.0) e;
        same = ap (λ r. get_descendants k r.1.graph) e;
      }
  | inr other ↦
      let runs : is_runnable n.state ≡ true = runnable n.state open_ other in
      let (target, shown) = ui_target_returns n (i.visible k n there runs) in
      let e : fail_own k n t ≡ (
        ok (record { affected = target ∷ []; queue_changed = false }),
        record t { graph = update_node k mark_error t.graph },
      ) =
        ground arith in
      record {
        failing = record { affected = target ∷ []; queue_changed = false };
        returned = ap (λ r. r.0) e;
        same = ap (λ r. get_descendants k r.1.graph) e ∙ get_descendants-mark k k t.graph;
      }
]
  where
    runnable :
        (s : MessageState) → is_completed s ≡ false → is_error s ≡ false → is_runnable s ≡ true
    runnable pending a b = refl
    runnable in_progress a b = refl
    runnable completed a b = absurd (cc a)
    runnable error a b = absurd (cc b)

fail_node-Settles :
    (k : String) (n : MessageNode) (ks : List String) (t : MessageTree)
    → IsSound t
    → Dict.get k t.graph.nodes ≡ some n
    → is_completed n.state ≡ false
    → get_descendants k t.graph ≡ some ks
    → (failing : Failing) × ((fail_node true k n t).0 ≡ ok failing)
      × ((j : String) → Dict.elem j (tail_of ks) ≡ true → IsSettled (fail_node true k n t).1 j)
unfolding fail_node fail_descendants
fail_node-Settles k n ks t s there open_ below =
    let own = fail_own-OwnFails k n t s.steady.tree there open_ in
    let v = (fail_own k n t).1 in
    let rest =
      fail_each-Settles (tail_of ks) own.failing v (fail_own-IsSound k n t s).steady.tree in
    let named : n.node_id ≡ k = (eq_iff n.node_id k).0 (s.steady.tree.keyed k n there) in
    let found : get_descendants n.node_id v.graph ≡ some ks =
      ap (λ x. get_descendants x v.graph) named ∙ (own.same ∙ below) in
    rw (open_, fail_node)
      (rw (own.returned, ◌>>=◌)
        (rw (found, fail_descendants) (rest.failing, rest.returned, rest.settled)))

failed_with_returns :
    (failing : Failing) (t : MessageTree)
    → IsTree t.graph.nodes
    → (r : FailureResult) × (failed_with failing t ≡ ok r)
failed_with_returns failing t i =
    let (entries, e) = queue_entries_return t i in
    elim (Bool-cases failing.queue_changed) [
      | inl changed ↦ rw changed (rw e (_, refl))
      | inr same ↦ rw same (_, refl)
    ]

has-get :
    (k : String) (n : MessageNode) (d : Dict MessageNode)
    → Dict.get k d ≡ some n
    → Dict.has k d ≡ true
has-get k n d e = rw e refl

-- In a sound tree, `fail_claim` with propagation, for the claim that is active and not told to stop and
-- whose node is not completed, returns. Afterwards none of the node's descendants is pending.
pub fail_claim-IsSettled :
    (claim_id k : String) (n : MessageNode) (t : MessageTree)
    → IsSound t
    → claimed_node claim_id t ≡ some (k, n)
    → is_completed n.state ≡ false
    → (r : FailureResult) × ((fail_claim claim_id true t).0 ≡ ok r)
      × (ks : List String) × (get_descendants k t.graph ≡ some ks)
      × ((j : String)
          → Dict.elem j (tail_of ks) ≡ true
          → IsSettled (fail_claim claim_id true t).1 j)
unfolding fail_claim
fail_claim-IsSettled claim_id k n t s e open_ =
    let there = claimed_node-get claim_id k n t e in
    let (ks, below, _, _) =
      get_descendants_total t.graph k s.steady.tree.ordered (has-get k n t.graph.nodes there) in
    let (failing, returned, settled) = fail_node-Settles k n ks t s there open_ below in
    let (r, done) =
      failed_with_returns failing (fail_node true k n t).1
        (fail_node-IsSound true k n t s).steady.tree in
    rw (e, fail_claim) (rw (returned, ◌>>=◌) (r, done, ks, below, settled))
