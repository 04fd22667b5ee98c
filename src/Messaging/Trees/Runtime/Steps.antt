-- ===== src/Messaging/Trees/Runtime/Steps.antt =====
-- Every operation of `MessageTree` in trees/runtime.py keeps the invariant, also when it raises.
use free_claude_code_my_pr_i.Messaging.Trees.Runtime.Claimed.{
  tail_of, failed_with, fail_node, fail_descendants, fail_claim, fail_own, fail_and_remove, Failing,
  fail_each, record_session, complete_claim, claimed_node, update_and_snapshot,
}
use free_claude_code_my_pr_i.Messaging.Trees.Runtime.Tree.{update_state-IsTree, mark_error-IsTree}
use free_claude_code_my_pr_i.Messaging.Trees.Runtime.Sound.{
  pending-Waiting, ui_target_returns, IsSound,
}
use free_claude_code_my_pr_i.Messaging.Trees.Queue.Fifo.{queue-ActsAsFifo, elem-without}
use free_claude_code_my_pr_i.Messaging.Trees.Node.{
  err, ok, Result, is_completed, in_progress, completed, is_in_progress, is_error, is_runnable,
  MessageNode, MessageState, NodeClaim,
}
use free_claude_code_my_pr_i.Messaging.Trees.Runtime.{◌>>=◌, Run, pending_node, MessageTree}
use free_claude_code_my_pr_i.Messaging.Trees.Graph.{get_descendants, get_node, update_node}
use free_claude_code_my_pr_i.Messaging.Trees.Runtime.Cancel.{
  without_queued, active_claim_of, request_cancellation, mark_node, cancel_found, cancel_node,
}
use free_claude_code_my_pr_i.Prelude.Dict
use free_claude_code_my_pr_i.Messaging.Trees.Queue
use free_claude_code_my_pr_i.Prelude.{
  String, ◌≡◌, refl, ap, ◌∙◌, inl, inr, Bool, true, false, ◌&&◌, ◌||◌, Option, none, some, List, [],
  ◌∷◌, ◌++◌, arith, str_eq, if◌then◌else◌, Bool-cases, Option-cases, is_some,
}

pub mark_node-IsSound : (k : String) (t : MessageTree) → IsSound t → IsSound (mark_node k t)
unfolding update_node
mark_node-IsSound k t s = record {
  steady = record {
    tree = mark_error-IsTree k t.graph.nodes s.steady.tree;
    indexed = s.steady.indexed;
    nonempty = s.steady.nonempty;
  };
  idle = s.idle;
}

pub request_cancellation-IsSound : (t : MessageTree) → IsSound t → IsSound (request_cancellation t)
request_cancellation-IsSound t s = record {
  steady = record {
    tree = s.steady.tree;
    indexed = s.steady.indexed;
    nonempty = s.steady.nonempty;
  };
  idle = λ free. s.idle (still free);
}
  where
    still : (request_cancellation t).active ≡ none → t.active ≡ none
    still free = elim (Option-cases t.active) [
      | inl e ↦ e
      | inr (a, e) ↦ absurd (ground (arith, free))
    ]

elem-without-false :
    (x k : String) (xs : List String)
    → Dict.elem x xs ≡ false
    → Dict.elem x (Queue.without k xs) ≡ false
elem-without-false x k xs h = elim (Bool-cases (str_eq k x)) [
  | inl here ↦ rw (elem-without k x xs) (rw here refl)
  | inr there ↦ rw (elem-without k x xs) (rw there h)
]

pub remove-IsSound : (k : String) (t : MessageTree) → IsSound t → IsSound (without_queued k t)
remove-IsSound k t s =
    let f = queue-ActsAsFifo t.queue k s.steady.indexed in
    record {
      steady = record {
        tree = s.steady.tree;
        indexed = f.remove_indexed;
        nonempty = rw f.rest (elem-without-false "" k t.queue.deque s.steady.nonempty);
      };
      idle = λ free. f.rest ∙ (ap (Queue.without k) (s.idle free) ∙ (unfold Queue.without in refl));
    }

update-IsSound :
    (k : String) (state : MessageState) (session : Option String) (t : MessageTree)
    → ((n : MessageNode)
        → Dict.get k t.graph.nodes ≡ some n
        → is_runnable state ≡ true
        → is_some n.status_message_id ≡ true)
    → IsSound t
    → IsSound (update_and_snapshot k state session t).1
unfolding update_node
update-IsSound k state session t shown s = record {
  steady = record {
    tree = update_state-IsTree k state session t.graph.nodes s.steady.tree shown;
    indexed = s.steady.indexed;
    nonempty = s.steady.nonempty;
  };
  idle = s.idle;
}

cancel_found-IsSound :
    (k : String) (n : MessageNode) (active : Option NodeClaim) (changed : Bool) (t : MessageTree)
    → IsSound t
    → IsSound (cancel_found k n active changed t).1
unfolding cancel_found
cancel_found-IsSound k n active changed t s = elim (Bool-cases (is_runnable n.state)) [
  | inl runs ↦ rw (runs, cancel_found) (mark_node-IsSound k t s)
  | inr halted ↦ elim (Bool-cases (is_error n.state && is_some active)) [
    | inl failed ↦ rw (halted, cancel_found) (rw failed s)
    | inr other ↦ rw (halted, cancel_found) (rw other s)
  ]
]

stop_and_remove :
    (k : String) (active : Option NodeClaim) (t : MessageTree)
    → IsSound t
    → IsSound (if is_some active then request_cancellation t else t)
      × IsSound (record (if is_some active then request_cancellation t else t) {
        queue = (Queue.remove k t.queue).1;
      })
stop_and_remove k none t s = (s, remove-IsSound k t s)
stop_and_remove k (some c) t s =
    let r = request_cancellation-IsSound t s in (r, remove-IsSound k (request_cancellation t) r)

pub cancel_node-IsSound : (k : String) (t : MessageTree) → IsSound t → IsSound (cancel_node k t).1
unfolding cancel_node
cancel_node-IsSound k t s =
    let both = stop_and_remove k (active_claim_of k t) t s in
    elim (Option-cases (get_node k t.graph)) [
      | inl none_ ↦ rw (none_, cancel_node) both.0
      | inr (n, e) ↦
          rw (e, cancel_node)
            (cancel_found-IsSound k n (active_claim_of k t) (Queue.remove k t.queue).0
              (record (if is_some (active_claim_of k t) then request_cancellation t else t) {
                queue = (Queue.remove k t.queue).1;
              })
              both.1)
    ]

-- The node of a claim is stored under its key.
pub claimed_node-get :
    (claim_id k : String) (n : MessageNode) (t : MessageTree)
    → claimed_node claim_id t ≡ some (k, n)
    → Dict.get k t.graph.nodes ≡ some n
unfolding claimed_node get_node
claimed_node-get claim_id k n t e = elim (Option-cases t.active) [
  | inl free ↦ absurd (ground arith)
  | inr (a, busy) ↦ ground arith
]

pub record_session-IsSound :
    (claim_id session : String) (t : MessageTree)
    → IsSound t
    → IsSound (record_session claim_id session t).1
unfolding record_session
record_session-IsSound claim_id session t s = elim (Option-cases (claimed_node claim_id t)) [
  | inl none_ ↦ rw (none_, record_session) s
  | inr ((k, n), e) ↦ elim (Bool-cases (is_in_progress n.state)) [
    | inr other ↦ rw (e, record_session) (rw other s)
    | inl runs ↦
        rw (e, record_session)
          (rw runs (
            update-IsSound k in_progress (some session) t
              (λ m there run.
                s.steady.tree.visible k m there
                  (ground (arith, claimed_node-get claim_id k n t e, there, runs)))
              s))
  ]
]

pub complete_claim-IsSound :
    (claim_id : String) (session : Option String) (t : MessageTree)
    → IsSound t
    → IsSound (complete_claim claim_id session t).1
unfolding complete_claim
complete_claim-IsSound claim_id session t s = elim (Option-cases (claimed_node claim_id t)) [
  | inl none_ ↦ rw (none_, complete_claim) s
  | inr ((k, n), e) ↦ elim (Bool-cases (is_in_progress n.state || is_error n.state)) [
    | inr other ↦ rw (e, complete_claim) (rw other s)
    | inl may ↦
        rw (e, complete_claim) (rw may (update-IsSound k completed session t (λ m there run. cc) s))
  ]
]

fail_each-IsSound :
    (ks : List String) (failing : Failing) (t : MessageTree)
    → IsSound t
    → IsSound (fail_each ks failing t).1
unfolding fail_each
fail_each-IsSound [] failing t s = s
fail_each-IsSound (k ∷ ks) failing t s = elim (Option-cases (pending_node k t.graph)) [
  | inl none_ ↦ rw (none_, fail_each) (fail_each-IsSound ks failing t s)
  | inr (n, e) ↦
      let (target, shown) =
        ui_target_returns n (pending-Waiting k n t.graph s.steady.tree e).shown in
      rw (e, fail_each)
        (rw shown (
          fail_each-IsSound ks
            (record {
              affected = failing.affected ++ target ∷ [];
              queue_changed = (Queue.remove n.node_id t.queue).0 || failing.queue_changed;
            })
            (fail_and_remove k n t)
            (remove-IsSound n.node_id (mark_node k t) (mark_node-IsSound k t s))))
]

>>=-IsSound :
    {A B : Type 0} (m : Run A) (f : A → Run B) (t : MessageTree)
    → IsSound (m t).1
    → ((a : A) (t' : MessageTree) → IsSound t' → IsSound (f a t').1)
    → IsSound ((m >>= f) t).1
>>=-IsSound {A = A} {B = B} m f t s next = go (m t).0 (m t).1 s
  where
    go : (r : Result A) (t' : MessageTree) → IsSound t' → IsSound (((λ _. (r, t')) >>= f) t).1
    go (ok a) t' s' = next a t' s'
    go (err e) t' s' = s'

pub fail_own-IsSound :
    (k : String) (n : MessageNode) (t : MessageTree) → IsSound t → IsSound (fail_own k n t).1
unfolding fail_own
fail_own-IsSound k n t s = elim (Bool-cases (is_error n.state)) [
  | inl failed ↦ rw (failed, fail_own) s
  | inr other ↦ rw (other, fail_own) (mark_node-IsSound k t s)
]

fail_descendants-IsSound :
    (propagate : Bool) (k : String) (failing : Failing) (t : MessageTree)
    → IsSound t
    → IsSound (fail_descendants propagate k failing t).1
unfolding fail_descendants
fail_descendants-IsSound false k failing t s = s
fail_descendants-IsSound true k failing t s = elim (Option-cases (get_descendants k t.graph)) [
  | inl none_ ↦ rw (none_, fail_descendants) s
  | inr (ks, e) ↦ rw (e, fail_descendants) (fail_each-IsSound (tail_of ks) failing t s)
]

pub fail_node-IsSound :
    (propagate : Bool) (k : String) (n : MessageNode) (t : MessageTree)
    → IsSound t
    → IsSound (fail_node propagate k n t).1
unfolding fail_node
fail_node-IsSound propagate k n t s = elim (Bool-cases (is_completed n.state)) [
  | inl done ↦ rw (done, fail_node) s
  | inr other ↦
      rw (other, fail_node)
        (>>=-IsSound (fail_own k n) (fail_descendants propagate n.node_id) t
          (fail_own-IsSound k n t s) (fail_descendants-IsSound propagate n.node_id))
]

pub fail_claim-IsSound :
    (claim_id : String) (propagate : Bool) (t : MessageTree)
    → IsSound t
    → IsSound (fail_claim claim_id propagate t).1
unfolding fail_claim
fail_claim-IsSound claim_id propagate t s = elim (Option-cases (claimed_node claim_id t)) [
  | inl none_ ↦ rw (none_, fail_claim) s
  | inr ((k, n), e) ↦
      rw (e, fail_claim)
        (>>=-IsSound (fail_node propagate k n) (λ failing t'. (failed_with failing t', t')) t
          (fail_node-IsSound propagate k n t s) (λ failing t' s'. s'))
]
