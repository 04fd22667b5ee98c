-- ===== src/Messaging/Trees/Runtime/Life.antt =====
-- The life of a `MessageTree` of trees/runtime.py as a sequence of operations.
use free_claude_code_my_pr_i.Messaging.Trees.Runtime.Cancelling.{cancel_all-IsSound}
use free_claude_code_my_pr_i.Messaging.Trees.Runtime.Detach.{remove_message_subtree-IsSound}
use free_claude_code_my_pr_i.Messaging.Trees.Runtime.Removal.{remove_message_subtree}
use free_claude_code_my_pr_i.Messaging.Trees.Runtime.Steps.{
  fail_claim-IsSound, complete_claim-IsSound, record_session-IsSound, cancel_node-IsSound,
}
use free_claude_code_my_pr_i.Messaging.Trees.Runtime.Tree.{add_node-IsTree}
use free_claude_code_my_pr_i.Messaging.Trees.Runtime.Handover.{
  released, next_of, HandsOver, finish-HandsOver,
}
use free_claude_code_my_pr_i.Messaging.Trees.Node.{
  CompletionResult, ok, err, is_error, is_runnable, NodeClaim, Result, MessageNode,
}
use free_claude_code_my_pr_i.Messaging.Trees.Graph.{get_node, add_node, MessageTreeGraph, Reply}
use free_claude_code_my_pr_i.Messaging.Trees.Runtime.Sound.{enqueue_or_claim-Succeeds, IsSound}
use free_claude_code_my_pr_i.Messaging.Trees.Runtime.Claimed.{
  fail_claim, complete_claim, claimed_node, record_session,
}
use free_claude_code_my_pr_i.Messaging.Trees.Runtime.{
  ActiveClaim, enqueue_or_claim, MessageTree, holds, finish_and_claim_next, add_and_enqueue,
}
use free_claude_code_my_pr_i.Messaging.Trees.Runtime.Cancel.{
  cancel_all, request_cancellation, active_claim_of, cancel_found, cancel_node,
}
use free_claude_code_my_pr_i.Messaging.Trees.Queue
use free_claude_code_my_pr_i.Prelude.{
  String, ◌≡◌, refl, subst, ◌∙◌, inl, inr, Bool, true, false, ◌&&◌, Option, none, some, List, arith,
  str_eq, if◌then◌else◌, Bool-cases, Option-cases, is_some,
}

-- One operation on the tree, whether it returns or raises. A reply has an id that is not empty.
pub data Step : MessageTree → MessageTree → Type 0 where
  enqueue : (claim_id k : String) (t : MessageTree) → Step t (enqueue_or_claim claim_id k t).1
  add :
      (claim_id : String) (r : Reply) (t : MessageTree)
      → str_eq r.node_id "" ≡ false
      → Step t (add_and_enqueue claim_id r t).1
  finish :
      (next_id claim_id : String) (t : MessageTree)
      → Step t (finish_and_claim_next next_id claim_id t).1
  cancel : (k : String) (t : MessageTree) → Step t (cancel_node k t).1
  cancel_everything : (t : MessageTree) → Step t (cancel_all t).1
  record_id :
      (claim_id session : String) (t : MessageTree) → Step t (record_session claim_id session t).1
  complete :
      (claim_id : String) (session : Option String) (t : MessageTree)
      → Step t (complete_claim claim_id session t).1
  fail :
      (claim_id : String) (propagate : Bool) (t : MessageTree)
      → Step t (fail_claim claim_id propagate t).1
  remove_subtree :
      (arrange : List String → List String) (r : String) (t : MessageTree)
      → Step t (remove_message_subtree arrange r t).1

-- What several operations lead to
pub data Steps : MessageTree → MessageTree → Type 0 where
  stay : (t : MessageTree) → Steps t t
  step : (t u v : MessageTree) → Step t u → Steps u v → Steps t v

add_and_enqueue-IsSound :
    (claim_id : String) (r : Reply) (t : MessageTree)
    → str_eq r.node_id "" ≡ false
    → IsSound t
    → IsSound (add_and_enqueue claim_id r t).1
unfolding add_and_enqueue
add_and_enqueue-IsSound claim_id r t ne s = go (add_node r t.graph) refl
  where
    go :
        (x : Result MessageTreeGraph)
        → add_node r t.graph ≡ x
        → IsSound (add_and_enqueue claim_id r t).1
    go (err e) h = rw (h, add_and_enqueue) s
    go (ok g) h =
        rw (h, add_and_enqueue)
          (enqueue_or_claim-Succeeds claim_id r.node_id (record t { graph = g })
            (record {
              steady = record {
                tree = add_node-IsTree r t.graph g ne s.steady.tree h;
                indexed = s.steady.indexed;
                nonempty = s.steady.nonempty;
              };
              idle = s.idle;
            })).sound

finish-IsSound :
    (next_id claim_id : String) (t : MessageTree)
    → IsSound t
    → IsSound (finish_and_claim_next next_id claim_id t).1
unfolding finish_and_claim_next
finish-IsSound next_id claim_id t s = elim (Bool-cases (holds claim_id t)) [
  | inl mine ↦ (finish-HandsOver next_id claim_id t s mine).0.sound
  | inr other ↦ rw (other, finish_and_claim_next) s
]

Step-IsSound : (t u : MessageTree) → Step t u → IsSound t → IsSound u
Step-IsSound _ _ (enqueue claim_id k t) s = (enqueue_or_claim-Succeeds claim_id k t s).sound
Step-IsSound _ _ (add claim_id r t ne) s = add_and_enqueue-IsSound claim_id r t ne s
Step-IsSound _ _ (finish next_id claim_id t) s = finish-IsSound next_id claim_id t s
Step-IsSound _ _ (cancel k t) s = cancel_node-IsSound k t s
Step-IsSound _ _ (cancel_everything t) s = cancel_all-IsSound t s
Step-IsSound _ _ (record_id claim_id session t) s = record_session-IsSound claim_id session t s
Step-IsSound _ _ (complete claim_id session t) s = complete_claim-IsSound claim_id session t s
Step-IsSound _ _ (fail claim_id propagate t) s = fail_claim-IsSound claim_id propagate t s
Step-IsSound _ _ (remove_subtree arrange r t) s = remove_message_subtree-IsSound arrange r t s

-- After any sequence of operations on a sound tree, also of operations that raise, in which no reply
-- is added with an empty id, the nodes are a tree stored under their ids, every node that is pending or in progress has a status message,
-- the queue's set agrees with its deque, and nobody is queued while no node is claimed.
pub Steps-IsSound : (t u : MessageTree) → Steps t u → IsSound t → IsSound u
Steps-IsSound _ _ (stay t) s = s
Steps-IsSound _ _ (step t u v first rest) s = Steps-IsSound u v rest (Step-IsSound t u first s)

-- A claim id that is not the active one changes nothing, whichever operation it comes with.
pub record IsStale (claim_id : String) (t : MessageTree) : Type 0 where
  pub finish : (next_id : String) → (finish_and_claim_next next_id claim_id t).1 ≡ t
  pub session : (session : String) → record_session claim_id session t ≡ (none, t)
  pub complete : (session : Option String) → complete_claim claim_id session t ≡ (none, t)
  pub fail : (propagate : Bool) → (fail_claim claim_id propagate t).1 ≡ t

not_claimed :
    (claim_id : String) (t : MessageTree)
    → holds claim_id t ≡ false
    → claimed_node claim_id t ≡ none
unfolding holds claimed_node
not_claimed claim_id t h = elim (Option-cases t.active) [
  | inl free ↦ rw free refl
  | inr (a, busy) ↦ ground arith
]

holds-IsStale :
    (claim_id : String) (t : MessageTree) → holds claim_id t ≡ false → IsStale claim_id t
unfolding finish_and_claim_next record_session complete_claim fail_claim
holds-IsStale claim_id t h =
    let n = not_claimed claim_id t h in
    record {
      finish = λ next_id. rw (h, finish_and_claim_next) refl;
      session = λ session. rw (n, record_session) refl;
      complete = λ session. rw (n, complete_claim) refl;
      fail = λ propagate. rw (n, fail_claim) refl;
    }

next_of-tree : (m : Result CompletionResult × MessageTree) → (next_of m).1 ≡ m.1
next_of-tree (ok r, t) = refl
next_of-tree (err e, t) = refl

HandsOver-holds :
    (next_id claim_id : String) (t : MessageTree) (m : Result (Option NodeClaim) × MessageTree)
    → str_eq next_id claim_id ≡ false
    → HandsOver next_id (released t) m
    → holds claim_id m.1 ≡ false
unfolding holds
HandsOver-holds next_id claim_id t m other (inl (n, s)) = rw n.active refl
HandsOver-holds next_id claim_id t m other (inr (b, s)) = rw b.active (rw b.id other)

-- After `finish_and_claim_next` for the active claim of a sound tree, with a new id for the next
-- claim, the old claim id changes nothing any more: a second `finish_and_claim_next` with it, and
-- `record_session`, `complete_claim` and `fail_claim`, leave the tree as it is, whoever has the next
-- claim, and `record_session` and `complete_claim` return no snapshot.
pub finished_claim-IsStale :
    (next_id claim_id : String) (t : MessageTree)
    → IsSound t
    → holds claim_id t ≡ true
    → str_eq next_id claim_id ≡ false
    → IsStale claim_id (finish_and_claim_next next_id claim_id t).1
finished_claim-IsStale next_id claim_id t s mine other =
    let m = finish_and_claim_next next_id claim_id t in
    holds-IsStale claim_id m.1 (
      subst (λ u. holds claim_id u ≡ false) (next_of-tree m)
        (HandsOver-holds next_id claim_id t (next_of m) other
          (finish-HandsOver next_id claim_id t s mine).1))

cancel_found-active :
    (k : String) (n : MessageNode) (active : Option NodeClaim) (changed : Bool) (t : MessageTree)
    → (cancel_found k n active changed t).1.active ≡ t.active
unfolding cancel_found
cancel_found-active k n active changed t = elim (Bool-cases (is_runnable n.state)) [
  | inl runs ↦ rw (runs, cancel_found) refl
  | inr halted ↦ elim (Bool-cases (is_error n.state && is_some active)) [
    | inl failed ↦ rw (halted, cancel_found) (rw failed refl)
    | inr other ↦ rw (halted, cancel_found) (rw other refl)
  ]
]

cancel_node-active :
    (k : String) (a : ActiveClaim) (t : MessageTree)
    → t.active ≡ some a
    → str_eq a.claim.node.node_id k ≡ true
    → (cancel_node k t).1.active ≡ some (record a { cancellation_requested = true })
unfolding cancel_node
cancel_node-active k a t busy mine =
    let here : active_claim_of k t ≡ some a.claim = unfold active_claim_of in ground arith in
    let told : (if is_some (active_claim_of k t) then request_cancellation t else t).active
        ≡ some (record a { cancellation_requested = true }) =
      rw here (rw busy refl) in
    elim (Option-cases (get_node k t.graph)) [
      | inl none_ ↦ rw (none_, cancel_node) told
      | inr (n, e) ↦
          rw (e, cancel_node)
            (cancel_found-active k n (active_claim_of k t) (Queue.remove k t.queue).0
                (record (if is_some (active_claim_of k t) then request_cancellation t else t) {
                  queue = (Queue.remove k t.queue).1;
                })
              ∙ told)
    ]

silent :
    (claim_id : String) (a : ActiveClaim) (u : MessageTree)
    → u.active ≡ some a
    → a.cancellation_requested ≡ true
    → claimed_node claim_id u ≡ none
unfolding claimed_node
silent claim_id a u e told = ground arith

-- After `cancel_node` for the node of the active claim, whatever claim id `record_session`,
-- `complete_claim` and `fail_claim` come with, they leave the tree as it is, and the first two return
-- no snapshot.
pub cancelled_claim_is_silent :
    (k : String) (a : ActiveClaim) (t : MessageTree)
    → t.active ≡ some a
    → str_eq a.claim.node.node_id k ≡ true
    → let u = (cancel_node k t).1 in
      (claim_id : String)
      → ((session : String) → record_session claim_id session u ≡ (none, u))
        × ((session : Option String) → complete_claim claim_id session u ≡ (none, u))
        × ((propagate : Bool) → (fail_claim claim_id propagate u).1 ≡ u)
unfolding record_session complete_claim fail_claim
cancelled_claim_is_silent k a t busy mine claim_id =
    let told = cancel_node-active k a t busy mine in
    let n =
      silent claim_id (record a { cancellation_requested = true }) (cancel_node k t).1 told refl in
    (
      λ session. rw (n, record_session) refl,
      λ session. rw (n, complete_claim) refl,
      λ propagate. rw (n, fail_claim) refl,
    )
