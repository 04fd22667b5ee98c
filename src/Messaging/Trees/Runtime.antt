-- ===== src/Messaging/Trees/Runtime.antt =====
-- trees/runtime.py: `MessageTree`, the graph, the queue and the one claim to run a node. Each
-- operation is the body that the code runs under the tree's lock.
pub mod Cancel
pub mod Cancelling
pub mod Claimed
pub mod Cleared
pub mod Detach
pub mod Failing
pub mod Halting
pub mod Handover
pub mod Life
pub mod Lookup
pub mod Marking
pub mod Removal
pub mod Removed
pub mod Sound
pub mod Steps
pub mod Stop
pub mod Subtree
pub mod Tests
pub mod Tree
use free_claude_code_my_pr_i.Messaging.Trees.Queue.{put, pop, qsize, MessageNodeQueue}
use free_claude_code_my_pr_i.Messaging.Trees.Graph.{
  snapshot, get_parent_session_id, all_reference_ids, resolve_reference, add_node, update_node,
  get_node, MessageTreeGraph, Reply,
}
use free_claude_code_my_pr_i.Messaging.Trees.Node.{
  in_progress, out_of_fuel, value_error, update_state, is_pending, scope_eq, ok, NodeUiTarget, err,
  duplicate, QueueEntry, CompletionResult, ReplyTarget, QueueDecision, MessageNode, NodeClaim,
  MessageScope, Result, NodeView,
}
use free_claude_code_my_pr_i.Prelude.{
  ℕ, zero, suc, ◌+◌, ◌-◌, ◌*◌, ◌/◌, ◌%◌, ◌^◌, ◌≤◌, ◌<◌, min, max, String, ◌≡◌, refl, sym, ap, subst,
  ◌∙◌, ◌≢◌, ◌↔◌, ◌⊎◌, inl, inr, Bool, true, false, not, ◌&&◌, ◌||◌, false≢true, Option, none, some,
  List, [], ◌∷◌, ◌++◌, map, arith, str_eq, eq_iff, ltb, leb, ◌==◌, if◌then◌else◌, ltb→lt, leb→le,
  ==_iff, Bool-cases, Option-cases, is_some, length, length-append, All, All-append, All-map,
  list_cases,
}

pub record ActiveClaim : Type 0 where
  pub claim : NodeClaim
  pub cancellation_requested : Bool

pub record MessageTree : Type 0 where
  pub graph : MessageTreeGraph
  pub queue : MessageNodeQueue
  pub active : Option ActiveClaim

-- What an operation returns or raises, and the tree that it leaves behind.
abbrev pub Run : Type 0 → Type 0
Run A = MessageTree → Result A × MessageTree

infixl 5 ◌>>=◌
abbrev pub ◌>>=◌ : {A B : Type 0} → Run A → (A → Run B) → Run B
m >>= f = λ t. elim (m t).0 [ err e ↦ (err e, (m t).1) | ok a ↦ f a (m t).1 ]

unfoldable pub ui_target : MessageNode → Result NodeUiTarget
ui_target n = elim n.status_message_id [
  | none ↦ err value_error
  | some s ↦ ok (record { scope = n.scope; node_id = n.node_id; status_message_id = s })
]

-- `self._graph.get_node`, if the node is pending
unfoldable pub pending_node : String → MessageTreeGraph → Option MessageNode
unfolding get_node
pending_node k g = elim (get_node k g) [
  | none ↦ none
  | some n ↦ if is_pending n.state then some n else none
]

unfoldable pub add_entries :
    MessageTreeGraph → List String → List QueueEntry → Result (List QueueEntry)
add_entries g [] entries = ok entries
add_entries g (k ∷ ks) entries = elim (pending_node k g) [
  | none ↦ add_entries g ks entries
  | some n ↦ elim (ui_target n) [
    | err e ↦ err e
    | ok target ↦
        add_entries g ks (entries ++ record { node = target; position = length entries + 1 } ∷ [])
  ]
]

unfoldable pub queue_entries : MessageTree → Result (List QueueEntry)
queue_entries t = add_entries t.graph t.queue.deque []

-- The node's object changes under its key. `claim_id` is the `uuid4` of the call.
unfoldable pub claim : String → String → MessageNode → Run NodeClaim
unfolding ui_target
claim claim_id k n t =
    let g = update_node k (update_state in_progress none) t.graph in
    elim (ui_target n) [
      | err e ↦ (err e, record t { graph = g })
      | ok target ↦
          let c : NodeClaim = record {
            identity = g.identity;
            claim_id = claim_id;
            node = target;
            prompt = n.prompt;
            parent_session_id = get_parent_session_id n.node_id g;
          } in
          (
            ok c,
            record t {
              graph = g;
              active = some (record { claim = c; cancellation_requested = false });
            },
          )
    ]

abbrev pub duplicate_decision : QueueDecision
duplicate_decision = record {
  claim = none;
  position = none;
  snapshot = none;
  rejection = some duplicate;
}

abbrev pub claim_decision : NodeClaim → MessageTree → QueueDecision
claim_decision c t = record {
  claim = some c;
  position = none;
  snapshot = some (snapshot t.graph);
  rejection = none;
}

-- The decisions to claim and to queue a node
unfoldable pub claim_now : String → String → MessageNode → Run QueueDecision
unfolding claim
claim_now claim_id k n = claim claim_id k n >>= λ c t. (ok (claim_decision c t), t)

unfoldable pub queue_up : String → Run QueueDecision
queue_up k t =
    if (put k t.queue).0
    then (
      ok (record {
        claim = none;
        position = some (qsize (put k t.queue).1);
        snapshot = some (snapshot t.graph);
        rejection = none;
      }),
      record t { queue = (put k t.queue).1 },
    )
    else (ok duplicate_decision, record t { queue = (put k t.queue).1 })

unfoldable pub enqueue_or_claim : String → String → Run QueueDecision
unfolding pending_node claim_now queue_up
enqueue_or_claim claim_id k t = elim (pending_node k t.graph) [
  | none ↦ (ok duplicate_decision, t)
  | some n ↦ elim t.active [ none ↦ claim_now claim_id k n t | some a ↦ queue_up k t ]
]

unfoldable pub add_and_enqueue : String → Reply → Run QueueDecision
unfolding enqueue_or_claim
add_and_enqueue claim_id r t = elim (add_node r t.graph) [
  | err e ↦ (err e, t)
  | ok g ↦ enqueue_or_claim claim_id r.node_id (record t { graph = g })
]

-- The loop `while node_id := self._queue.pop()`, which an empty id ends too.
unfoldable pub claim_next : ℕ → String → Run (Option NodeClaim)
unfolding pending_node claim
claim_next zero claim_id t = (err out_of_fuel, t)
claim_next (suc fuel) claim_id t =
    let t' = record t { queue = (pop t.queue).1 } in
    elim (pop t.queue).0 [
      | none ↦ (ok none, t')
      | some k ↦ if str_eq k "" then (ok none, t') else elim (pending_node k t.graph) [
        | none ↦ claim_next fuel claim_id t'
        | some n ↦ (claim claim_id k n >>= λ c t''. (ok (some c), t'')) t'
      ]
    ]

-- Is the id the one of the active claim?
unfoldable pub holds : String → MessageTree → Bool
holds claim_id t = elim t.active [ none ↦ false | some a ↦ str_eq a.claim.claim_id claim_id ]

abbrev pub completed_with : Option NodeClaim → MessageTree → Result CompletionResult
completed_with next t = elim (queue_entries t) [
  | err e ↦ err e
  | ok entries ↦ ok (record { next_claim = next; queue = entries })
]

-- `next_id` is the `uuid4` of the claim that follows.
unfoldable pub finish_and_claim_next : String → String → Run CompletionResult
unfolding holds claim_next
finish_and_claim_next next_id claim_id t =
    if holds claim_id t
    then (claim_next (suc (qsize t.queue)) next_id >>= λ next t'. (completed_with next t', t'))
        (record t { active = none })
    else (completed_with none t, t)

unfoldable pub resolve_reply : String → MessageTree → Option ReplyTarget
resolve_reply r t = elim (resolve_reference r t.graph) [
  | none ↦ none
  | some (n, kind) ↦ some (record {
    node_id = n.node_id;
    reference_id = r;
    reference_kind = kind;
    queue_position = if is_some t.active then some (qsize t.queue + 1) else none;
  })
]

unfoldable pub node_view : String → MessageTree → Option NodeView
node_view k t = elim (get_node k t.graph) [
  | none ↦ none
  | some n ↦ some (record {
    identity = t.graph.identity;
    node_id = n.node_id;
    state = n.state;
    parent_id = n.parent_id;
    session_id = n.session_id;
  })
]

-- The ids of the prompts and the status messages, if the tree is in that chat.
unfoldable pub message_ids_for_chat : MessageScope → MessageTree → List String
message_ids_for_chat scope t =
    if scope_eq t.graph.identity.scope scope then all_reference_ids t.graph else []
