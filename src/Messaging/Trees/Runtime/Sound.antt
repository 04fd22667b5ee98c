-- ===== src/Messaging/Trees/Runtime/Sound.antt =====
-- The invariant of `MessageTree` in trees/runtime.py, and the operations that admit nodes and hand
-- the claim on.
use free_claude_code_my_pr_i.Messaging.Trees.Queue.{MessageNodeQueue, put}
use free_claude_code_my_pr_i.Messaging.Trees.Queue.Fifo.{queue-ActsAsFifo, IsIndexed}
use free_claude_code_my_pr_i.Messaging.Trees.Runtime.Tree.{update_state-IsTree, IsTree}
use free_claude_code_my_pr_i.Prelude.Dict.{elem-append, Dict}
use free_claude_code_my_pr_i.Messaging.Trees.Graph.{update_node, get_node, MessageTreeGraph}
use free_claude_code_my_pr_i.Messaging.Trees.Node.{
  update_state, NodeClaim, in_progress, QueueEntry, is_pending, ok, NodeUiTarget, Result,
  MessageNode,
}
use free_claude_code_my_pr_i.Messaging.Trees.Runtime.{
  claim_decision, claim_now, ActiveClaim, queue_up, ◌>>=◌, duplicate_decision, enqueue_or_claim,
  MessageTree, Run, claim, pending_node, queue_entries, ui_target, add_entries,
}
use free_claude_code_my_pr_i.Prelude.Dict
use free_claude_code_my_pr_i.Prelude.{
  ◌+◌, String, ◌≡◌, refl, inl, inr, true, false, none, some, List, [], ◌∷◌, ◌++◌, arith, str_eq,
  eq_iff, Bool-cases, Option-cases, is_some, length,
}

-- The part of the invariant that holds while the claim is handed on, too
pub record IsSteady (t : MessageTree) : Type 0 where
  pub tree : IsTree t.graph.nodes
  pub indexed : IsIndexed t.queue
  pub nonempty : Dict.elem "" t.queue.deque ≡ false

-- The nodes are a tree, the queue's set agrees with its deque, and nobody waits while no node is
-- claimed.
pub record IsSound (t : MessageTree) : Type 0 where
  pub steady : IsSteady t
  pub idle : t.active ≡ none → t.queue.deque ≡ []

-- An operation that returns and leaves a sound tree
pub record Succeeds {A : Type 0} (m : Result A × MessageTree) : Type 0 where
  pub returned : (a : A) × (m.0 ≡ ok a)
  pub sound : IsSound m.1

pub Succeeds->>= :
    {A B : Type 0} (m : Run A) (f : A → Run B) (t : MessageTree)
    → Succeeds (m t)
    → ((a : A) (t' : MessageTree) → IsSound t' → Succeeds (f a t'))
    → Succeeds ((m >>= f) t)
Succeeds->>= m f t s next = let (a, e) = s.returned in rw (e, ◌>>=◌) (next a (m t).1 s.sound)

pub ui_target_returns :
    (n : MessageNode)
    → is_some n.status_message_id ≡ true
    → (target : NodeUiTarget) × (ui_target n ≡ ok target)
unfolding ui_target
ui_target_returns n h = elim (Option-cases n.status_message_id) [
  | inl none_ ↦ absurd (ground arith)
  | inr (s, e) ↦
      (record { scope = n.scope; node_id = n.node_id; status_message_id = s }, ground arith)
]

-- What is known of a node that is found pending
pub record Waiting (k : String) (n : MessageNode) (d : Dict MessageNode) : Type 0 where
  pub there : Dict.get k d ≡ some n
  pub state : is_pending n.state ≡ true
  pub shown : is_some n.status_message_id ≡ true

pub pending-Waiting :
    (k : String) (n : MessageNode) (g : MessageTreeGraph)
    → IsTree g.nodes
    → pending_node k g ≡ some n
    → Waiting k n g.nodes
unfolding pending_node get_node
pending-Waiting k n g i e = record {
  there = found;
  state = is_waiting;
  shown = i.visible k n found (ground arith);
}
  where
    found : Dict.get k g.nodes ≡ some n
    found = ground arith

    is_waiting : is_pending n.state ≡ true
    is_waiting = ground (arith, found)

add_entries_return :
    (g : MessageTreeGraph) (ks : List String) (entries : List QueueEntry)
    → IsTree g.nodes
    → (all : List QueueEntry) × (add_entries g ks entries ≡ ok all)
unfolding add_entries
add_entries_return g [] entries i = (entries, refl)
add_entries_return g (k ∷ ks) entries i = elim (Option-cases (pending_node k g)) [
  | inl none_ ↦ rw (none_, add_entries) (add_entries_return g ks entries i)
  | inr (n, e) ↦
      let (target, e') = ui_target_returns n (pending-Waiting k n g i e).shown in
      rw (e, add_entries)
        (rw e' (
          add_entries_return g ks
            (entries ++ record { node = target; position = length entries + 1 } ∷ []) i))
]

pub queue_entries_return :
    (t : MessageTree) → IsTree t.graph.nodes → (all : List QueueEntry) × (queue_entries t ≡ ok all)
unfolding queue_entries
queue_entries_return t i = add_entries_return t.graph t.queue.deque [] i

pub pending-nonempty :
    (k : String) (n : MessageNode) (g : MessageTreeGraph)
    → IsTree g.nodes
    → pending_node k g ≡ some n
    → str_eq k "" ≡ false
pending-nonempty k n g i e = ground (arith, i.named, (pending-Waiting k n g i e).there, eq_iff k "")

-- What a claim does when it is made
pub record Claims (claim_id k : String) (t : MessageTree) (c : NodeClaim) (t' : MessageTree)
    : Type 0 where
  pub id : c.claim_id ≡ claim_id
  pub node : str_eq c.node.node_id k ≡ true
  pub active : t'.active ≡ some (record { claim = c; cancellation_requested = false })
  pub queue : t'.queue ≡ t.queue
  pub graph : t'.graph ≡ update_node k (update_state in_progress none) t.graph

pub claim_lem :
    (claim_id k : String) (n : MessageNode) (t : MessageTree)
    → IsSteady t
    → pending_node k t.graph ≡ some n
    → (c : NodeClaim) × ((claim claim_id k n t).0 ≡ ok c)
      × Claims claim_id k t c (claim claim_id k n t).1
unfolding claim ui_target
claim_lem claim_id k n t s e =
    let w = pending-Waiting k n t.graph s.tree e in
    elim (Option-cases n.status_message_id) [
      | inl none_ ↦ absurd (ground (arith, w.shown))
      | inr (status, shown) ↦
          rw (shown, claim, ui_target)
            (
              _,
              refl,
              record {
                id = refl;
                node = s.tree.keyed k n w.there;
                active = refl;
                queue = refl;
                graph = refl;
              },
            )
    ]

-- A claim of a pending node makes the tree sound.
pub Claims-IsSound :
    (claim_id k : String) (n : MessageNode) (t : MessageTree) (c : NodeClaim) (t' : MessageTree)
    → IsSteady t
    → pending_node k t.graph ≡ some n
    → Claims claim_id k t c t'
    → IsSound t'
unfolding update_node
Claims-IsSound claim_id k n t c t' s e made = record {
  steady = record {
    tree = rw made.graph (
        update_state-IsTree k in_progress none t.graph.nodes s.tree (λ m there run. shown m there));
    indexed = rw made.queue s.indexed;
    nonempty = rw made.queue s.nonempty;
  };
  idle = λ free. absurd (claimed free);
}
  where
    shown :
        (m : MessageNode) → Dict.get k t.graph.nodes ≡ some m → is_some m.status_message_id ≡ true
    shown m there = let w = pending-Waiting k n t.graph s.tree e in ground (arith, w.there, w.shown)

    claimed : t'.active ≡ none → ⊥
    claimed free = ground (arith, made.active)

claim_now-Succeeds :
    (claim_id k : String) (n : MessageNode) (t : MessageTree)
    → IsSteady t
    → pending_node k t.graph ≡ some n
    → Succeeds (claim_now claim_id k n t)
unfolding claim_now
claim_now-Succeeds claim_id k n t s e =
    let (c, returned, made) = claim_lem claim_id k n t s e in
    Succeeds->>= (claim claim_id k n) (λ c' t'. (ok (claim_decision c' t'), t')) t
      (record { returned = (c, returned); sound = Claims-IsSound claim_id k n t c _ s e made })
      (λ c' t' s'. record { returned = (claim_decision c' t', refl); sound = s' })

put-nonempty :
    (k : String) (q : MessageNodeQueue)
    → str_eq k "" ≡ false
    → IsIndexed q
    → Dict.elem "" q.deque ≡ false
    → Dict.elem "" (put k q).1.deque ≡ false
put-nonempty k q named i h = elim (Bool-cases (Dict.elem k q.deque)) [
  | inl old ↦ rw ((queue-ActsAsFifo q k i).put_again old) h
  | inr new ↦
      rw (((queue-ActsAsFifo q k i).put_new new).1)
        (rw (elem-append "" q.deque (k ∷ [])) (unfold Dict.elem in ground arith))
]

queue_up-Succeeds :
    (k : String) (a : ActiveClaim) (t : MessageTree)
    → IsSound t
    → str_eq k "" ≡ false
    → t.active ≡ some a
    → Succeeds (queue_up k t)
unfolding queue_up
queue_up-Succeeds k a t s named busy = elim (Bool-cases (put k t.queue).0) [
  | inl new ↦ rw (new, queue_up) (record { returned = (_, refl); sound = sound })
  | inr old ↦ rw (old, queue_up) (record { returned = (_, refl); sound = sound })
]
  where
    taken : t.active ≡ none → ⊥
    taken free = ground arith

    sound : IsSound (record t { queue = (put k t.queue).1 })
    sound = record {
      steady = record {
        tree = s.steady.tree;
        indexed = (queue-ActsAsFifo t.queue k s.steady.indexed).put_indexed;
        nonempty = put-nonempty k t.queue named s.steady.indexed s.steady.nonempty;
      };
      idle = λ free. absurd (taken free);
    }

pub enqueue_or_claim-Succeeds :
    (claim_id k : String) (t : MessageTree) → IsSound t → Succeeds (enqueue_or_claim claim_id k t)
unfolding enqueue_or_claim
enqueue_or_claim-Succeeds claim_id k t s = elim (Option-cases (pending_node k t.graph)) [
  | inl none_ ↦
      rw (none_, enqueue_or_claim) (record { returned = (duplicate_decision, refl); sound = s })
  | inr (n, e) ↦ elim (Option-cases t.active) [
    | inl free ↦ rw (e, enqueue_or_claim) (rw free (claim_now-Succeeds claim_id k n t s.steady e))
    | inr (a, busy) ↦
        rw (e, enqueue_or_claim)
          (rw busy (queue_up-Succeeds k a t s (pending-nonempty k n t.graph s.steady.tree e) busy))
  ]
]
