-- ===== src/Messaging/Trees/Runtime/Handover.antt =====
-- `finish_and_claim_next` of trees/runtime.py: who gets the claim next.
use free_claude_code_my_pr_i.Messaging.Trees.Queue.{qsize, MessageNodeQueue}
use free_claude_code_my_pr_i.Messaging.Trees.Queue.Fifo.{queue-ActsAsFifo}
use free_claude_code_my_pr_i.Messaging.Trees.Graph.{update_node}
use free_claude_code_my_pr_i.Messaging.Trees.Node.{
  err, CompletionResult, MessageNode, in_progress, update_state, ok, NodeClaim, Result,
}
use free_claude_code_my_pr_i.Messaging.Trees.Runtime.Sound.{
  queue_entries_return, Succeeds, Claims-IsSound, claim_lem, IsSound, IsSteady,
}
use free_claude_code_my_pr_i.Messaging.Trees.Runtime.{
  holds, completed_with, finish_and_claim_next, Run, ◌>>=◌, claim, pending_node, claim_next,
  MessageTree,
}
use free_claude_code_my_pr_i.Prelude.Dict
use free_claude_code_my_pr_i.Messaging.Trees.Queue
use free_claude_code_my_pr_i.Prelude.{
  ℕ, zero, suc, ◌<◌, String, ◌≡◌, refl, sym, ap, ◌∙◌, ◌⊎◌, inl, inr, true, false, Option, none,
  some, List, [], ◌∷◌, ◌++◌, arith, str_eq, Option-cases, is_some, length, All, list_cases,
}

-- No queued node is pending: nobody has the claim now, and the queue is empty.
pub record Nobody (t : MessageTree) (m : Result (Option NodeClaim) × MessageTree) : Type 0 where
  pub none_pending : All (λ k. pending_node k t.graph ≡ none) t.queue.deque
  pub returned : m.0 ≡ ok none
  pub drained : m.1.queue.deque ≡ []
  pub graph : m.1.graph ≡ t.graph
  pub active : m.1.active ≡ t.active

-- The first queued node that is pending has the claim, and the nodes behind it stay queued.
pub record Somebody (claim_id : String) (t : MessageTree)
    (m : Result (Option NodeClaim) × MessageTree) : Type 0 where
  pub skipped : List String
  pub k : String
  pub rest : List String
  pub c : NodeClaim
  pub split : t.queue.deque ≡ skipped ++ k ∷ rest
  pub none_pending : All (λ j. pending_node j t.graph ≡ none) skipped
  pub pending : is_some (pending_node k t.graph) ≡ true
  pub returned : m.0 ≡ ok (some c)
  pub id : c.claim_id ≡ claim_id
  pub node : str_eq c.node.node_id k ≡ true
  pub active : m.1.active ≡ some (record { claim = c; cancellation_requested = false })
  pub left : m.1.queue.deque ≡ rest
  pub graph : m.1.graph ≡ update_node k (update_state in_progress none) t.graph

abbrev pub HandsOver : String → MessageTree → Result (Option NodeClaim) × MessageTree → Type 0
HandsOver claim_id t m = (Nobody t m × IsSteady m.1) ⊎ (Somebody claim_id t m × IsSound m.1)

-- The queue after its first id was taken
abbrev pub popped : MessageTree → MessageTree
popped t = record t { queue = (Queue.pop t.queue).1 }

popped_rest :
    (k : String) (rest : List String) (t : MessageTree)
    → t.queue.deque ≡ k ∷ rest
    → (popped t).queue.deque ≡ rest
unfolding Queue.pop
popped_rest k rest t split = ground arith

module _ (claim_id k : String) (rest : List String) (t : MessageTree)
    (split : t.queue.deque ≡ k ∷ rest) (m : Result (Option NodeClaim) × MessageTree) where
  skip : pending_node k t.graph ≡ none → HandsOver claim_id (popped t) m → HandsOver claim_id t m
  skip none_ (inl (n, s)) = inl (
    record {
      none_pending = rw split (none_, rw (popped_rest k rest t split) at n.none_pending);
      returned = n.returned;
      drained = n.drained;
      graph = n.graph;
      active = n.active;
    },
    s,
  )
  skip none_ (inr (b, s)) = inr (
    record {
      skipped = k ∷ b.skipped;
      k = b.k;
      rest = b.rest;
      c = b.c;
      split = rw split (ap (λ ks. k ∷ ks) (sym (popped_rest k rest t split) ∙ b.split));
      none_pending = (none_, b.none_pending);
      pending = b.pending;
      returned = b.returned;
      id = b.id;
      node = b.node;
      active = b.active;
      left = b.left;
      graph = b.graph;
    },
    s,
  )

popped-nonempty :
    (q : MessageNodeQueue)
    → Dict.elem "" q.deque ≡ false
    → Dict.elem "" (Queue.pop q).1.deque ≡ false
unfolding Queue.pop Dict.elem
popped-nonempty q h = elim (list_cases q.deque) [
  | inl none_ ↦ ground arith
  | inr (k, rest, e) ↦ ground arith
]

queue-nonempty :
    (k : String) (rest : List String) (t : MessageTree)
    → IsSteady t
    → t.queue.deque ≡ k ∷ rest
    → str_eq k "" ≡ false
unfolding Dict.elem
queue-nonempty k rest t s e = ground (arith, s.nonempty)

popped-IsSteady : (t : MessageTree) → IsSteady t → IsSteady (popped t)
popped-IsSteady t s = record {
  tree = s.tree;
  indexed = (queue-ActsAsFifo t.queue "" s.indexed).pop_indexed;
  nonempty = popped-nonempty t.queue s.nonempty;
}

take :
    (claim_id k : String) (rest : List String) (n : MessageNode) (t : MessageTree)
    → IsSteady t
    → t.queue.deque ≡ k ∷ rest
    → pending_node k t.graph ≡ some n
    → let m = (claim claim_id k n >>= λ c t'. (ok (some c), t')) (popped t) in
      Somebody claim_id t m × IsSound m.1
take claim_id k rest n t s split e =
    let (c, returned, made) = claim_lem claim_id k n (popped t) (popped-IsSteady t s) e in
    rw (returned, ◌>>=◌)
      (
        record {
          skipped = [];
          k = k;
          rest = rest;
          c = c;
          split = split;
          none_pending = tt;
          pending = rw e refl;
          returned = refl;
          id = made.id;
          node = made.node;
          active = made.active;
          left = rw made.queue (popped_rest k rest t split);
          graph = made.graph;
        },
        Claims-IsSound claim_id k n (popped t) c _ (popped-IsSteady t s) e made,
      )

claim_next_lem :
    (fuel : ℕ) (claim_id : String) (t : MessageTree)
    → IsSteady t
    → length t.queue.deque < fuel
    → HandsOver claim_id t (claim_next fuel claim_id t)
unfolding claim_next
claim_next_lem zero claim_id t s h = absurd (omega arith)
claim_next_lem (suc fuel) claim_id t s h = elim (list_cases t.queue.deque) [
  | inl none_ ↦
      let gone : (Queue.pop t.queue).0 ≡ none = unfold Queue.pop in ground arith in
      let empty : (popped t).queue.deque ≡ [] = unfold Queue.pop in ground arith in
      rw (gone, claim_next)
        (inl (
          record {
            none_pending = rw none_ tt;
            returned = refl;
            drained = empty;
            graph = refl;
            active = refl;
          },
          popped-IsSteady t s,
        ))
  | inr (k, rest, split) ↦ elim (Option-cases (pending_node k t.graph)) [
    | inl none_ ↦
        let head : (Queue.pop t.queue).0 ≡ some k = unfold Queue.pop in ground arith in
        let short : length (popped t).queue.deque < fuel =
          rw (popped_rest k rest t split) (omega (arith, ap length split)) in
        rw (head, claim_next)
          (rw (queue-nonempty k rest t s split) (
            rw none_ (
              skip claim_id k rest t split _ none_
                (claim_next_lem fuel claim_id (popped t) (popped-IsSteady t s) short))))
    | inr (n, e) ↦
        let head : (Queue.pop t.queue).0 ≡ some k = unfold Queue.pop in ground arith in
        rw (head, claim_next)
          (rw (queue-nonempty k rest t s split) (rw e (inr (take claim_id k rest n t s split e))))
  ]
]

-- The claim without the queue entries that are returned with it
abbrev pub next_of : Result CompletionResult × MessageTree → Result (Option NodeClaim) × MessageTree
next_of (ok r, t) = (ok r.next_claim, t)
next_of (err e, t) = (err e, t)

abbrev pub released : MessageTree → MessageTree
released t = record t { active = none }

abbrev pub completes : Option NodeClaim → Run CompletionResult
completes next t = (completed_with next t, t)

-- Either outcome leaves a sound tree.
HandsOver-IsSound :
    (claim_id : String) (t : MessageTree) (m : Result (Option NodeClaim) × MessageTree)
    → HandsOver claim_id (released t) m
    → IsSound m.1
HandsOver-IsSound claim_id t m (inl (n, s)) = record { steady = s; idle = λ _. n.drained }
HandsOver-IsSound claim_id t m (inr (b, s)) = s

HandsOver-completes :
    (claim_id : String) (t t' : MessageTree) (r : Result (Option NodeClaim))
    → HandsOver claim_id (released t) (r, t')
    → let m = ((λ _. (r, t')) >>= completes) (released t) in
      Succeeds m × HandsOver claim_id (released t) (next_of m)
HandsOver-completes claim_id t t' (err e) (inl (n, s)) = absurd (cc n.returned)
HandsOver-completes claim_id t t' (err e) (inr (b, s)) = absurd (cc b.returned)
HandsOver-completes claim_id t t' (ok next) h =
    let sound = HandsOver-IsSound claim_id t (ok next, t') h in
    let (entries, e) = queue_entries_return t' sound.steady.tree in
    rw (e, completes, completed_with, ◌>>=◌)
      (
        record { returned = (record { next_claim = next; queue = entries }, refl); sound = sound },
        h,
      )

-- In a sound tree, `finish_and_claim_next` with the id of the active claim returns and leaves a sound
-- tree. If a queued node is pending, the first such node has the new claim and is in progress, and
-- exactly the nodes behind it stay queued; if none is, no node is claimed and the queue is empty.
pub finish-HandsOver :
    (next_id claim_id : String) (t : MessageTree)
    → IsSound t
    → holds claim_id t ≡ true
    → Succeeds (finish_and_claim_next next_id claim_id t)
      × HandsOver next_id (released t) (next_of (finish_and_claim_next next_id claim_id t))
unfolding finish_and_claim_next
finish-HandsOver next_id claim_id t s h =
    let steady : IsSteady (released t) = record {
      tree = s.steady.tree;
      indexed = s.steady.indexed;
      nonempty = s.steady.nonempty;
    } in
    rw (h, finish_and_claim_next)
      (HandsOver-completes next_id t _ _ (
        claim_next_lem (suc (qsize t.queue)) next_id (released t) steady
          (unfold qsize in omega arith)))
