-- ===== src/Messaging/Trees/Runtime/Lookup.antt =====
-- What `remove_message_subtree` of trees/runtime.py looks up, and how it puts its result together.
use free_claude_code_my_pr_i.Messaging.Trees.Runtime.Tree.{IsTree}
use free_claude_code_my_pr_i.Messaging.Trees.Runtime.Cancel.{request_cancellation}
use free_claude_code_my_pr_i.Messaging.Trees.Graph.{
  get_if_given, MessageTreeGraph, find_node_by_status_message, resolve_reference,
}
use free_claude_code_my_pr_i.Messaging.Trees.Runtime.Removal.{
  removal, MessageSubtreeRemoval, Halted, claim_among,
}
use free_claude_code_my_pr_i.Messaging.Trees.Node.{
  err, TreeCancellation, Result, prompt_reference, status_reference, ok, MessageReferenceKind,
  QueueEntry, MessageNode, NodeClaim,
}
use free_claude_code_my_pr_i.Messaging.Trees.Runtime.{queue_entries, ActiveClaim, MessageTree}
use mathlib.Core.Option.{some-injective}
use free_claude_code_my_pr_i.Prelude.Dict
use free_claude_code_my_pr_i.Prelude.{
  String, ◌≡◌, refl, sym, subst, inl, inr, Bool, true, false, Option, none, some, List, arith,
  str_eq, eq_iff, if◌then◌else◌, Option-cases, is_some, by_test, by_option,
}

pub told_same :
    (b : Bool) (t : MessageTree)
    → ((if b then request_cancellation t else t).graph ≡ t.graph)
      × ((if b then request_cancellation t else t).queue ≡ t.queue)
told_same true t = (refl, refl)
told_same false t = (refl, refl)

pub claim_among-active :
    (ks : List String) (t : MessageTree) (c : NodeClaim)
    → claim_among ks t ≡ some c
    → (a : ActiveClaim) × (t.active ≡ some a) × (a.claim ≡ c)
unfolding claim_among
claim_among-active ks t c e = elim (Option-cases t.active) [
  | inl free ↦ absurd (ground arith)
  | inr (a, busy) ↦ (a, busy, ground arith)
]

-- What is told of a removal
abbrev pub Reports : List String → Option NodeClaim → Bool → MessageSubtreeRemoval → Type 0
Reports ids active entire r =
    (r.removed_message_ids ≡ ids)
    × (r.removed_entire_tree ≡ entire)
    × (r.cancellation.active_claim ≡ active)

pub removal_returns :
    (ids : List String) (active : Option NodeClaim) (entire : Bool) (h : Halted) (u : MessageTree)
    (entries : List QueueEntry)
    → queue_entries u ≡ ok entries
    → (r : MessageSubtreeRemoval) × (removal ids active entire h u ≡ ok r)
      × Reports ids active entire r
removal_returns ids active entire h u entries e =
    by_test (λ (o : Result TreeCancellation). Packs o) h.queue_changed _ _
      (λ _.
        subst (λ (o : Result (List QueueEntry)). Packs (with_entries o)) (sym e)
          (_, refl, (refl, refl, refl)))
      (λ _. (_, refl, (refl, refl, refl)))
  where
    Packs : Result TreeCancellation → Type 0
    Packs o =
        (r : MessageSubtreeRemoval) × ((elim o as (λ _. Result MessageSubtreeRemoval) [
          | err x ↦ err x
          | ok cancellation ↦ ok (record {
            cancellation = cancellation;
            removed_message_ids = ids;
            removed_entire_tree = entire;
          })
        ])
          ≡ ok r)
        × Reports ids active entire r

    with_entries : Result (List QueueEntry) → Result TreeCancellation
    with_entries o = elim o as (λ _. Result TreeCancellation) [
      | err x ↦ err x
      | ok all ↦
          ok (record { nodes = h.cancelled_nodes; active_claim = active; queue_update = some all })
    ]

node-there :
    (j : String) (n : MessageNode) (g : MessageTreeGraph)
    → IsTree g.nodes
    → Dict.get j g.nodes ≡ some n
    → is_some (Dict.get n.node_id g.nodes) ≡ true
node-there j n g i e = ground (arith, eq_iff n.node_id j, i.keyed j n e)

-- What a resolved reference belongs to is a node of the tree.
pub resolved-there :
    (r : String) (owner : MessageNode) (kind : MessageReferenceKind) (g : MessageTreeGraph)
    → IsTree g.nodes
    → resolve_reference r g ≡ some (owner, kind)
    → is_some (Dict.get owner.node_id g.nodes) ≡ true
unfolding resolve_reference find_node_by_status_message
resolved-there r owner kind g i =
    by_option (λ o. o ≡ some (owner, kind) → IsThere) (Dict.get r g.nodes) _ _
      (λ _.
        by_option (λ o. o ≡ some (owner, kind) → IsThere) (find_node_by_status_message r g) _ _
          (λ _ e. absurd (cc e))
          (λ n found e.
            subst
              (λ (x : MessageNode × MessageReferenceKind).
                is_some (Dict.get x.0.node_id g.nodes) ≡ true)
              (some-injective (n, status_reference) (owner, kind) e) (found_there n found)))
      (λ n there e.
        subst
          (λ (x : MessageNode × MessageReferenceKind).
            is_some (Dict.get x.0.node_id g.nodes) ≡ true)
          (some-injective (n, prompt_reference) (owner, kind) e) (node-there r n g i there))
  where
    IsThere : Type 0
    IsThere = is_some (Dict.get owner.node_id g.nodes) ≡ true

    given_there :
        (n : MessageNode) (o : Option String)
        → get_if_given o g ≡ some n
        → is_some (Dict.get n.node_id g.nodes) ≡ true
    given_there n none = λ e. absurd (cc e)
    given_there n (some k) =
        by_test (λ o. o ≡ some n → is_some (Dict.get n.node_id g.nodes) ≡ true) (str_eq k "") _ _
          (λ _ e. absurd (cc e)) (λ _ e. node-there k n g i e)

    found_there :
        (n : MessageNode)
        → find_node_by_status_message r g ≡ some n
        → is_some (Dict.get n.node_id g.nodes) ≡ true
    found_there n e = given_there n (Dict.get r g.status_to_node) e
