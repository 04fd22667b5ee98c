-- ===== src/Messaging/Trees/Graph/Replies.antt =====
-- The walk of `get_reference_descendants` in trees/graph.py ends.
use free_claude_code_my_pr_i.Prelude.Dict
use free_claude_code_my_pr_i.Messaging.Trees.Graph.Traversal.{visit_closes, sum_rounds-append}
use free_claude_code_my_pr_i.Messaging.Trees.Graph.{
  resolve_reference, MessageTreeGraph, sum_rounds, is_text,
}
use free_claude_code_my_pr_i.Messaging.Trees.Node.{MessageNode}
use free_claude_code_my_pr_i.Messaging.Trees.Graph.References.{
  status_list, get_reference_descendants, replies_at, reference_rounds, reference_children,
}
use free_claude_code_my_pr_i.Prelude.Dict.{elem-append, Dict, elem}
use free_claude_code_my_pr_i.Prelude.{
  ℕ, suc, ◌+◌, String, ◌≡◌, refl, sym, subst, ◌∙◌, inl, inr, Bool, true, false, ◌||◌, some, List,
  [], ◌∷◌, arith, str_eq, eq_iff, if◌then◌else◌, Bool-cases, Option-cases, is_some, All, All-append,
  All-map, by_test, by_option,
}

-- Is the text the id, or the reference that is replied to?
abbrev pub is_source : MessageNode → String → Bool
is_source n s = str_eq n.node_id s || is_text n.parent_reference_id s

-- A node is neither named nor shown by what an earlier one is or replies to.
abbrev pub IsLater : MessageNode → MessageNode → Type 0
IsLater n m =
    (is_source n m.node_id ≡ false)
    × ((s : String) → m.status_message_id ≡ some s → is_source n s ≡ false)

-- Replies stand after what they reply to: no message of a node is one that an earlier node is or
-- replies to, and no node replies to itself or shows its status in its own prompt.
abbrev pub IsReplyOrdered : Dict MessageNode → Type 0
IsReplyOrdered [] = Unit
IsReplyOrdered ((k, n) ∷ d) =
    (is_text n.parent_reference_id n.node_id ≡ false)
    × ((s : String) → n.status_message_id ≡ some s → is_source n s ≡ false)
    × All (λ (e : String × MessageNode). IsLater n e.1) d
    × IsReplyOrdered d

reference_rounds-skip :
    (k c : String) (n : MessageNode) (d : Dict MessageNode)
    → is_source n c ≡ false
    → reference_rounds c ((k, n) ∷ d) ≡ reference_rounds c d
unfolding reference_rounds
reference_rounds-skip k c n d h = ground arith

status_list-All :
    (P : String → Type 0) (m : MessageNode)
    → ((s : String) → m.status_message_id ≡ some s → P s)
    → All P (status_list m)
status_list-All P m shown =
    by_option (All P) m.status_message_id _ _ (λ _. tt) (λ s e. (shown s e, tt))

replies_at-All :
    (P : String → Type 0) (key : String) (m : MessageNode)
    → P m.node_id
    → ((s : String) → m.status_message_id ≡ some s → P s)
    → All P (replies_at key m)
replies_at-All P key m named shown =
    All-append P _ _
      (by_test (All P) (str_eq m.node_id key) _ _ (λ _. status_list-All P m shown) (λ _. tt))
      (by_test (All P) (is_text m.parent_reference_id key) _ _ (λ _. (named, tt)) (λ _. tt))

-- No later node's messages are sources of the first.
children_later :
    (n : MessageNode) (key : String) (d : Dict MessageNode)
    → All (λ (e : String × MessageNode). IsLater n e.1) d
    → All (λ c. is_source n c ≡ false) (reference_children key d)
unfolding reference_children
children_later n key [] all = tt
children_later n key ((k, m) ∷ d) all =
    All-append (λ c. is_source n c ≡ false) (replies_at key m) (reference_children key d)
      (replies_at-All (λ c. is_source n c ≡ false) key m all.0.0 all.0.1)
      (children_later n key d all.1)

sum_rounds-All :
    (f g : String → ℕ) (ks : List String)
    → All (λ c. f c ≡ g c) ks
    → sum_rounds f ks ≡ sum_rounds g ks
sum_rounds-All f g [] all = refl
sum_rounds-All f g (k ∷ ks) all = omega (arith, all.0, sum_rounds-All f g ks all.1)

-- The rounds that the first node adds are those of what it adds to the children.
module _ (k key : String) (n : MessageNode) (d : Dict MessageNode)
    (apart : is_text n.parent_reference_id n.node_id ≡ false)
    (shown : (s : String) → n.status_message_id ≡ some s → is_source n s ≡ false) where
  abbrev added : List String → ℕ
  added = sum_rounds (λ c. reference_rounds c ((k, n) ∷ d))

  status_added : added (status_list n) ≡ sum_rounds (λ s. reference_rounds s d) (status_list n)
  status_added =
      sum_rounds-All (λ c. reference_rounds c ((k, n) ∷ d)) (λ s. reference_rounds s d)
        (status_list n) (status_list-All _ n (λ s e. reference_rounds-skip k s n d (shown s e)))

  rounds_of_own :
      reference_rounds n.node_id ((k, n) ∷ d)
      ≡ reference_rounds n.node_id d + sum_rounds (λ s. reference_rounds s d) (status_list n)
  unfolding reference_rounds
  rounds_of_own = ground (arith, eq_iff n.node_id n.node_id)

  first_pays : reference_rounds key ((k, n) ∷ d) ≡ reference_rounds key d + added (replies_at key n)
  unfolding reference_rounds
  first_pays =
      let parts =
        sum_rounds-append (λ c. reference_rounds c ((k, n) ∷ d))
          (if str_eq n.node_id key then status_list n else [])
          (if is_text n.parent_reference_id key then n.node_id ∷ [] else []) in
      elim (Bool-cases (str_eq n.node_id key)) [
        | inl own ↦ ground (arith, status_added, parts, (eq_iff n.node_id key).0 own)
        | inr other ↦ ground (arith, rounds_of_own, parts)
      ]

references_pay :
    (d : Dict MessageNode) (key : String)
    → IsReplyOrdered d
    → reference_rounds key d
      ≡ suc (sum_rounds (λ c. reference_rounds c d) (reference_children key d))
unfolding reference_children
references_pay [] key o = unfold reference_rounds in refl
references_pay ((k, n) ∷ d) key o = omega (
  arith,
  first_pays k key n d o.0 o.1,
  sum_rounds-append (λ c. reference_rounds c ((k, n) ∷ d)) (replies_at key n)
      (reference_children key d),
  sum_rounds-All (λ c. reference_rounds c ((k, n) ∷ d)) (λ c. reference_rounds c d)
      (reference_children key d)
      (All-map _ _ (reference_children key d) (λ c h. reference_rounds-skip k c n d h)
        (children_later n key d o.2)),
  references_pay d key o.3,
)

-- What a node adds to the children of a reference is among them.
replies_at-listed :
    (k key c : String) (n : MessageNode) (d : Dict MessageNode)
    → Dict.get k d ≡ some n
    → elem c (replies_at key n) ≡ true
    → elem c (reference_children key d) ≡ true
unfolding reference_children Dict.get
replies_at-listed k key c n [] there h = absurd (cc there)
replies_at-listed k key c n ((j, m) ∷ d) there h =
    rw (elem-append c (replies_at key m) (reference_children key d))
      (elim (Bool-cases (str_eq j k)) [
        | inl here ↦
            let same : m ≡ n = ground arith in
            let first : elem c (replies_at key m) ≡ true =
              subst (λ i. elem c (replies_at key i) ≡ true) (sym same) h in
            rw first refl
        | inr later ↦
            let rest = replies_at-listed k key c n d (ground arith) h in
            elim (Bool-cases (elem c (replies_at key m))) [
              | inl yes_ ↦ rw yes_ refl
              | inr no_ ↦ rw no_ rest
            ]
      ])

reply-listed :
    (k x : String) (n : MessageNode) (d : Dict MessageNode)
    → Dict.get k d ≡ some n
    → n.parent_reference_id ≡ some x
    → elem n.node_id (reference_children x d) ≡ true
unfolding elem
reply-listed k x n d there reply = replies_at-listed k x n.node_id n d there (
    elem-append n.node_id (if str_eq n.node_id x then status_list n else [])
      (if is_text n.parent_reference_id x then n.node_id ∷ [] else [])
    ∙ rw reply (ground (arith, eq_iff x x, eq_iff n.node_id n.node_id)))

status-listed :
    (k x s : String) (n : MessageNode) (d : Dict MessageNode)
    → Dict.get k d ≡ some n
    → n.node_id ≡ x
    → n.status_message_id ≡ some s
    → elem s (reference_children x d) ≡ true
unfolding elem
status-listed k x s n d there own shown = replies_at-listed k x s n d there (
    elem-append s (if str_eq n.node_id x then status_list n else [])
      (if is_text n.parent_reference_id x then n.node_id ∷ [] else [])
    ∙ rw shown (ground (arith, (eq_iff n.node_id x).1 own, eq_iff s s)))

-- In a graph in which replies stand after what they reply to, `get_reference_descendants` of a known
-- reference ends, and what it returns has the reference itself and, with every message, the nodes of
-- the graph that reply to it and, if it is the prompt of a node, the status message of that node.
pub get_reference_descendants_total :
    (g : MessageTreeGraph) (r : String)
    → IsReplyOrdered g.nodes
    → is_some (resolve_reference r g) ≡ true
    → (result : List String) × (get_reference_descendants r g ≡ some result)
      × (elem r result ≡ true)
      × ((x k : String) (n : MessageNode)
          → elem x result ≡ true
          → Dict.get k g.nodes ≡ some n
          → (n.parent_reference_id ≡ some x → elem n.node_id result ≡ true)
            × ((s : String) → n.node_id ≡ x → n.status_message_id ≡ some s → elem s result ≡ true))
unfolding get_reference_descendants
get_reference_descendants_total g r o known =
    let (result, e, has_it, closed) =
      visit_closes (λ k. reference_children k g.nodes) (λ k. reference_rounds k g.nodes)
        (λ k. references_pay g.nodes k o) r in
    (
      result,
      elim (Option-cases (resolve_reference r g)) [
        | inl unknown ↦ absurd (ground arith)
        | inr (owner, found) ↦ rw (found, get_reference_descendants) e
      ],
      has_it,
      λ x k n listed there. (
        λ reply. closed x n.node_id listed (reply-listed k x n g.nodes there reply),
        λ s own shown. closed x s listed (status-listed k x s n g.nodes there own shown),
      ),
    )
