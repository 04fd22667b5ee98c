-- ===== src/Messaging/Trees/Graph/Traversal.antt =====
-- The walk of `get_descendants` in trees/graph.py ends.
use free_claude_code_my_pr_i.Messaging.Trees.Graph.Order.{IsOrdered, IsUnlisted}
use mathlib.Core.List.{reverse-cons}
use free_claude_code_my_pr_i.Messaging.Trees.Node.{MessageNode}
use free_claude_code_my_pr_i.Prelude.{
  ℕ, zero, suc, ◌+◌, ◌≤◌, String, ◌≡◌, refl, ap, ◌⊎◌, inl, inr, true, false, none, some, List, [],
  ◌∷◌, ◌++◌, arith, str_eq, eq_iff, Bool-cases, Option-cases,
}
use free_claude_code_my_pr_i.Prelude.Dict
use free_claude_code_my_pr_i.Prelude.Dict.{elem-append, Dict, elem}
use free_claude_code_my_pr_i.Messaging.Trees.Graph.{
  reverse, MessageTreeGraph, visit, rounds, sum_rounds, get_descendants, children_of,
}

rounds-absent : (k : String) (d : Dict MessageNode) → Dict.get k d ≡ none → rounds k d ≡ 1
unfolding rounds Dict.get
rounds-absent k [] e = refl
rounds-absent k ((j, n) ∷ d) e = ground (arith, rounds-absent k d)

sum_rounds-skip :
    (j : String) (n : MessageNode) (d : Dict MessageNode) (cs : List String)
    → elem j cs ≡ false
    → sum_rounds (λ c. rounds c ((j, n) ∷ d)) cs ≡ sum_rounds (λ c. rounds c d) cs
unfolding rounds elem
sum_rounds-skip j n d [] h = refl
sum_rounds-skip j n d (c ∷ cs) h = ground (arith, sum_rounds-skip j n d cs, eq_iff j c, eq_iff c j)

unlisted_children :
    (j k : String) (n : MessageNode) (d : Dict MessageNode)
    → IsUnlisted j d
    → Dict.get k d ≡ some n
    → elem j n.children_ids ≡ false
unfolding Dict.get
unlisted_children j k n [] u e = cc
unlisted_children j k n ((i, m) ∷ d) u e = ground (arith, u.0, unlisted_children j k n d u.1)

-- A round of the loop is paid for by the rounds of the children.
rounds-children :
    (k : String) (n : MessageNode) (d : Dict MessageNode)
    → IsOrdered d
    → Dict.get k d ≡ some n
    → rounds k d ≡ suc (sum_rounds (λ c. rounds c d) n.children_ids)
unfolding rounds Dict.get
rounds-children k n [] o e = cc
rounds-children k n ((j, m) ∷ d) o e = elim (Bool-cases (str_eq j k)) [
  | inl here ↦
      let same : m ≡ n = ground arith in
      rw (here, rounds)
        (ground (arith, same, sum_rounds-skip j m d n.children_ids (rw same at o.0.0)))
  | inr there ↦
      rw (there, rounds)
        (ground (
          arith,
          rounds-children k n d o.1 (ground arith),
          sum_rounds-skip j m d n.children_ids (unlisted_children j k n d o.0.1 (ground arith)),
        ))
]

pub sum_rounds-append :
    (f : String → ℕ) (xs ys : List String)
    → sum_rounds f (xs ++ ys) ≡ sum_rounds f xs + sum_rounds f ys
sum_rounds-append f [] ys = omega arith
sum_rounds-append f (x ∷ xs) ys = omega (arith, sum_rounds-append f xs ys)

sum_rounds-reverse :
    (f : String → ℕ) (xs : List String) → sum_rounds f (reverse xs) ≡ sum_rounds f xs
sum_rounds-reverse f [] = refl
sum_rounds-reverse f (x ∷ xs) = omega (
  arith,
  ap (sum_rounds f) (reverse-cons x xs),
  sum_rounds-append f (reverse xs) (x ∷ []),
  sum_rounds-reverse f xs,
)

elem-reverse : (x : String) (xs : List String) → elem x (reverse xs) ≡ elem x xs
unfolding elem
elem-reverse x [] = refl
elem-reverse x (y ∷ xs) =
    ground (
      arith,
      ap (elem x) (reverse-cons y xs),
      elem-append x (reverse xs) (y ∷ []),
      elem-reverse x xs,
    )

-- A walk through children whose rounds pay for each other
module _ (children : String → List String) (below : String → ℕ)
    (pays : (k : String) → below k ≡ suc (sum_rounds below (children k))) where
  -- What a round takes off the rounds that are left.
  rounds_left :
      (k : String) (stack : List String)
      → suc (sum_rounds below (reverse (children k) ++ stack)) ≡ below k + sum_rounds below stack
  rounds_left k stack = omega (
    arith,
    pays k,
    sum_rounds-append below (reverse (children k)) stack,
    sum_rounds-reverse below (children k),
  )

  -- What the walk returns: whatever was found or waits on the stack, and the children of all else.
  record Visited (stack found result : List String) : Type 0 where
    keeps : (x : String) → elem x found ≡ true → elem x result ≡ true
    takes : (x : String) → elem x stack ≡ true → elem x result ≡ true
    closed :
        (x c : String)
        → elem x result ≡ true
        → elem c (children x) ≡ true
        → (elem x found ≡ true) ⊎ (elem c result ≡ true)

  child_waits :
      (k x c : String) (stack found : List String)
      → elem x found ≡ false
      → elem x (found ++ k ∷ []) ≡ true
      → elem c (children x) ≡ true
      → elem c (reverse (children k) ++ stack) ≡ true
  unfolding elem
  child_waits k x c stack found new f m =
      let here : k ≡ x = ground (arith, elem-append x found (k ∷ []), eq_iff k x) in
      let listed : elem c (children k) ≡ true = rw here m in
      ground (arith, elem-append c (reverse (children k)) stack, elem-reverse c (children k))

  Visited-step :
      (k : String) (stack found result : List String)
      → Visited (reverse (children k) ++ stack) (found ++ k ∷ []) result
      → Visited (k ∷ stack) found result
  unfolding elem
  Visited-step k stack found result v = record {
    keeps = λ x h. v.keeps x (ground (arith, elem-append x found (k ∷ [])));
    takes = λ x h. elim (Bool-cases (str_eq k x)) [
      | inl here ↦ v.keeps x (ground (arith, elem-append x found (k ∷ [])))
      | inr there ↦ v.takes x (ground (arith, elem-append x (reverse (children k)) stack))
    ];
    closed = λ x c h m. elim (v.closed x c h m) [
      | inr r ↦ inr r
      | inl f ↦ elim (Bool-cases (elem x found)) [
        | inl old ↦ inl old
        | inr new ↦ inr (v.takes c (child_waits k x c stack found new f m))
      ]
    ];
  }

  visit_total :
      (fuel : ℕ) (stack found : List String)
      → sum_rounds below stack ≤ fuel
      → (result : List String) × (visit fuel children stack found ≡ some result)
        × Visited stack found result
  unfolding visit elem
  visit_total zero [] found h =
      (found, refl, record { keeps = λ x m. m; takes = λ x m. cc; closed = λ x c m _. inl m })
  visit_total (suc fuel) [] found h =
      (found, refl, record { keeps = λ x m. m; takes = λ x m. cc; closed = λ x c m _. inl m })
  visit_total zero (k ∷ stack) found h = absurd (omega (arith, pays k))
  visit_total (suc fuel) (k ∷ stack) found h =
      let (result, e, v) =
        visit_total fuel (reverse (children k) ++ stack) (found ++ k ∷ [])
          (omega (arith, rounds_left k stack)) in
      (result, e, Visited-step k stack found result v)

  -- The walk from one key ends, with the key and, for each key, its children.
  pub visit_closes :
      (k : String)
      → (result : List String) × (visit (below k) children (k ∷ []) [] ≡ some result)
        × (elem k result ≡ true)
        × ((x c : String)
            → elem x result ≡ true
            → elem c (children x) ≡ true
            → elem c result ≡ true)
  unfolding elem
  visit_closes k =
      let (result, e, v) = visit_total (below k) (k ∷ []) [] (omega arith) in
      (
        result,
        e,
        v.takes k (ground (arith, eq_iff k k)),
        λ x c m n. ground (arith, v.closed x c m n),
      )

-- What the rounds below a node are, whether it is there or not
rounds_pay :
    (d : Dict MessageNode) (k : String)
    → IsOrdered d
    → rounds k d ≡ suc (sum_rounds (λ c. rounds c d) (children_of k d))
rounds_pay d k o = elim (Option-cases (Dict.get k d)) [
  | inl none_ ↦
      let leaf : children_of k d ≡ [] = unfold children_of in ground arith in
      rw leaf (rounds-absent k d none_)
  | inr (n, e) ↦
      let inner : children_of k d ≡ n.children_ids = unfold children_of in ground arith in
      rw inner (rounds-children k n d o e)
]

-- In a tree in which parents were added before their children, `get_descendants` ends, and what it
-- returns has the node itself and, with every node, all of that node's children.
pub get_descendants_total :
    (g : MessageTreeGraph) (k : String)
    → IsOrdered g.nodes
    → Dict.has k g.nodes ≡ true
    → (result : List String) × (get_descendants k g ≡ some result)
      × (elem k result ≡ true)
      × ((x c : String)
          → elem x result ≡ true
          → elem c (children_of x g.nodes) ≡ true
          → elem c result ≡ true)
unfolding get_descendants
get_descendants_total g k o h =
    let (result, e, has_it, closed) =
      visit_closes (λ j. children_of j g.nodes) (λ j. rounds j g.nodes)
        (λ j. rounds_pay g.nodes j o) k in
    (result, rw h e, has_it, closed)
