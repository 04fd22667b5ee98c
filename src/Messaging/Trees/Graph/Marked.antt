-- ===== src/Messaging/Trees/Graph/Marked.antt =====
-- The failure of a node of trees/graph.py does not change who its descendants are.
use mathlib.Core.Path.{fun_ext}
use free_claude_code_my_pr_i.Messaging.Trees.Node.{update_state, MessageNode, mark_error}
use free_claude_code_my_pr_i.Prelude.Dict.{get-modify, Dict}
use free_claude_code_my_pr_i.Messaging.Trees.Graph.{
  children_of, MessageTreeGraph, visit, update_node, sum_rounds, get_descendants, rounds,
}
use free_claude_code_my_pr_i.Prelude.Dict
use free_claude_code_my_pr_i.Prelude.{
  ℕ, suc, String, ◌≡◌, refl, sym, ap, ◌∙◌, Bool, true, false, Option, none, some, List, [], ◌∷◌,
  arith, str_eq, if◌then◌else◌, is_some,
}

abbrev children_in : Option MessageNode → List String
children_in none = []
children_in (some n) = n.children_ids

children_of-lookup :
    (j : String) (d : Dict MessageNode) → children_of j d ≡ children_in (Dict.get j d)
unfolding children_of
children_of-lookup j d = ground arith

children_in-mark :
    (b : Bool) (o : Option MessageNode)
    → children_in (if b then Dict.map_option mark_error o else o) ≡ children_in o
unfolding mark_error update_state
children_in-mark true none = refl
children_in-mark true (some n) = refl
children_in-mark false o = refl

module _ (k : String) (d : Dict MessageNode) where
  children_of-modify : (j : String) → children_of j (Dict.modify k mark_error d) ≡ children_of j d
  children_of-modify j =
      children_of-lookup j (Dict.modify k mark_error d)
      ∙ (ap children_in (get-modify k j mark_error d)
          ∙ (children_in-mark (str_eq k j) (Dict.get j d) ∙ sym (children_of-lookup j d)))

sum_rounds-cong :
    (f g : String → ℕ) (ks : List String)
    → ((j : String) → f j ≡ g j)
    → sum_rounds f ks ≡ sum_rounds g ks
sum_rounds-cong f g [] h = refl
sum_rounds-cong f g (j ∷ ks) h = omega (arith, h j, sum_rounds-cong f g ks h)

rounds-modify :
    (k j : String) (d : Dict MessageNode) → rounds j (Dict.modify k mark_error d) ≡ rounds j d
unfolding rounds Dict.modify mark_error update_state
rounds-modify k j [] = refl
rounds-modify k j ((i, n) ∷ d) =
    by_key (str_eq i k)
      (sum_rounds-cong (λ c. rounds c (Dict.modify k mark_error d)) (λ c. rounds c d) n.children_ids
        (λ c. rounds-modify k c d))
      (rounds-modify k j d)
  where
    by_key :
        (b : Bool)
        → sum_rounds (λ c. rounds c (Dict.modify k mark_error d)) n.children_ids
          ≡ sum_rounds (λ c. rounds c d) n.children_ids
        → rounds j (Dict.modify k mark_error d) ≡ rounds j d
        → (if str_eq i j
            then suc (
                sum_rounds
                  (λ c. rounds c (Dict.modify k mark_error d))
                  (if b then mark_error n else n).children_ids)
            else rounds j (Dict.modify k mark_error d))
          ≡ (if str_eq i j then suc (sum_rounds (λ c. rounds c d) n.children_ids) else rounds j d)
    by_key true e f = ground (arith, e, f)
    by_key false e f = ground (arith, e, f)

has_mark :
    (b : Bool) (o o' : Option MessageNode)
    → o' ≡ (if b then Dict.map_option mark_error o else o)
    → is_some o' ≡ is_some o
has_mark true none o' e = ap is_some e
has_mark true (some n) o' e = ap is_some e
has_mark false o o' e = ap is_some e

-- The failure of a node does not change who its descendants are.
pub get_descendants-mark :
    (k j : String) (g : MessageTreeGraph)
    → get_descendants j (update_node k mark_error g) ≡ get_descendants j g
unfolding get_descendants update_node
get_descendants-mark k j g =
    ap
      (λ b.
        if b
        then visit (rounds j (Dict.modify k mark_error g.nodes))
            (λ i. children_of i (Dict.modify k mark_error g.nodes)) (j ∷ []) []
        else some [])
      (has_mark (str_eq k j) (Dict.get j g.nodes) (Dict.get j (Dict.modify k mark_error g.nodes))
        (get-modify k j mark_error g.nodes))
    ∙ (ap
          (λ n.
            if Dict.has j g.nodes
            then visit n (λ i. children_of i (Dict.modify k mark_error g.nodes)) (j ∷ []) []
            else some [])
          (rounds-modify k j g.nodes)
        ∙ ap
            (λ (children : String → List String).
              if Dict.has j g.nodes then visit (rounds j g.nodes) children (j ∷ []) [] else some [])
            (fun_ext (children_of-modify k g.nodes)))
