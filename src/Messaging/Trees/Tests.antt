-- ===== src/Messaging/Trees/Tests.antt =====
-- Runs of messaging/trees.
use free_claude_code_my_pr_i.Messaging.Trees.Runtime.Failing.{fail_claim-IsSettled, IsSettled}
use free_claude_code_my_pr_i.Prelude.Dict.{distinct, Dict}
use free_claude_code_my_pr_i.Messaging.Trees.Runtime.Handover.{
  finish-HandsOver, next_of, released, HandsOver,
}
use free_claude_code_my_pr_i.Messaging.Trees.Graph.Traversal.{get_descendants_total}
use free_claude_code_my_pr_i.Messaging.Trees.Runtime.Claimed.{
  claimed_node, tail_of, fail_claim, complete_claim, record_session,
}
use free_claude_code_my_pr_i.Messaging.Trees.Graph.Order.{IsOrdered}
use free_claude_code_my_pr_i.Messaging.Trees.Queue.{MessageNodeQueue}
use free_claude_code_my_pr_i.Messaging.Trees.Runtime.Life.{
  finished_claim-IsStale, cancelled_claim_is_silent, stay, cancel, step, Steps-IsSound,
  finished_claim-IsStale, IsStale,
}
use free_claude_code_my_pr_i.Messaging.Trees.Runtime.Cancel.{cancel_all, cancel_node}
use free_claude_code_my_pr_i.Messaging.Trees.Runtime.Tree.{IsTree}
use free_claude_code_my_pr_i.Messaging.Trees.Node.{
  ok, FailureResult, pending, MessageNode, in_progress, MessageScope, MessageState, NodeClaim,
}
use free_claude_code_my_pr_i.Messaging.Trees.Graph.{
  get_node, children_of, get_descendants, MessageTreeGraph,
}
use free_claude_code_my_pr_i.Messaging.Trees.Runtime.{holds, finish_and_claim_next, MessageTree}
use free_claude_code_my_pr_i.Messaging.Trees.Queue.Fifo.{IsIndexed, queue-ActsAsFifo, ActsAsFifo}
use free_claude_code_my_pr_i.Messaging.Trees.Runtime.Sound.{IsSound, Succeeds}
use free_claude_code_my_pr_i.Messaging.Trees.Runtime.Stop.{
  cancel_all_stops, StopsTree, IsActiveShown,
}
use free_claude_code_my_pr_i.Prelude.Dict
use free_claude_code_my_pr_i.Prelude.{
  String, ◌≡◌, refl, sym, subst, inl, inr, Bool, true, false, Option, none, some, List, [], ◌∷◌,
  arith, str_eq, eq_iff, Bool-cases, is_some, All,
}

abbrev two_waiting : MessageNodeQueue
two_waiting = record { deque = "a" ∷ "b" ∷ []; members = "b" ∷ "a" ∷ [] }

member_order : (x : String) → Dict.elem x two_waiting.members ≡ Dict.elem x two_waiting.deque
unfolding Dict.elem
member_order x = ground arith

two_waiting-IsIndexed : IsIndexed two_waiting
unfolding distinct Dict.elem
two_waiting-IsIndexed = record { members = member_order; once = refl }

queue-ActsAsFifo_example : ActsAsFifo two_waiting "b"
queue-ActsAsFifo_example = queue-ActsAsFifo two_waiting "b" two_waiting-IsIndexed

abbrev pub chat : MessageScope
chat = record { platform = "telegram"; chat_id = "7" }

abbrev pub node : String → String → MessageState → Option String → List String → MessageNode
node id status state parent children = record {
  node_id = id;
  scope = chat;
  prompt = "hello";
  status_message_id = some status;
  state = state;
  parent_id = parent;
  parent_reference_id = parent;
  session_id = none;
  children_ids = children;
}

-- A root that runs, and two replies to it that wait
abbrev pub small_graph : MessageTreeGraph
small_graph = record {
  identity = record { scope = chat; root_id = "r" };
  nodes =
      ("r", node "r" "s" in_progress none ("a" ∷ "b" ∷ []))
      ∷ ("a", node "a" "t" pending (some "r") [])
      ∷ ("b", node "b" "u" pending (some "r") [])
      ∷ [];
  status_to_node = ("s", "r") ∷ ("t", "a") ∷ ("u", "b") ∷ [];
}

small_graph-IsOrdered : IsOrdered small_graph.nodes
unfolding Dict.elem
small_graph-IsOrdered = (((refl, (refl, (refl, tt))), (((refl, (refl, tt))), ((refl, tt), tt))))

get_descendants_total_example :
    (result : List String) × (get_descendants "r" small_graph ≡ some result)
    × (Dict.elem "r" result ≡ true)
    × ((x c : String)
        → Dict.elem x result ≡ true
        → Dict.elem c (children_of x small_graph.nodes) ≡ true
        → Dict.elem c result ≡ true)
get_descendants_total_example =
    get_descendants_total small_graph "r" small_graph-IsOrdered (unfold Dict.get in refl)

descendants_run : get_descendants "r" small_graph ≡ some ("r" ∷ "b" ∷ "a" ∷ [])
unfolding get_descendants Dict.get children_of
descendants_run = refl

abbrev IsGood : String × MessageNode → Type 0
IsGood e = (str_eq e.1.node_id e.0 ≡ true) × (is_some e.1.status_message_id ≡ true)

node-IsGood :
    (d : Dict MessageNode) (k : String) (n : MessageNode)
    → All IsGood d
    → Dict.get k d ≡ some n
    → IsGood (k, n)
unfolding Dict.get
node-IsGood [] k n all e = absurd (cc e)
node-IsGood ((j, m) ∷ d) k n all e = elim (Bool-cases (str_eq j k)) [
  | inr there ↦ node-IsGood d k n all.1 (ground arith)
  | inl here ↦
      let same : m ≡ n = ground arith in
      rw (sym same) (subst (λ i. IsGood (i, m)) ((eq_iff j k).0 here) all.0)
]

small_graph-IsGood : All IsGood small_graph.nodes
small_graph-IsGood = ((refl, refl), ((refl, refl), ((refl, refl), tt)))

small_graph-IsTree : IsTree small_graph.nodes
unfolding Dict.get
small_graph-IsTree = record {
  keyed = λ k n e. (node-IsGood small_graph.nodes k n small_graph-IsGood e).0;
  named = refl;
  visible = λ k n e run. (node-IsGood small_graph.nodes k n small_graph-IsGood e).1;
  ordered = small_graph-IsOrdered;
}

abbrev root_claim : NodeClaim
root_claim = record {
  identity = small_graph.identity;
  claim_id = "c1";
  node = record { scope = chat; node_id = "r"; status_message_id = "s" };
  prompt = "hello";
  parent_session_id = none;
}

abbrev pub busy_tree : MessageTree
busy_tree = record {
  graph = small_graph;
  queue = two_waiting;
  active = some (record { claim = root_claim; cancellation_requested = false });
}

pub busy_tree-IsSound : IsSound busy_tree
unfolding Dict.elem
busy_tree-IsSound = record {
  steady = record { tree = small_graph-IsTree; indexed = two_waiting-IsIndexed; nonempty = refl };
  idle = λ free. absurd (cc free);
}

finish-HandsOver_example :
    Succeeds (finish_and_claim_next "c2" "c1" busy_tree)
    × HandsOver "c2" (released busy_tree) (next_of (finish_and_claim_next "c2" "c1" busy_tree))
finish-HandsOver_example =
    finish-HandsOver "c2" "c1" busy_tree busy_tree-IsSound (unfold holds in refl)

pub busy_tree-IsActiveShown : IsActiveShown busy_tree
unfolding Dict.get
busy_tree-IsActiveShown a busy n e failed =
    (node-IsGood small_graph.nodes a.claim.node.node_id n small_graph-IsGood e).1

cancel_all_stops_example : StopsTree busy_tree (cancel_all busy_tree)
cancel_all_stops_example = cancel_all_stops busy_tree busy_tree-IsSound busy_tree-IsActiveShown

abbrev cancelled_tree : MessageTree
cancelled_tree = (cancel_node "r" busy_tree).1

Steps-IsSound_example : IsSound cancelled_tree
Steps-IsSound_example =
    Steps-IsSound busy_tree cancelled_tree
      (step busy_tree cancelled_tree cancelled_tree (cancel "r" busy_tree) (stay cancelled_tree))
      busy_tree-IsSound

finished_claim-IsStale_example : IsStale "c1" (finish_and_claim_next "c2" "c1" busy_tree).1
finished_claim-IsStale_example =
    finished_claim-IsStale "c2" "c1" busy_tree busy_tree-IsSound (unfold holds in refl) refl

cancelled_claim_is_silent_example :
    let u = (cancel_node "r" busy_tree).1 in
    ((session : String) → record_session "c1" session u ≡ (none, u))
    × ((session : Option String) → complete_claim "c1" session u ≡ (none, u))
    × ((propagate : Bool) → (fail_claim "c1" propagate u).1 ≡ u)
cancelled_claim_is_silent_example =
    cancelled_claim_is_silent "r" (record { claim = root_claim; cancellation_requested = false })
      busy_tree refl refl "c1"

fail_claim-IsSettled_example :
    (r : FailureResult) × ((fail_claim "c1" true busy_tree).0 ≡ ok r)
    × (ks : List String) × (get_descendants "r" busy_tree.graph ≡ some ks)
    × ((j : String)
        → Dict.elem j (tail_of ks) ≡ true
        → IsSettled (fail_claim "c1" true busy_tree).1 j)
fail_claim-IsSettled_example =
    fail_claim-IsSettled "c1" "r" (node "r" "s" in_progress none ("a" ∷ "b" ∷ [])) busy_tree
      busy_tree-IsSound (unfold claimed_node get_node Dict.get in refl) refl
