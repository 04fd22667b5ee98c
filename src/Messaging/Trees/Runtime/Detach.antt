-- ===== src/Messaging/Trees/Runtime/Detach.antt =====
-- `remove_message_subtree` of trees/runtime.py keeps the invariant, also when it raises.
use free_claude_code_my_pr_i.Messaging.Trees.Graph.References.{get_reference_descendants}
use free_claude_code_my_pr_i.Messaging.Trees.Runtime.Steps.{
  mark_node-IsSound, remove-IsSound, request_cancellation-IsSound,
}
use free_claude_code_my_pr_i.Messaging.Trees.Runtime.Cancel.{without_queued, request_cancellation}
use free_claude_code_my_pr_i.Messaging.Trees.Runtime.Removal.{
  known_nodes, affected_nodes, remove_affected, claim_among, remove_replies, halt_affected,
  is_status, claims, MessageSubtreeRemoval, Halted, halt_one, remove_message_subtree, detach,
  halt_found, halt_each,
}
use free_claude_code_my_pr_i.Messaging.Trees.Graph.Order.{remove_node-IsOrdered}
use free_claude_code_my_pr_i.Messaging.Trees.Runtime.Sound.{IsSound}
use free_claude_code_my_pr_i.Messaging.Trees.Runtime.Tree.{modify-IsTree, modified, IsTree}
use free_claude_code_my_pr_i.Messaging.Trees.Node.{
  update_state, ok, err, mark_error, MessageReferenceKind, clear_status, TreeError, is_error,
  is_runnable, Result, NodeClaim, MessageNode,
}
use free_claude_code_my_pr_i.Messaging.Trees.Graph.{
  resolve_reference, get_node, drop_child, remove_nodes, clear_status_of, modify_if_some,
  remove_node, MessageTreeGraph,
}
use free_claude_code_my_pr_i.Prelude.{
  String, ◌≡◌, refl, sym, inl, inr, Bool, true, false, ◌&&◌, Option, none, some, List, [], ◌∷◌,
  arith, str_eq, eq_iff, if◌then◌else◌, Option-cases, is_some, by_test, by_option,
}
use free_claude_code_my_pr_i.Messaging.Trees.Runtime.{ui_target, Run, MessageTree, ◌>>=◌}
use free_claude_code_my_pr_i.Prelude.Dict
use free_claude_code_my_pr_i.Prelude.Dict.{Dict, get-pop, get-modify}

pub graph-IsSound :
    (g : MessageTreeGraph) (t : MessageTree)
    → IsTree g.nodes
    → IsSound t
    → IsSound (record t { graph = g })
graph-IsSound g t i s = record {
  steady = record { tree = i; indexed = s.steady.indexed; nonempty = s.steady.nonempty };
  idle = s.idle;
}

-- A change of a node that keeps all of it but its children
pub record Alike (n m : MessageNode) : Type 0 where
  pub same_id : m.node_id ≡ n.node_id
  pub same_state : m.state ≡ n.state
  pub same_status : m.status_message_id ≡ n.status_message_id
  pub same_scope : m.scope ≡ n.scope
  pub same_prompt : m.prompt ≡ n.prompt
  pub same_parent : m.parent_id ≡ n.parent_id
  pub same_reference : m.parent_reference_id ≡ n.parent_reference_id
  pub same_session : m.session_id ≡ n.session_id

-- The node under a key, in the nodes before
abbrev pub Was : String → MessageNode → Dict MessageNode → Type 0
Was j m d = (n : MessageNode) × (Dict.get j d ≡ some n) × Alike n m

pub Alike-refl : (n : MessageNode) → Alike n n
Alike-refl n = record {
  same_id = refl;
  same_state = refl;
  same_status = refl;
  same_scope = refl;
  same_prompt = refl;
  same_parent = refl;
  same_reference = refl;
  same_session = refl;
}

drop_child-Alike : (k : String) (n : MessageNode) → Alike n (drop_child k n)
drop_child-Alike k n = record {
  same_id = refl;
  same_state = refl;
  same_status = refl;
  same_scope = refl;
  same_prompt = refl;
  same_parent = refl;
  same_reference = refl;
  same_session = refl;
}

get-unlinked :
    (p : Option String) (k j : String) (m : MessageNode) (d : Dict MessageNode)
    → Dict.get j (modify_if_some p (drop_child k) d) ≡ some m
    → Was j m d
get-unlinked none k j m d e = (m, e, Alike-refl m)
get-unlinked (some p) k j m d e = elim (modified p (drop_child k) d j m e) [
  | inl old ↦ (m, old, Alike-refl m)
  | inr (n, same, old, new) ↦ (n, rw (sym same) old, rw new (drop_child-Alike k n))
]

-- A node that is left was there before, and is not the one that was removed.
pub get-remove_node :
    (k j : String) (m : MessageNode) (g : MessageTreeGraph)
    → Dict.get j (remove_node k g).nodes ≡ some m
    → (str_eq k j ≡ false) × Was j m g.nodes
get-remove_node k j m g e = elim (Option-cases (Dict.get k g.nodes)) [
  | inl gone ↦
      let same : (remove_node k g).nodes ≡ g.nodes = unfold remove_node in ground arith in
      (ground (arith, eq_iff k j, same), (m, ground (arith, same), Alike-refl m))
  | inr (n, there) ↦
      let taken : (remove_node k g).nodes
          ≡ Dict.pop k (modify_if_some n.parent_id (drop_child k) g.nodes) =
        unfold remove_node in ground arith in
      let left = get-pop k j (modify_if_some n.parent_id (drop_child k) g.nodes) in
      (
        ground (arith, taken, left),
        get-unlinked n.parent_id k j m g.nodes (ground (arith, taken, left)),
      )
]

pub remove_node-IsTree :
    (k : String) (g : MessageTreeGraph) → IsTree g.nodes → IsTree (remove_node k g).nodes
remove_node-IsTree k g i = record {
  keyed = λ j m e.
      let (apart, (n, there, like)) = get-remove_node k j m g e in
      ground (arith, i.keyed j n there, like.same_id);
  named = elim (Option-cases (Dict.get "" (remove_node k g).nodes)) [
    | inl none_ ↦ none_
    | inr (m, e) ↦
        let (apart, (n, there, like)) = get-remove_node k "" m g e in
        absurd (ground (arith, i.named))
  ];
  visible = λ j m e run.
      let (apart, (n, there, like)) = get-remove_node k j m g e in
      let shown = i.visible j n there (ground (arith, like.same_state)) in
      ground (arith, like.same_status);
  ordered = remove_node-IsOrdered k g i.ordered;
}

pub remove_nodes-IsTree :
    (ks : List String) (g : MessageTreeGraph) → IsTree g.nodes → IsTree (remove_nodes ks g).nodes
unfolding remove_nodes
remove_nodes-IsTree [] g i = i
remove_nodes-IsTree (k ∷ ks) g i =
    remove_nodes-IsTree ks (remove_node k g) (remove_node-IsTree k g i)

pub clear_status_of-IsTree :
    (k : String) (g : MessageTreeGraph) → IsTree g.nodes → IsTree (clear_status_of k g).nodes
unfolding clear_status_of clear_status mark_error update_state
clear_status_of-IsTree k g i =
    by_option (λ (h : MessageTreeGraph). IsTree h.nodes) (Dict.get k g.nodes) _ _ (λ _. i)
      (λ n _.
        by_option (λ (h : MessageTreeGraph). IsTree h.nodes) n.status_message_id _ _ (λ _. i)
          (λ _ _.
            modify-IsTree k clear_status g.nodes (λ m. refl) i
              (λ m _. record { same_id = refl; same_children = refl; still_visible = λ run. cc })))

pub detach-IsSound :
    (status : Bool) (owner : String) (removed : List String) (t : MessageTree)
    → IsSound t
    → IsSound (detach status owner removed t)
detach-IsSound false owner removed t s =
    graph-IsSound _ t (remove_nodes-IsTree removed t.graph s.steady.tree) s
detach-IsSound true owner removed t s =
    graph-IsSound _ t
      (remove_nodes-IsTree removed (clear_status_of owner t.graph)
        (clear_status_of-IsTree owner t.graph s.steady.tree))
      s

pub by_result :
    {A B : Type 0} (P : B → Type 0) (r : Result A) (f : TreeError → B) (g : A → B)
    → ((e : TreeError) → P (f e))
    → ((a : A) → P (g a))
    → P (elim r [ err e ↦ f e | ok a ↦ g a ])
by_result P (err e) f g hf hg = hf e
by_result P (ok a) f g hf hg = hg a

halt_found-IsSound :
    (active : Option NodeClaim) (k : String) (n : MessageNode) (h : Halted) (t : MessageTree)
    → IsSound t
    → IsSound (halt_found active k n h t).1
unfolding halt_found
halt_found-IsSound active k n h t s =
    by_test (λ (x : Result Halted × MessageTree). IsSound x.1) (is_runnable n.state) _ _
      (λ _.
        by_result (λ (x : Result Halted × MessageTree). IsSound x.1) (ui_target n) _ _ (λ _. s)
          (λ _. mark_node-IsSound k t s))
      (λ _.
        by_test (λ (x : Result Halted × MessageTree). IsSound x.1)
          (is_error n.state && claims active k) _ _ (λ _. s) (λ _. s))

pub halt_one-IsSound :
    (active : Option NodeClaim) (k : String) (h : Halted) (t : MessageTree)
    → IsSound t
    → IsSound (halt_one active k h t).1
unfolding halt_one
halt_one-IsSound active k h t s =
    by_option (λ (x : Result Halted × MessageTree). IsSound x.1) (get_node k t.graph) _ _ (λ _. s)
      (λ n _. halt_found-IsSound active k n _ (without_queued k t) (remove-IsSound k t s))

pub >>=-IsSound :
    {A B : Type 0} (m : Run A) (f : A → Run B) (t : MessageTree)
    → IsSound (m t).1
    → ((a : A) (u : MessageTree) → IsSound u → IsSound (f a u).1)
    → IsSound ((m >>= f) t).1
>>=-IsSound {B = B} m f t s next =
    by_result (λ (x : Result B × MessageTree). IsSound x.1) (m t).0 _ _ (λ _. s)
      (λ a. next a (m t).1 s)

halt_each-IsSound :
    (active : Option NodeClaim) (ks : List String) (h : Halted) (t : MessageTree)
    → IsSound t
    → IsSound (halt_each active ks h t).1
unfolding halt_each
halt_each-IsSound active [] h t s = s
halt_each-IsSound active (k ∷ ks) h t s =
    >>=-IsSound (halt_one active k h) (halt_each active ks) t (halt_one-IsSound active k h t s)
      (λ h' u s'. halt_each-IsSound active ks h' u s')

pub told-IsSound :
    (b : Bool) (t : MessageTree) → IsSound t → IsSound (if b then request_cancellation t else t)
told-IsSound true t s = request_cancellation-IsSound t s
told-IsSound false t s = s

pub halt_affected-IsSound :
    (arrange : List String → List String) (affected : List String) (t : MessageTree)
    → IsSound t
    → IsSound (halt_affected arrange affected t).1
unfolding halt_affected
halt_affected-IsSound arrange affected t s =
    halt_each-IsSound (claim_among affected t) (arrange affected) _ _
      (told-IsSound (is_some (claim_among affected t)) t s)

remove_replies-IsSound :
    (arrange : List String → List String) (owner : MessageNode) (kind : MessageReferenceKind)
    (ids : List String) (t : MessageTree)
    → IsSound t
    → IsSound (remove_replies arrange owner kind ids t).1
unfolding remove_replies remove_affected
remove_replies-IsSound arrange owner kind [] t s = s
remove_replies-IsSound arrange owner kind (k ∷ ks) t s =
    let affected = affected_nodes (k ∷ ks) owner kind t.graph in
    >>=-IsSound (halt_affected arrange affected) (remove_affected arrange (k ∷ ks) owner kind t) t
      (halt_affected-IsSound arrange affected t s)
      (λ h u s'.
        detach-IsSound (is_status kind) owner.node_id (arrange (known_nodes (k ∷ ks) t.graph)) u s')

pub remove_message_subtree-IsSound :
    (arrange : List String → List String) (r : String) (t : MessageTree)
    → IsSound t
    → IsSound (remove_message_subtree arrange r t).1
unfolding remove_message_subtree
remove_message_subtree-IsSound arrange r t s =
    by_option (λ (x : Result MessageSubtreeRemoval × MessageTree). IsSound x.1)
      (resolve_reference r t.graph) _ _ (λ _. s)
      (λ owner _.
        by_option (λ (x : Result MessageSubtreeRemoval × MessageTree). IsSound x.1)
          (get_reference_descendants r t.graph) _ _ (λ _. s)
          (λ ids _. remove_replies-IsSound arrange owner.0 owner.1 ids t s))
