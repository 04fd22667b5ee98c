-- ===== src/Messaging/Trees/Queue.antt =====
-- trees/queue.py: a FIFO of node ids, kept as a deque with a set of its members.
pub mod Fifo
use free_claude_code_my_pr_i.Prelude.{
  ℕ, zero, suc, ◌+◌, ◌-◌, ◌*◌, ◌/◌, ◌%◌, ◌^◌, ◌≤◌, ◌<◌, min, max, String, ◌≡◌, refl, sym, ap, subst,
  ◌∙◌, ◌≢◌, ◌↔◌, ◌⊎◌, inl, inr, Bool, true, false, not, ◌&&◌, ◌||◌, false≢true, Option, none, some,
  List, [], ◌∷◌, ◌++◌, map, arith, str_eq, eq_iff, ltb, leb, ◌==◌, if◌then◌else◌, ltb→lt, leb→le,
  ==_iff, Bool-cases, Option-cases, is_some, length, length-append, All, All-append, All-map,
  list_cases,
}
use free_claude_code_my_pr_i.Prelude.Dict.{elem}

pub record MessageNodeQueue : Type 0 where
  pub deque : List String
  pub members : List String

unfoldable pub empty : MessageNodeQueue
empty = record { deque = []; members = [] }

-- `set.discard`, and the deque without an item
unfoldable pub without : String → List String → List String
without s [] = []
without s (x ∷ xs) = let rest = without s xs in if str_eq x s then rest else x ∷ rest

unfoldable pub put : String → MessageNodeQueue → Bool × MessageNodeQueue
put item q =
    if elem item q.members
    then (false, q)
    else (true, record { deque = q.deque ++ item ∷ []; members = item ∷ q.members })

unfoldable pub pop : MessageNodeQueue → Option String × MessageNodeQueue
pop q = elim q.deque [
  | [] ↦ (none, q)
  | item ∷ rest ↦ (some item, record { deque = rest; members = without item q.members })
]

unfoldable pub qsize : MessageNodeQueue → ℕ
qsize q = length q.deque

unfoldable pub remove : String → MessageNodeQueue → Bool × MessageNodeQueue
remove item q =
    if elem item q.members
    then (true, record { deque = without item q.deque; members = without item q.members })
    else (false, q)

unfoldable pub drain : MessageNodeQueue → List String × MessageNodeQueue
unfolding empty
drain q = (q.deque, empty)
