-- ===== src/Messaging/Trees/Queue/Fifo.antt =====
-- The queue of trees/queue.py as a list without repetitions.
use free_claude_code_my_pr_i.Prelude.{
  String, ◌≡◌, refl, ap, subst, ◌∙◌, inl, inr, true, false, Option, none, some, List, [], ◌∷◌, ◌++◌,
  map, arith, str_eq, eq_iff, if◌then◌else◌, Bool-cases, list_cases,
}
use free_claude_code_my_pr_i.Prelude.Dict.{elem, distinct, distinct-snoc, elem-append}
use free_claude_code_my_pr_i.Messaging.Trees.Queue.{MessageNodeQueue, without, put, pop, remove}

pub elem-without :
    (s x : String) (xs : List String)
    → elem x (without s xs) ≡ (if str_eq s x then false else elem x xs)
unfolding elem without
elem-without s x [] = ground arith
elem-without s x (y ∷ xs) = ground (arith, elem-without s x xs, eq_iff y s, eq_iff y x, eq_iff s x)

pub distinct-without :
    (s : String) (xs : List String) → distinct xs ≡ true → distinct (without s xs) ≡ true
unfolding distinct without
distinct-without s [] h = refl
distinct-without s (x ∷ xs) h = ground (arith, distinct-without s xs, elem-without s x xs)

-- The set has the members of the deque, and the deque has each of them once.
pub record IsIndexed (q : MessageNodeQueue) : Type 0 where
  pub members : (x : String) → elem x q.members ≡ elem x q.deque
  pub once : distinct q.deque ≡ true

-- What `pop` returns, once for each entry of a list
unfoldable pub pop_each : {A : Type 0} → List A → MessageNodeQueue → List (Option String)
pop_each [] q = []
pop_each (x ∷ xs) q = (pop q).0 ∷ pop_each xs (pop q).1

-- What each operation is on the deque alone.
pub record ActsAsFifo (q : MessageNodeQueue) (x : String) : Type 0 where
  pub put_new :
      elem x q.deque ≡ false → (put x q).0 ≡ true × ((put x q).1.deque ≡ q.deque ++ x ∷ [])
  pub put_again : elem x q.deque ≡ true → put x q ≡ (false, q)
  pub put_indexed : IsIndexed (put x q).1
  pub removed : (remove x q).0 ≡ elem x q.deque
  pub rest : (remove x q).1.deque ≡ without x q.deque
  pub remove_indexed : IsIndexed (remove x q).1
  pub pop_indexed : IsIndexed (pop q).1
  pub pop_empty : q.deque ≡ [] → pop q ≡ (none, q)
  pub pop_first :
      (y : String) (ys : List String)
      → q.deque ≡ y ∷ ys
      → ((pop q).0 ≡ some y) × ((pop q).1.deque ≡ ys)
  pub served : pop_each q.deque q ≡ map some q.deque
  pub put_last :
      elem x q.deque ≡ false
      → pop_each (q.deque ++ x ∷ []) (put x q).1 ≡ map some q.deque ++ some x ∷ []

without-absent : (x : String) (xs : List String) → elem x xs ≡ false → without x xs ≡ xs
unfolding elem without
without-absent x [] n = refl
without-absent x (y ∷ xs) n = ground (arith, without-absent x xs)

popped_member :
    (item y : String) (members rest : List String)
    → elem y members ≡ elem y (item ∷ rest)
    → distinct (item ∷ rest) ≡ true
    → elem y (without item members) ≡ elem y rest
unfolding elem distinct
popped_member item y members rest m d = elim (Bool-cases (str_eq item y)) [
  | inl e ↦
      rw (elem-without item y members)
        (rw e (subst (λ (z : String). false ≡ elem z rest) ((eq_iff item y).0 e) (ground arith)))
  | inr ne ↦ rw (elem-without item y members) (rw ne (ground arith))
]

popped_once :
    (item : String) (rest : List String) → distinct (item ∷ rest) ≡ true → distinct rest ≡ true
unfolding distinct
popped_once item rest d = ground arith

pop-IsIndexed : (q : MessageNodeQueue) → IsIndexed q → IsIndexed (pop q).1
unfolding pop
pop-IsIndexed q i = elim (list_cases q.deque) [
  | inl none_ ↦ rw (none_, pop) i
  | inr (item, rest, e) ↦
      rw (e, pop)
        (record {
          members =
              λ y. popped_member item y q.members rest (rw e at (i.members y)) (rw e at i.once);
          once = popped_once item rest (rw e at i.once);
        })
]

pop-first :
    (q : MessageNodeQueue) (y : String) (ys : List String)
    → q.deque ≡ y ∷ ys
    → ((pop q).0 ≡ some y) × ((pop q).1.deque ≡ ys)
unfolding pop
pop-first q y ys e = (ground arith, ground arith)

pop-empty : (q : MessageNodeQueue) → q.deque ≡ [] → pop q ≡ (none, q)
unfolding pop
pop-empty q e = ground arith

-- The entries come out in their order.
pop_each-deque :
    (xs : List String) (q : MessageNodeQueue) → q.deque ≡ xs → pop_each xs q ≡ map some xs
unfolding pop_each
pop_each-deque [] q e = refl
pop_each-deque (x ∷ xs) q e =
    let (first, rest) = pop-first q x xs e in
    ap (λ o. o ∷ pop_each xs (pop q).1) first
    ∙ ap (λ os. some x ∷ os) (pop_each-deque xs (pop q).1 rest)

map-snoc : (x : String) (xs : List String) → map some (xs ++ x ∷ []) ≡ map some xs ++ some x ∷ []
map-snoc x [] = refl
map-snoc x (y ∷ ys) = ap (λ os. some y ∷ os) (map-snoc x ys)

module _ (q : MessageNodeQueue) (x : String) (i : IsIndexed q) where
  put-IsIndexed : IsIndexed (put x q).1
  unfolding put
  put-IsIndexed = elim (Bool-cases (elem x q.members)) [
    | inl old ↦ rw (old, put) i
    | inr new ↦
        rw (new, put)
          (record {
            members = λ y. put_member y;
            once = distinct-snoc x q.deque i.once (ground (arith, i.members x));
          })
  ]
    where
      put_member : (y : String) → elem y (x ∷ q.members) ≡ elem y (q.deque ++ x ∷ [])
      put_member y =
          rw (elem-append y q.deque (x ∷ [])) (unfold elem in ground (arith, i.members y))

  remove-IsIndexed : IsIndexed (remove x q).1
  unfolding remove
  remove-IsIndexed = elim (Bool-cases (elem x q.members)) [
    | inr absent ↦ rw (absent, remove) i
    | inl present ↦
        rw (present, remove)
          (record {
            members = λ y.
                rw (elem-without x y q.members)
                  (rw (elem-without x y q.deque) (ground (arith, i.members y)));
            once = distinct-without x q.deque i.once;
          })
  ]

-- A queue whose set agrees with its deque is a first-in-first-out list without repetitions: `put`
-- appends exactly the ids that are not in it and reports that, `pop` returns the first id and leaves
-- the others, so that the ids come out in the order in which they were put and a new one last, and
-- returns none from an empty queue, `remove` takes an id out and reports whether it was there, and
-- `put`, `remove` and `pop` keep set and deque in agreement.
pub queue-ActsAsFifo : (q : MessageNodeQueue) (x : String) → IsIndexed q → ActsAsFifo q x
unfolding put remove
queue-ActsAsFifo q x i = record {
  put_new = λ n. (ground (arith, i.members x), ground (arith, i.members x));
  put_again = λ n. ground (arith, i.members x);
  put_indexed = put-IsIndexed q x i;
  removed = ground (arith, i.members x);
  rest = ground (arith, i.members x, without-absent x q.deque);
  remove_indexed = remove-IsIndexed q x i;
  pop_indexed = pop-IsIndexed q i;
  pop_empty = pop-empty q;
  pop_first = pop-first q;
  served = pop_each-deque q.deque q refl;
  put_last = λ n.
      pop_each-deque (q.deque ++ x ∷ []) (put x q).1 (ground (arith, i.members x))
      ∙ map-snoc x q.deque;
}
