-- ===== src/Core/Streaming/Indexes.antt =====
-- The blocks of the started tool calls, as the states of the tool calls change.
use free_claude_code_my_pr_i.Core.Streaming.Stack.{no_repeats}
use free_claude_code_my_pr_i.Core.Streaming.Keeping.{add_index, indexes}
use free_claude_code_my_pr_i.Core.Streaming.Block.{ToolBlockState}
use free_claude_code_my_pr_i.Core.Streaming.Ledger.{is_index, member}
use free_claude_code_my_pr_i.Prelude.Table.{Table}
use free_claude_code_my_pr_i.Prelude.Table
use free_claude_code_my_pr_i.Prelude.{
  ℕ, ◌≡◌, refl, ap, ◌∙◌, ◌⊎◌, inl, inr, Bool, true, false, not, ◌&&◌, ◌||◌, Option, none, some,
  List, [], ◌∷◌, arith, ◌==◌, Bool-cases, Option-cases,
}

pub indexes-modify :
    (k : ℕ) (f : ToolBlockState → ToolBlockState) (t : Table ToolBlockState)
    → ((s : ToolBlockState) → ((f s).started ≡ s.started) × ((f s).block_index ≡ s.block_index))
    → indexes (Table.modify k f t) ≡ indexes t
unfolding indexes Table.modify
indexes-modify k f [] same = refl
indexes-modify k f ((j, s) ∷ t) same = elim (Bool-cases (j == k)) [
  | inl q ↦
      rw (q, Table.modify)
        (ap (λ b. add_index b (f s).block_index (indexes t)) (same s).0
          ∙ ap (λ o. add_index s.started o (indexes t)) (same s).1)
  | inr q ↦
      rw (q, Table.modify) (ap (add_index s.started s.block_index) (indexes-modify k f t same))
]

abbrev member_of : Option ℕ → List ℕ → Bool
member_of none is = false
member_of (some i) is = member i is

pub member-add_index :
    (j : ℕ) (b : Bool) (o : Option ℕ) (is : List ℕ)
    → member j (add_index b o is) ≡ ((b && is_index o j) || member j is)
unfolding member
member-add_index j true (some i) is = ground arith
member-add_index j true none is = refl
member-add_index j false o is = refl

no_repeats-add_index :
    (b : Bool) (o : Option ℕ) (is : List ℕ)
    → no_repeats (add_index b o is) ≡ (not (b && member_of o is) && no_repeats is)
unfolding no_repeats
no_repeats-add_index true (some i) is = ground arith
no_repeats-add_index true none is = refl
no_repeats-add_index false o is = refl

member-indexes-put :
    (i k : ℕ) (s : ToolBlockState) (t : Table ToolBlockState)
    → member i (indexes t) ≡ false
    → (s.started && is_index s.block_index i) ≡ false
    → member i (indexes (Table.put k s t)) ≡ false
unfolding indexes member Table.put
member-indexes-put i k s [] m new =
    member-add_index i s.started s.block_index [] ∙ ground (arith, new)
member-indexes-put i k s ((j, s') ∷ t) m new = elim (Bool-cases (j == k)) [
  | inl q ↦
      rw (q, Table.put)
        (member-add_index i s.started s.block_index (indexes t)
          ∙ ground (arith, m, new, member-add_index i s'.started s'.block_index (indexes t)))
  | inr q ↦
      let p : member i (indexes t) ≡ false =
        ground (arith, m, member-add_index i s'.started s'.block_index (indexes t)) in
      rw (q, Table.put)
        (member-add_index i s'.started s'.block_index (indexes (Table.put k s t))
          ∙ ground (
            arith,
            m,
            member-add_index i s'.started s'.block_index (indexes t),
            member-indexes-put i k s t p new,
          ))
]

member_of-add_index :
    (o : Option ℕ) (b : Bool) (o' : Option ℕ) (is : List ℕ)
    → member_of o (add_index b o' is) ≡ false
    → member_of o is ≡ false
member_of-add_index none b o' is h = refl
member_of-add_index (some i) b o' is h = ground (arith, h, member-add_index i b o' is)

-- The entry in front stays apart from the one that is put behind it.
apart :
    (b b' : Bool) (o o' : Option ℕ) (k : ℕ) (s : ToolBlockState) (t : Table ToolBlockState)
    → s.started ≡ b
    → s.block_index ≡ o
    → (b && member_of o (add_index b' o' (indexes t))) ≡ false
    → (b' && member_of o' (indexes t)) ≡ false
    → (b' && member_of o' (indexes (Table.put k s t))) ≡ false
unfolding member
apart b false o o' k s t e e' new h = refl
apart b true o none k s t e e' new h = refl
apart b true o (some i) k s t e e' new h = member-indexes-put i k s t h (elim (Option-cases o) [
  | inl n ↦ ground (arith, e, e', n)
  | inr (j, n) ↦ ground (arith, e, e', n, new)
])

still_new :
    (b b' : Bool) (o o' : Option ℕ) (is : List ℕ)
    → (b && member_of o (add_index b' o' is)) ≡ false
    → (b && member_of o is) ≡ false
still_new true b' o o' is new = member_of-add_index o b' o' is new
still_new false b' o o' is new = refl

-- A tool call whose block is new, or that is not started.
pub indexes-put :
    (k : ℕ) (s : ToolBlockState) (t : Table ToolBlockState)
    → (s.started && member_of s.block_index (indexes t)) ≡ false
    → no_repeats (indexes t) ≡ true
    → no_repeats (indexes (Table.put k s t)) ≡ true
unfolding indexes Table.put member no_repeats
indexes-put k s [] new h =
    no_repeats-add_index s.started s.block_index [] ∙ elim (Option-cases s.block_index) [
      | inl e ↦ ground (arith, e)
      | inr (i, e) ↦ ground (arith, e)
    ]
indexes-put k s ((j, s') ∷ t) new h = elim (Bool-cases (j == k)) [
  | inl q ↦
      rw (q, Table.put)
        (no_repeats-add_index s.started s.block_index (indexes t)
          ∙ ground (
            arith,
            h,
            still_new s.started s'.started s.block_index s'.block_index (indexes t) new,
            no_repeats-add_index s'.started s'.block_index (indexes t),
          ))
  | inr q ↦
      let g : (s.started && member_of s.block_index (indexes t)) ≡ false =
        still_new s.started s'.started s.block_index s'.block_index (indexes t) new in
      let h' : no_repeats (indexes t) ≡ true =
        ground (arith, h, no_repeats-add_index s'.started s'.block_index (indexes t)) in
      let a : (s'.started && member_of s'.block_index (indexes t)) ≡ false =
        ground (arith, h, no_repeats-add_index s'.started s'.block_index (indexes t)) in
      rw (q, Table.put)
        (no_repeats-add_index s'.started s'.block_index (indexes (Table.put k s t))
          ∙ ground (
            arith,
            indexes-put k s t g h',
            apart s.started s'.started s.block_index s'.block_index k s t refl refl new a,
          ))
]

-- A new state that is not started adds no block.
pub indexes-put_new :
    (k : ℕ) (s : ToolBlockState) (t : Table ToolBlockState)
    → Table.get k t ≡ none
    → s.started ≡ false
    → indexes (Table.put k s t) ≡ indexes t
unfolding indexes Table.put Table.get
indexes-put_new k s [] e off = ap (λ b. add_index b s.block_index []) off
indexes-put_new k s ((j, s') ∷ t) e off = elim (Bool-cases (j == k)) [
  | inl q ↦ ground (arith, q, e)
  | inr q ↦
      rw (q, Table.put)
        (ap (add_index s'.started s'.block_index)
          (indexes-put_new k s t (ground (arith, q, e)) off))
]

-- A tool call that starts adds its block to those of the others.
pub member-indexes-start :
    (i j k : ℕ) (s : ToolBlockState) (t : Table ToolBlockState)
    → s.started ≡ true
    → s.block_index ≡ some i
    → ((s' : ToolBlockState) → Table.get k t ≡ some s' → s'.started ≡ false)
    → (i == j ≡ true) ⊎ (member j (indexes t) ≡ true)
    → member j (indexes (Table.put k s t)) ≡ true
unfolding indexes Table.put Table.get member
member-indexes-start i j k s [] on e off m =
    member-add_index j s.started s.block_index [] ∙ ground (arith, on, e, m)
member-indexes-start i j k s ((n, s') ∷ t) on e off m = elim (Bool-cases (n == k)) [
  | inl q ↦
      rw (q, Table.put)
        (member-add_index j s.started s.block_index (indexes t)
          ∙ ground (
            arith,
            on,
            e,
            m,
            off s' (rw (q, Table.get) refl),
            member-add_index j s'.started s'.block_index (indexes t),
          ))
  | inr q ↦
      let rest : (i == j ≡ true) ⊎ (member j (indexes t) ≡ true)
          → member j (indexes (Table.put k s t)) ≡ true =
        member-indexes-start i j k s t on e (λ s'' o. off s'' (rw (q, Table.get) o)) in
      rw (q, Table.put)
        (member-add_index j s'.started s'.block_index (indexes (Table.put k s t)) ∙ elim m [
          | inl y ↦ ground (arith, rest (inl y))
          | inr y ↦ elim (Bool-cases (member j (indexes t))) [
            | inl z ↦ ground (arith, rest (inr z))
            | inr z ↦ ground (arith, y, z, member-add_index j s'.started s'.block_index (indexes t))
          ]
        ])
]

-- The keys of a table.
unfoldable pub keys {ℓ} : {A : Type ℓ} → Table A → List ℕ
keys [] = []
keys ((j, _) ∷ t) = j ∷ keys t

pub keys-modify {ℓ} :
    {A : Type ℓ} (k : ℕ) (f : A → A) (t : Table A) → keys (Table.modify k f t) ≡ keys t
unfolding keys Table.modify
keys-modify k f [] = refl
keys-modify k f ((j, v) ∷ t) = elim (Bool-cases (j == k)) [
  | inl q ↦ rw (q, Table.modify) refl
  | inr q ↦ rw (q, Table.modify) (ap (λ ks. j ∷ ks) (keys-modify k f t))
]

member-keys-put {ℓ} :
    {A : Type ℓ} (i k : ℕ) (v : A) (t : Table A)
    → (k == i) ≡ false
    → member i (keys t) ≡ false
    → member i (keys (Table.put k v t)) ≡ false
unfolding keys Table.put member
member-keys-put i k v [] d m = ground (arith, d)
member-keys-put i k v ((j, w) ∷ t) d m = elim (Bool-cases (j == k)) [
  | inl q ↦ rw (q, Table.put) m
  | inr q ↦ rw (q, Table.put) (ground (arith, m, member-keys-put i k v t d (ground (arith, m))))
]

pub keys-put {ℓ} :
    {A : Type ℓ} (k : ℕ) (v : A) (t : Table A)
    → no_repeats (keys t) ≡ true
    → no_repeats (keys (Table.put k v t)) ≡ true
unfolding keys Table.put no_repeats member
keys-put k v [] h = refl
keys-put k v ((j, w) ∷ t) h = elim (Bool-cases (j == k)) [
  | inl q ↦ rw (q, Table.put) h
  | inr q ↦
      rw (q, Table.put)
        (ground (
          arith,
          h,
          keys-put k v t (ground (arith, h)),
          member-keys-put j k v t (ground (arith, q)) (ground (arith, h)),
        ))
]
