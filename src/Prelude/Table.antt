-- ===== src/Prelude/Table.antt =====
-- Python's `dict` with number keys, in insertion order.
use Prim.Native.Nat.{ℕ}
use mathlib.Core.Path.{◌≡◌, refl}
use mathlib.Core.Option.{Option, none, some}
use mathlib.Core.List.{List, [], ◌∷◌, map}
use native.Mathlib.Omega.{arith}
use free_claude_code_my_pr_i.Prelude.Tests.{if◌then◌else◌, ◌==◌}
use free_claude_code_my_pr_i.Prelude.Dict.{map_option}

abbrev pub Table {ℓ} : Type ℓ → Type ℓ
Table V = List (ℕ × V)

module _ {ℓ} {V : Type ℓ} where
  -- t.get(k)
  unfoldable pub get : ℕ → Table V → Option V
  get k [] = none
  get k ((j, v) ∷ t) = if j == k then some v else get k t

  -- t[k] = v: a key that is there keeps its place
  unfoldable pub put : ℕ → V → Table V → Table V
  put k v [] = (k, v) ∷ []
  put k v ((j, w) ∷ t) = if j == k then (j, v) ∷ t else (j, w) ∷ put k v t

  -- t.pop(k, None)
  unfoldable pub pop : ℕ → Table V → Table V
  pop k [] = []
  pop k ((j, v) ∷ t) = let rest = pop k t in if j == k then rest else (j, v) ∷ rest

  -- A change of the object that is stored under a key.
  unfoldable pub modify : ℕ → (V → V) → Table V → Table V
  modify k f [] = []
  modify k f ((j, v) ∷ t) = if j == k then (j, f v) ∷ t else (j, v) ∷ modify k f t

  pub get-put :
      (k j : ℕ) (v : V) (t : Table V) → get j (put k v t) ≡ (if k == j then some v else get j t)
  unfolding get put
  get-put k j v [] = refl
  get-put k j v ((i, w) ∷ t) = ground (arith, get-put k j v t)

  pub get-pop : (k j : ℕ) (t : Table V) → get j (pop k t) ≡ (if k == j then none else get j t)
  unfolding get pop
  get-pop k j [] = ground arith
  get-pop k j ((i, w) ∷ t) = ground (arith, get-pop k j t)

  pub get-modify :
      (k j : ℕ) (f : V → V) (t : Table V)
      → get j (modify k f t) ≡ (if k == j then map_option f (get j t) else get j t)
  unfolding get modify
  get-modify k j f [] = ground arith
  get-modify k j f ((i, w) ∷ t) = ground (arith, get-modify k j f t)

  -- A table where no key is found is empty.
  pub get-none-empty : (t : Table V) → ((k : ℕ) → get k t ≡ none) → t ≡ []
  unfolding get
  get-none-empty [] h = refl
  get-none-empty ((j, v) ∷ t) h = ground (arith, h j)

abbrev pub values {ℓ} : {V : Type ℓ} → Table V → List V
values = map (λ e. e.1)
