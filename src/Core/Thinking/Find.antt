-- ===== src/Core/Thinking/Find.antt =====
-- Positions in a text, for core/anthropic/thinking.py.
use free_claude_code_my_pr_i.Core.Thinking.{Text, drop, find, starts_with, take}
use free_claude_code_my_pr_i.Prelude.{
  ℕ, zero, suc, ◌+◌, ◌-◌, ◌≤◌, ◌≡◌, refl, sym, ap, ◌∙◌, inl, inr, true, false, false≢true, none,
  some, [], ◌∷◌, ◌++◌, arith, Bool-cases, Option-cases, length,
}

pub take-drop : (i : ℕ) (s : Text) → take i s ++ drop i s ≡ s
unfolding take drop
take-drop zero [] = refl
take-drop (suc i) [] = refl
take-drop zero (c ∷ s) = refl
take-drop (suc i) (c ∷ s) = ap (λ r. c ∷ r) (take-drop i s)

pub length-drop : (i : ℕ) (s : Text) → length (drop i s) ≡ length s - i
unfolding drop
length-drop zero [] = omega arith
length-drop (suc i) [] = omega arith
length-drop zero (c ∷ s) = omega arith
length-drop (suc i) (c ∷ s) = omega (arith, length-drop i s)

pub drop-zero : (s : Text) → drop 0 s ≡ s
unfolding drop
drop-zero [] = refl
drop-zero (c ∷ s) = refl

pub take-zero : (s : Text) → take 0 s ≡ []
unfolding take
take-zero [] = refl
take-zero (c ∷ s) = refl

pub starts_with-split : (t s : Text) → starts_with t s ≡ true → t ++ drop (length t) s ≡ s
unfolding starts_with drop
starts_with-split [] s h = drop-zero s
starts_with-split (c ∷ t) [] h = absurd (cc h)
starts_with-split (c ∷ t) (d ∷ s) h =
    let same : c ≡ d = ground arith in
    let rest : t ++ drop (length t) s ≡ s = starts_with-split t s (ground arith) in
    rw same (ap (λ r. d ∷ r) rest)

pub find-split :
    (t s : Text) (i : ℕ) → find t s ≡ some i → take i s ++ (t ++ drop (i + length t) s) ≡ s
unfolding find take drop
find-split t [] i h = elim (Bool-cases (starts_with t [])) [
  | inl here ↦ starts_with-split t [] here
  | inr there ↦ absurd (ground arith)
]
find-split t (c ∷ s) i h = elim (Bool-cases (starts_with t (c ∷ s))) [
  | inl here ↦
      let first : i ≡ 0 = ground arith in
      rw first (ap (λ n. t ++ drop n (c ∷ s)) (omega arith) ∙ starts_with-split t (c ∷ s) here)
  | inr there ↦ elim (Option-cases (find t s)) [
    | inl none_ ↦ absurd (ground arith)
    | inr (j, e) ↦
        let next : i ≡ suc j = ground arith in
        rw next (
          ap (λ n. take (suc j) (c ∷ s) ++ (t ++ drop n (c ∷ s))) (later j)
          ∙ ap (λ r. c ∷ r) (find-split t s j e))
  ]
]
  where
    later : (j : ℕ) → suc j + length t ≡ suc (j + length t)
    later j = omega arith

starts_with-take : (i : ℕ) (t s : Text) → starts_with t (take i s) ≡ true → starts_with t s ≡ true
unfolding starts_with take
starts_with-take i [] s h = refl
starts_with-take zero (c ∷ t) [] h = h
starts_with-take (suc i) (c ∷ t) [] h = h
starts_with-take zero (c ∷ t) (d ∷ s) h = absurd (cc h)
starts_with-take (suc i) (c ∷ t) (d ∷ s) h = ground (arith, starts_with-take i t s)

-- The tag is not found before a position.
abbrev pub IsAfter : Text → ℕ → Text → Type 0
IsAfter t i s = (j : ℕ) → find t s ≡ some j → i ≤ j

-- A part of a text that ends at or before the first tag has no tag.
pub find-take : (i c : ℕ) (t s : Text) → IsAfter (c ∷ t) i s → find (c ∷ t) (take i s) ≡ none
unfolding find take starts_with
find-take zero c t [] h = refl
find-take (suc i) c t [] h = refl
find-take zero c t (d ∷ s) h = refl
find-take (suc i) c t (d ∷ s) h = elim (Bool-cases (starts_with (c ∷ t) (d ∷ s))) [
  | inl here ↦ absurd (omega (arith, h 0 (ground arith)))
  | inr there ↦
      let rest = find-take i c t s (λ j e. omega (arith, h (suc j) (further j e there))) in
      elim (Bool-cases (starts_with (c ∷ t) (d ∷ take i s))) [
        | inl here ↦ absurd (false≢true (sym there ∙ starts_with-take (suc i) (c ∷ t) (d ∷ s) here))
        | inr no_ ↦ ground (arith, rest)
      ]
]
  where
    further :
        (j : ℕ)
        → find (c ∷ t) s ≡ some j
        → starts_with (c ∷ t) (d ∷ s) ≡ false
        → find (c ∷ t) (d ∷ s) ≡ some (suc j)
    further j e there = ground (arith, e, there)
