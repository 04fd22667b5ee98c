-- ===== src/Core/Streaming/Stack.antt =====
-- The stack of open blocks: membership, and removal from a stack without repetition.
use free_claude_code_my_pr_i.Core.Streaming.Ledger.{remove, remove_open, member}
use free_claude_code_my_pr_i.Prelude.{
  ℕ, ◌≡◌, refl, Bool, true, false, not, ◌&&◌, List, [], ◌∷◌, arith, ◌==◌, if◌then◌else◌,
}

unfoldable pub no_repeats : List ℕ → Bool
no_repeats [] = true
no_repeats (x ∷ xs) = not (member x xs) && no_repeats xs

pub member-remove_absent : (x : ℕ) (xs : List ℕ) → member x xs ≡ false → remove x xs ≡ xs
unfolding member remove
member-remove_absent x [] h = refl
member-remove_absent x (y ∷ xs) h = ground (arith, member-remove_absent x xs)

pub member-remove :
    (x z : ℕ) (xs : List ℕ)
    → no_repeats xs ≡ true
    → member z (remove x xs) ≡ (if x == z then false else member z xs)
unfolding member remove no_repeats
member-remove x z [] h = ground arith
member-remove x z (y ∷ xs) h = ground (arith, member-remove x z xs)

pub remove-no_repeats :
    (x : ℕ) (xs : List ℕ) → no_repeats xs ≡ true → no_repeats (remove x xs) ≡ true
unfolding member remove no_repeats
remove-no_repeats x [] h = refl
remove-no_repeats x (y ∷ xs) h = ground (arith, remove-no_repeats x xs, member-remove x y xs)

pub member-remove_open :
    (x z : ℕ) (xs : List ℕ)
    → no_repeats xs ≡ true
    → member z (remove_open x xs) ≡ (if x == z then false else member z xs)
unfolding member remove_open no_repeats
member-remove_open x z [] h = ground arith
member-remove_open x z (y ∷ xs) h = ground (arith, member-remove x z (y ∷ xs))

pub remove_open-no_repeats :
    (x : ℕ) (xs : List ℕ) → no_repeats xs ≡ true → no_repeats (remove_open x xs) ≡ true
unfolding remove_open no_repeats
remove_open-no_repeats x [] h = refl
remove_open-no_repeats x (y ∷ xs) h = ground (arith, remove-no_repeats x (y ∷ xs))
