-- ===== src/Providers/Admission/Invariant/Sets.antt =====
-- The sets of sessions of admission.py.
use free_claude_code_my_pr_i.Prelude.{ℕ, ◌≡◌, refl, ◌≢◌, true, ◌||◌, List, [], ◌∷◌, arith, ◌==◌}
use free_claude_code_my_pr_i.Providers.Admission.State.{contains, add, discard}

pub contains-add : (s j : ℕ) (xs : List ℕ) → contains j (add s xs) ≡ (j == s || contains j xs)
unfolding add contains
contains-add s j xs = ground arith

pub contains-discard_ne :
    (s j : ℕ) (xs : List ℕ) → s ≢ j → contains j (discard s xs) ≡ contains j xs
unfolding discard contains
contains-discard_ne s j [] h = refl
contains-discard_ne s j (x ∷ xs) h = ground (arith, contains-discard_ne s j xs h)

pub contains-add_self : (s : ℕ) (xs : List ℕ) → contains s (add s xs) ≡ true
unfolding add contains
contains-add_self s xs = ground arith
