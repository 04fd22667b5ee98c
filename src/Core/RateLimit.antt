-- ===== src/Core/RateLimit.antt =====
-- src/free_claude_code/core/rate_limit.py: `StrictSlidingWindowLimiter`.
-- Time is a number of ticks. A pass is what `_acquire` does while it holds its lock: it reads the
-- clock twice, `now` to prune and `stamp` to record, and does not yield in between.
pub mod Window
pub mod Progress
mod Tests
use free_claude_code_my_pr_i.Prelude.{
  ℕ, ◌+◌, ◌-◌, ◌≡◌, Bool, true, false, Option, none, some, List, [], ◌∷◌, ◌++◌, ltb, leb, length,
  if◌then◌else◌,
}

pub record Limiter : Type 0 where
  pub rate_limit : ℕ
  pub rate_window : ℕ
  pub times : List ℕ

-- What the constructor does: it raises on a limit or a window that is not positive.
unfoldable pub new : ℕ → ℕ → Option Limiter
new limit window =
    if ltb 0 limit
    then if ltb 0 window
      then some (record { rate_limit = limit; rate_window = window; times = [] })
      else none
    else none

-- `now - rate_window` may be negative there, so the sum stands on the other side.
abbrev pub is_stale : ℕ → ℕ → ℕ → Bool
is_stale window now t = leb (t + window) now

-- The inner `while`: entries leave from the front while they are stale.
unfoldable pub prune : ℕ → ℕ → List ℕ → List ℕ
prune window now [] = []
prune window now (t ∷ ts) =
    let rest = prune window now ts in if is_stale window now t then rest else t ∷ ts

-- The clock readings of a pass, and what the condition says if it is asked; `acquire` passes none.
pub record Reading : Type 0 where
  pub now : ℕ
  pub stamp : ℕ
  pub allowed : Option Bool

pub data Outcome : Type 0 where
  admitted : Outcome
  refused : Outcome
  wait : ℕ → Outcome

abbrev pub permits : Option Bool → Bool
permits none = true
permits (some b) = b

abbrev pub wait_time : ℕ → ℕ → List ℕ → ℕ
wait_time window now [] = 0
wait_time window now (oldest ∷ ts) = oldest + window - now

unfoldable pub pass : Limiter → Reading → Outcome × Limiter
unfolding prune
pass l r =
    let kept = prune l.rate_window r.now l.times in
    let pruned = record l { times = kept } in
    if ltb (length kept) l.rate_limit
    then if permits r.allowed
      then (admitted, record l { times = kept ++ r.stamp ∷ [] })
      else (refused, pruned)
    else (wait (wait_time l.rate_window r.now kept), pruned)

abbrev pub stamps : Outcome → ℕ → List ℕ
stamps admitted s = s ∷ []
stamps _ s = []

-- Passes of any number of tasks, in the order in which they take the lock: the limiter that they
-- leave, and the stamps of those that were admitted, oldest first.
unfoldable pub serve : Limiter → List Reading → Limiter × List ℕ
serve l [] = (l, [])
serve l (r ∷ rs) =
    let (o, l') = pass l r in let (l'', ss) = serve l' rs in (l'', stamps o r.stamp ++ ss)
