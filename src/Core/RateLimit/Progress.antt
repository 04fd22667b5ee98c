-- ===== src/Core/RateLimit/Progress.antt =====
-- How long `_acquire` of rate_limit.py waits.
use free_claude_code_my_pr_i.Prelude.{
  ℕ, ◌+◌, ◌-◌, ◌≤◌, ◌<◌, ◌≡◌, refl, ◌≢◌, inl, inr, true, some, List, [], ◌∷◌, arith, leb,
  if◌then◌else◌, length, length-append, list_cases,
}
use free_claude_code_my_pr_i.Core.RateLimit.{
  Limiter, Reading, admitted, wait, new, prune, pass, serve, permits,
}

length-prune-le : (w now : ℕ) (ts : List ℕ) → length (prune w now ts) ≤ length ts
unfolding prune
length-prune-le w now [] = omega arith
length-prune-le w now (t ∷ ts) = ground (arith, length-prune-le w now ts)

-- What is left after pruning begins with an entry that is not stale.
prune-head : (w now o : ℕ) (ts rest : List ℕ) → prune w now ts ≡ o ∷ rest → now < o + w
unfolding prune
prune-head w now o [] rest e = cc
prune-head w now o (t ∷ ts) rest e = ground (arith, prune-head w now o ts rest)

-- What `acquire` keeps true of the deque.
pub record IsBounded (l : Limiter) : Type 0 where
  pub positive : 0 < l.rate_limit
  pub short : length l.times ≤ l.rate_limit

pass-IsBounded : (l : Limiter) (r : Reading) → IsBounded l → IsBounded (pass l r).1
unfolding pass
pass-IsBounded l r b = ground (
  arith,
  length-prune-le l.rate_window r.now l.times,
  length-append (prune l.rate_window r.now l.times) (r.stamp ∷ []),
)

serve-IsBounded : (l : Limiter) (rs : List Reading) → IsBounded l → IsBounded (serve l rs).0
unfolding serve
serve-IsBounded l [] b = b
serve-IsBounded l (r ∷ rs) b = serve-IsBounded (pass l r).1 rs (pass-IsBounded l r b)

new-IsBounded : {l : Limiter} (limit window : ℕ) → new limit window ≡ some l → IsBounded l
unfolding new
new-IsBounded limit window e = ground arith

-- The next pass on a full deque whose oldest entry is `o`.
full_pass :
    (l : Limiter) (r : Reading) (o : ℕ) (rest : List ℕ)
    → IsBounded l
    → l.times ≡ o ∷ rest
    → length (o ∷ rest) ≡ l.rate_limit
    → permits r.allowed ≡ true
    → (pass l r).0
      ≡ (if leb (o + l.rate_window) r.now then admitted else wait (o + l.rate_window - r.now))
unfolding pass prune
full_pass l r o rest b e full ok = ground (arith, length-prune-le l.rate_window r.now rest)

-- A pass that waits found the deque full after pruning, and leaves it so.
record Full (l : Limiter) (r : Reading) (d o : ℕ) (rest : List ℕ) : Type 0 where
  left : (pass l r).1 ≡ record l { times = o ∷ rest }
  full : length (o ∷ rest) ≡ l.rate_limit
  rest_of : d ≡ o + l.rate_window - r.now
  fresh : r.now < o + l.rate_window

waits-Full :
    (l : Limiter) (r : Reading) (d o : ℕ) (rest : List ℕ)
    → IsBounded l
    → prune l.rate_window r.now l.times ≡ o ∷ rest
    → (pass l r).0 ≡ wait d
    → Full l r d o rest
unfolding pass
waits-Full l r d o rest b e waits = record {
  left = ground arith;
  full = ground (arith, length-prune-le l.rate_window r.now l.times);
  rest_of = ground arith;
  fresh = prune-head l.rate_window r.now o l.times rest e;
}

waits-ne-empty :
    (l : Limiter) (r : Reading) (d : ℕ)
    → IsBounded l
    → (pass l r).0 ≡ wait d
    → prune l.rate_window r.now l.times ≢ []
unfolding pass
waits-ne-empty l r d b waits e = ground arith

wait_exact_of :
    (l : Limiter) (r r' : Reading) (d o : ℕ) (rest : List ℕ)
    → IsBounded l
    → Full l r d o rest
    → r.now ≤ r'.now
    → permits r'.allowed ≡ true
    → (0 < d)
      × ((pass (pass l r).1 r').0
          ≡ (if leb (r.now + d) r'.now then admitted else wait (r.now + d - r'.now)))
wait_exact_of l r r' d o rest b f later ok =
    let l' : Limiter = record l { times = o ∷ rest } in
    let b' : IsBounded l' = record { positive = b.positive; short = omega (arith, f.full) } in
    let next = full_pass l' r' o rest b' refl f.full ok in
    (omega (arith, f.rest_of, f.fresh), rw f.left (ground (arith, next, f.rest_of, f.fresh)))

-- After `wait d` the time `d` is exact: if no other task records a stamp in between, a later pass
-- is admitted if at least `d` has passed (and its condition holds), and else waits for the rest.
pub wait_exact :
    (limit window d : ℕ) (rs : List Reading) (r r' : Reading) {l : Limiter}
    → new limit window ≡ some l
    → (pass (serve l rs).0 r).0 ≡ wait d
    → r.now ≤ r'.now
    → permits r'.allowed ≡ true
    → (0 < d)
      × ((pass (pass (serve l rs).0 r).1 r').0
          ≡ (if leb (r.now + d) r'.now then admitted else wait (r.now + d - r'.now)))
wait_exact limit window d rs r r' {l} e waits later ok =
    elim (list_cases (prune m.rate_window r.now m.times)) [
      | inl empty ↦ absurd (waits-ne-empty m r d b waits empty)
      | inr (o, rest, held) ↦
          wait_exact_of m r r' d o rest b (waits-Full m r d o rest b held waits) later ok
    ]
  where
    m : Limiter
    m = (serve l rs).0

    b : IsBounded m
    b = serve-IsBounded l rs (new-IsBounded limit window e)
