-- ===== src/Providers/Admission/Delay.antt =====
-- `_retry_delay` of admission.py: exponential backoff with a ceiling, jitter, and `retry-after`.
use free_claude_code_my_pr_i.Prelude.{
  ℕ, zero, suc, ◌+◌, ◌-◌, ◌*◌, ◌^◌, ◌≤◌, ◌<◌, min, max, ◌≡◌, Option, none, some, arith,
}
use native.Mathlib.Nat.{pow-suc}
use free_claude_code_my_pr_i.Providers.Admission.State.{Controller, UpstreamError}

abbrev pub seconds_or_zero : Option ℕ → ℕ
seconds_or_zero none = 0
seconds_or_zero (some n) = n

-- `min(base_delay * 2 ** max(0, attempt - 1), max_delay)`
unfoldable pub backoff : ℕ → ℕ → ℕ → ℕ
backoff base top attempt = min (base * 2 ^ (attempt - 1)) top

-- `noise` is what `random.uniform(0, jitter)` returns.
unfoldable pub retry_delay : Controller → UpstreamError → ℕ → ℕ → ℕ
unfolding backoff
retry_delay c error attempt noise =
    max (backoff c.base_delay c.max_delay attempt + noise) (seconds_or_zero error.retry_after)

pow-suc_two : (n : ℕ) → 2 ^ suc n ≡ 2 * 2 ^ n
pow-suc_two n = omega (arith, pow-suc 2 n)

pow-pos : (n : ℕ) → 0 < 2 ^ n
pow-pos zero = omega arith
pow-pos (suc n) = omega (arith, pow-suc_two n, pow-pos n)

base-le-backoff : (base top a : ℕ) → base ≤ top → base ≤ backoff base top a
unfolding backoff
base-le-backoff base top a h = grind (arith, pow-pos (a - 1))

backoff-le-top : (base top a : ℕ) → backoff base top a ≤ top
unfolding backoff
backoff-le-top base top a = omega arith

-- Whatever noise is drawn within the jitter, and whatever attempt failed: the delay is never
-- shorter than the base delay or than `retry-after` asks, and beyond `retry-after` it is never
-- longer than the ceiling with the jitter.
pub retry_delay_bounds :
    (c : Controller) (error : UpstreamError) (attempt noise : ℕ)
    → c.base_delay ≤ c.max_delay
    → noise ≤ c.jitter
    → (c.base_delay ≤ retry_delay c error attempt noise)
      × (seconds_or_zero error.retry_after ≤ retry_delay c error attempt noise)
      × (retry_delay c error attempt noise
          ≤ max (c.max_delay + c.jitter) (seconds_or_zero error.retry_after))
unfolding retry_delay
retry_delay_bounds c error attempt noise h k =
    let low = base-le-backoff c.base_delay c.max_delay attempt h in
    (
      omega (arith, low),
      omega arith,
      omega (arith, backoff-le-top c.base_delay c.max_delay attempt),
    )
