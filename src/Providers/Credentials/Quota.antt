-- ===== src/Providers/Credentials/Quota.antt =====
-- Which keys providers/credentials_provider.py enables, and which the round robin hands out.
use free_claude_code_my_pr_i.Prelude.Dict.{get-pop, Dict, get-put}
use free_claude_code_my_pr_i.Providers.Credentials.{
  is_over, choose, ordered, key_at, fail_count, round_robin, rotated, backoff, is_enabled,
  candidates, shuffle_keys, advance_index, mark_success, try_keys, mark_failure,
  RotatingCredentialProvider, next_key, has_quota_and_reserve,
}
use free_claude_code_my_pr_i.Prelude.Dict
use free_claude_code_my_pr_i.Prelude.{
  ℕ, ◌+◌, ◌%◌, ◌≤◌, ◌<◌, max, String, ◌≡◌, refl, ap, ◌∙◌, Bool, true, false, Option, none, some,
  List, ◌∷◌, arith, str_eq, eq_iff, if◌then◌else◌, length,
}

unshuffled :
    (shuffled : List String) (p : RotatingCredentialProvider)
    → p.strategy ≡ round_robin
    → shuffle_keys shuffled p ≡ p
unshuffled shuffled p robin = ap (λ ks. record p { keys = ks }) kept
  where
    kept : ordered p.strategy shuffled p.keys ≡ p.keys
    kept = rw robin refl

first_candidate :
    (k : String) (ks : List String) (p : RotatingCredentialProvider)
    → p.strategy ≡ round_robin
    → p.keys ≡ k ∷ ks
    → candidates p.strategy p ≡ key_at p.keys (p.idx % length p.keys) ∷ rotated 1 (length ks) p
unfolding candidates rotated
first_candidate k ks p robin e =
    ap (λ s. candidates s p) robin
    ∙ (ap (λ n. rotated 0 n p) (ap length e)
        ∙ ap (λ i. key_at p.keys (i % length p.keys) ∷ rotated 1 (length ks) p) (omega arith))

try_first :
    (clock : ℕ → ℕ) (key : String) (keys : List String) (p : RotatingCredentialProvider)
    → p.rate_limit ≡ none
    → is_enabled (clock 0) key p ≡ true
    → try_keys clock 0 (key ∷ keys) p ≡ (some key, p)
unfolding try_keys has_quota_and_reserve
try_first clock key keys p free on =
    let r : has_quota_and_reserve (clock 1) key p ≡ (true, p) =
      unfold has_quota_and_reserve in ground arith in
    rw on (
      ap
        (λ (x : Bool × RotatingCredentialProvider).
          if x.0 then (some key, x.1) else try_keys clock 1 keys x.1)
        r)

put_here : (k : String) (v : ℕ) (d : Dict ℕ) → Dict.get k (Dict.put k v d) ≡ some v
put_here k v d = ground (arith, get-put k k v d, eq_iff k k)

put_elsewhere :
    (k j : String) (v : ℕ) (d : Dict ℕ)
    → str_eq k j ≡ false
    → Dict.get j (Dict.put k v d) ≡ Dict.get j d
put_elsewhere k j v d ne = ground (arith, get-put k j v d)

gone : (k : String) (d : Dict ℕ) → Dict.get k (Dict.pop k d) ≡ none
gone k d = ground (arith, get-pop k k d, eq_iff k k)

-- With the round robin and without a rate limit, `next_key` returns the key at the index, if that key
-- is enabled, and leaves the provider, and so the index, as it is: the next call returns the same key.
pub round_robin_repeats :
    (clock : ℕ → ℕ) (shuffled : List String) (k : String) (ks : List String)
    (p : RotatingCredentialProvider)
    → p.strategy ≡ round_robin
    → p.rate_limit ≡ none
    → p.keys ≡ k ∷ ks
    → is_enabled (clock 0) (key_at p.keys (p.idx % length p.keys)) p ≡ true
    → next_key clock shuffled p ≡ (some (key_at p.keys (p.idx % length p.keys)), p)
unfolding next_key choose
round_robin_repeats clock shuffled k ks p robin free e on =
    let key = key_at p.keys (p.idx % length p.keys) in
    ap (λ q. choose clock p.keys q) (unshuffled shuffled p robin)
    ∙ (ap (λ keys. choose clock keys p) e
        ∙ (ap (λ keys. advance_index (try_keys clock 0 keys p)) (first_candidate k ks p robin e)
            ∙ ap advance_index (try_first clock key (rotated 1 (length ks) p) p free on)))

-- What a failure and a success do to the keys
pub record Disables (now wait : ℕ) (key : String) (p p' : RotatingCredentialProvider) : Type 0 where
  pub off : (t : ℕ) → t < now + wait → is_enabled t key p' ≡ false
  pub on : (t : ℕ) → now + wait ≤ t → is_enabled t key p' ≡ true
  pub others : (t : ℕ) (j : String) → str_eq key j ≡ false → is_enabled t j p' ≡ is_enabled t j p
  pub cleared : (t : ℕ) → is_enabled t key (mark_success key p') ≡ true

-- After `mark_failure`, the key is disabled up to the end of the waiting time, which is at least 1, and
-- enabled from then on, and at once after `mark_success`; other keys are enabled as before.
pub mark_failure-Disables :
    (now jitter : ℕ) (key : String) (retry_after : Option ℕ) (p : RotatingCredentialProvider)
    → Disables now
        (max 1 (backoff retry_after jitter (fail_count key p + 1) p))
        key
        p
        (mark_failure now jitter key retry_after p)
unfolding mark_failure mark_success is_enabled
mark_failure-Disables now jitter key retry_after p =
    let wait = max 1 (backoff retry_after jitter (fail_count key p + 1) p) in
    let here = put_here key (now + wait) p.disabled_until in
    record {
      off = λ t h. ap (λ u. is_over u t) here ∙ still_off (now + wait) t (omega arith) h;
      on = λ t h. ap (λ u. is_over u t) here ∙ on_again (now + wait) t h;
      others =
          λ t j ne. ap (λ u. is_over u t) (put_elsewhere key j (now + wait) p.disabled_until ne);
      cleared = λ t. ap (λ u. is_over u t) (gone key (Dict.put key (now + wait) p.disabled_until));
    }
  where
    still_off : (until t : ℕ) → 0 < until → t < until → is_over (some until) t ≡ false
    still_off until t pos h = ground arith

    on_again : (until t : ℕ) → until ≤ t → is_over (some until) t ≡ true
    on_again until t h = ground arith
