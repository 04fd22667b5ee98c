-- ===== src/Providers/Credentials/Served.antt =====
-- How often `next_key` of providers/credentials_provider.py hands a key out.
use free_claude_code_my_pr_i.Prelude.Dict.{get-put, Dict}
use free_claude_code_my_pr_i.Providers.Credentials.{
  is_round_robin, shuffle_keys, candidates, is_enabled, advance_index, Counter,
  RotatingCredentialProvider, try_keys, choose, next_key, reserve_within, has_quota_and_reserve,
  current_counter, counter_of,
}
use free_claude_code_my_pr_i.Prelude.Dict
use free_claude_code_my_pr_i.Prelude.{
  ℕ, ◌+◌, ◌*◌, ◌≤◌, ◌<◌, String, ◌≡◌, refl, sym, ap, subst, ◌⊎◌, inl, inr, Bool, true, false,
  Option, none, some, List, [], ◌∷◌, arith, str_eq, eq_iff, ltb, if◌then◌else◌, Bool-cases, All,
}

-- What one call of `next_key` reads: the clock, and what `random.shuffle` makes of the keys
pub record Call : Type 0 where
  pub clock : ℕ → ℕ
  pub shuffled : List String

-- What several calls return, in order
unfoldable pub hand_out : List Call → RotatingCredentialProvider → List (Option String)
hand_out [] p = []
hand_out (call ∷ calls) p = let m = next_key call.clock call.shuffled p in m.0 ∷ hand_out calls m.1

abbrev pub hands : String → Option String → ℕ
hands k none = 0
hands k (some j) = if str_eq j k then 1 else 0

-- How often the key was handed out
unfoldable pub handed : String → List (Option String) → ℕ
handed k [] = 0
handed k (o ∷ os) = hands k o + handed k os

-- Every reading of the clock is in the window that begins at `first`.
abbrev pub IsDuring : ℕ → ℕ → Call → Type 0
IsDuring first window call = (i : ℕ) → (first ≤ call.clock i) × (call.clock i < first + window)

module _ (limit window first : ℕ) (k : String) where
  -- The key was handed out `n` times since `first`.
  record Counted (n : ℕ) (p : RotatingCredentialProvider) : Type 0 where
    same_limit : p.rate_limit ≡ some limit
    same_window : p.rate_window ≡ window
    counter :
        ((Dict.get k p.counters ≡ none) × (n ≡ 0))
        ⊎ ((c : Counter) × (Dict.get k p.counters ≡ some c)
            × (c.count ≡ n)
            × (first ≤ c.window_start))
    within : n ≤ limit

  current_count :
      (n now : ℕ) (p : RotatingCredentialProvider)
      → Counted n p
      → first ≤ now
      → now < first + window
      → ((current_counter now k p).count ≡ n) × (first ≤ (current_counter now k p).window_start)
  unfolding current_counter counter_of
  current_count n now p c a b = elim c.counter [
    | inl (fresh, zero_) ↦ (ground (arith, c.same_window), ground (arith, c.same_window))
    | inr (d, there, same, late) ↦ (ground (arith, c.same_window), ground (arith, c.same_window))
  ]

  abbrev taken : Bool → String → ℕ
  taken b key = if b then hands k (some key) else 0

  reserve_within-Counted :
      (n : ℕ) (c : Counter) (key : String) (p : RotatingCredentialProvider)
      → Counted n p
      → (str_eq key k ≡ true → (c.count ≡ n) × (first ≤ c.window_start))
      → let m = reserve_within limit c key p in Counted (n + taken m.0 key) m.1
  unfolding reserve_within
  reserve_within-Counted n c key p h own = elim (Bool-cases (ltb c.count limit)) [
    | inr full ↦
        rw (full, reserve_within)
          (record {
            same_limit = h.same_limit;
            same_window = h.same_window;
            counter = subst (λ x. IsAt x p.counters) (sym more) h.counter;
            within = omega (arith, h.within, more);
          })
    | inl free ↦ elim (Bool-cases (str_eq key k)) [
      | inl here ↦
          let (same, late) = own here in
          rw (free, reserve_within)
            (rw here (record {
              same_limit = h.same_limit;
              same_window = h.same_window;
              counter =
                  inr (
                    next,
                    ground (arith, get-put key k next p.counters),
                    ap (λ x. x + 1) same,
                    late,
                  );
              within = ground arith;
            }))
      | inr other ↦
          rw (free, reserve_within)
            (rw other (record {
              same_limit = h.same_limit;
              same_window = h.same_window;
              counter =
                  subst (λ x. IsAt x (Dict.put key next p.counters)) (sym more)
                    (elsewhere other h.counter);
              within = omega (arith, h.within, more);
            }))
    ]
  ]
    where
      IsAt : ℕ → Dict Counter → Type 0
      IsAt x d =
          ((Dict.get k d ≡ none) × (x ≡ 0))
          ⊎ ((c : Counter) × (Dict.get k d ≡ some c) × (c.count ≡ x) × (first ≤ c.window_start))

      more : n + 0 ≡ n
      more = omega arith

      next : Counter
      next = record { count = c.count + 1; window_start = c.window_start }

      elsewhere : str_eq key k ≡ false → IsAt n p.counters → IsAt n (Dict.put key next p.counters)
      elsewhere other (inl (fresh, z)) = inl (ground (arith, get-put key k next p.counters), z)
      elsewhere other (inr (d, there, e, late)) =
          inr (d, ground (arith, get-put key k next p.counters), e, late)

  reserve-Counted :
      (n now : ℕ) (key : String) (p : RotatingCredentialProvider)
      → first ≤ now
      → now < first + window
      → Counted n p
      → let m = has_quota_and_reserve now key p in Counted (n + taken m.0 key) m.1
  unfolding has_quota_and_reserve
  reserve-Counted n now key p a b h =
      rw (h.same_limit, has_quota_and_reserve)
        (reserve_within-Counted n (current_counter now key p) key p h (λ here.
          subst
            (λ j.
              ((current_counter now j p).count ≡ n)
              × (first ≤ (current_counter now j p).window_start))
            (sym ((eq_iff key k).0 here)) (current_count n now p h a b)))

  -- A call that hands a key out counts it.
  abbrev Counts : ℕ → Option String × RotatingCredentialProvider → Type 0
  Counts n m = Counted (n + hands k m.0) m.1

  Counted-zero : (n : ℕ) (p : RotatingCredentialProvider) → Counted n p → Counted (n + 0) p
  Counted-zero n p h = subst (λ x. Counted x p) (omega arith) h

  module _ (call : Call) (during : IsDuring first window call) where
    try_keys-Counts :
        (i : ℕ) (keys : List String) (n : ℕ) (p : RotatingCredentialProvider)
        → Counted n p
        → Counts n (try_keys call.clock i keys p)
    unfolding try_keys
    try_keys-Counts i [] n p h = Counted-zero n p h
    try_keys-Counts i (key ∷ keys) n p h =
        let now = call.clock (2 * i + 1) in
        let reserved =
          reserve-Counted n now key p (during (2 * i + 1)).0 (during (2 * i + 1)).1 h in
        let m = has_quota_and_reserve now key p in
        elim (Bool-cases (is_enabled (call.clock (2 * i)) key p)) [
          | inr off ↦ rw (off, try_keys) (try_keys-Counts (i + 1) keys n p h)
          | inl on ↦ elim (Bool-cases m.0) [
            | inl got ↦
                rw (on, try_keys) (rw got (subst (λ b. Counted (n + taken b key) m.1) got reserved))
            | inr full ↦
                let kept : Counted n m.1 =
                  subst (λ x. Counted x m.1) (omega arith)
                    (subst (λ b. Counted (n + taken b key) m.1) full reserved) in
                rw (on, try_keys) (rw full (try_keys-Counts (i + 1) keys n m.1 kept))
          ]
        ]

    advance_index-Counts :
        (n : ℕ) (r : Option String) (p : RotatingCredentialProvider)
        → Counts n (r, p)
        → Counts n (advance_index (r, p))
    advance_index-Counts n (some key) p h = h
    advance_index-Counts n none p h = elim (Bool-cases (is_round_robin p.strategy)) [
      | inl yes_ ↦ rw yes_ (record {
        same_limit = h.same_limit;
        same_window = h.same_window;
        counter = h.counter;
        within = h.within;
      })
      | inr no_ ↦ rw no_ h
    ]

    choose-Counts :
        (keys : List String) (n : ℕ) (p : RotatingCredentialProvider)
        → Counted n p
        → Counts n (choose call.clock keys p)
    unfolding choose
    choose-Counts [] n p h = Counted-zero n p h
    choose-Counts (j ∷ js) n p h =
        advance_index-Counts n _ _ (try_keys-Counts 0 (candidates p.strategy p) n p h)

    next_key-Counts :
        (n : ℕ) (p : RotatingCredentialProvider)
        → Counted n p
        → Counts n (next_key call.clock call.shuffled p)
    unfolding next_key
    next_key-Counts n p h = choose-Counts p.keys n (shuffle_keys call.shuffled p) (record {
      same_limit = h.same_limit;
      same_window = h.same_window;
      counter = h.counter;
      within = h.within;
    })

  hand_out-bounded :
      (calls : List Call) (n : ℕ) (p : RotatingCredentialProvider)
      → All (IsDuring first window) calls
      → Counted n p
      → n + handed k (hand_out calls p) ≤ limit
  unfolding hand_out handed
  hand_out-bounded [] n p all h = omega (arith, h.within)
  hand_out-bounded (call ∷ calls) n p all h =
      let m = next_key call.clock call.shuffled p in
      omega (
        arith,
        hand_out-bounded calls (n + hands k m.0) m.1 all.1 (next_key-Counts call all.0 n p h),
      )

-- However often `next_key` is called while the clock stays within one window, and whatever the
-- strategy, it hands a key out at most as often as the rate limit says, if the key had no counter
-- before.
pub served_within_quota :
    (limit first : ℕ) (k : String) (calls : List Call) (p : RotatingCredentialProvider)
    → p.rate_limit ≡ some limit
    → Dict.get k p.counters ≡ none
    → All (IsDuring first p.rate_window) calls
    → handed k (hand_out calls p) ≤ limit
served_within_quota limit first k calls p limited fresh during =
    let bound = hand_out-bounded limit p.rate_window first k calls 0 p during (record {
      same_limit = limited;
      same_window = refl;
      counter = inl (fresh, refl);
      within = omega arith;
    }) in
    omega (arith, bound)
