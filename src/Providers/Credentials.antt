-- ===== src/Providers/Credentials.antt =====
-- providers/credentials_provider.py: `RotatingCredentialProvider`. Times are whole numbers of some
-- unit. Each operation gets what it reads of the clock and of `random` as arguments.
pub mod Quota
pub mod Served
pub mod Tests
use free_claude_code_my_pr_i.Prelude.Dict.{Dict}
use free_claude_code_my_pr_i.Prelude.Dict
use free_claude_code_my_pr_i.Prelude.{
  ℕ, zero, suc, ◌+◌, ◌-◌, ◌*◌, ◌/◌, ◌%◌, ◌^◌, ◌≤◌, ◌<◌, min, max, String, ◌≡◌, refl, sym, ap, subst,
  ◌∙◌, ◌≢◌, ◌↔◌, ◌⊎◌, inl, inr, Bool, true, false, not, ◌&&◌, ◌||◌, false≢true, Option, none, some,
  List, [], ◌∷◌, ◌++◌, map, arith, str_eq, eq_iff, ltb, leb, ◌==◌, if◌then◌else◌, ltb→lt, leb→le,
  ==_iff, Bool-cases, Option-cases, is_some, length, length-append, All, All-append, All-map,
  list_cases,
}

-- Any strategy but the first two is the random one.
pub data Strategy : Type 0 where
  sequential round_robin random : Strategy

abbrev pub is_round_robin : Strategy → Bool
is_round_robin round_robin = true
is_round_robin _ = false

-- The requests of a key in its current window
pub record Counter : Type 0 where
  pub count : ℕ
  pub window_start : ℕ

pub record RotatingCredentialProvider : Type 0 where
  pub keys : List String
  pub strategy : Strategy
  pub idx : ℕ
  pub disabled_until : Dict ℕ
  pub fail_counts : Dict ℕ
  pub counters : Dict Counter
  pub rate_limit : Option ℕ
  pub rate_window : ℕ
  pub max_backoff : ℕ

abbrev pub nonempty : List String → List String
nonempty [] = []
nonempty (k ∷ ks) = let rest = nonempty ks in if str_eq k "" then rest else k ∷ rest

unfoldable pub new_provider : List String → Strategy → Option ℕ → ℕ → ℕ → RotatingCredentialProvider
new_provider keys strategy rate_limit rate_window max_backoff = record {
  keys = nonempty keys;
  strategy = strategy;
  idx = 0;
  disabled_until = [];
  fail_counts = [];
  counters = [];
  rate_limit = rate_limit;
  rate_window = rate_window;
  max_backoff = max_backoff;
}

-- A time of 0 counts as none.
abbrev pub is_over : Option ℕ → ℕ → Bool
is_over none now = true
is_over (some until) now = (until == 0) || leb until now

unfoldable pub is_enabled : ℕ → String → RotatingCredentialProvider → Bool
is_enabled now key p = is_over (Dict.get key p.disabled_until) now

unfoldable pub counter_of : ℕ → String → RotatingCredentialProvider → Counter
counter_of now key p = elim (Dict.get key p.counters) [
  | none ↦ record { count = 0; window_start = now }
  | some c ↦ c
]

-- The counter after a window that is over was reset
unfoldable pub current_counter : ℕ → String → RotatingCredentialProvider → Counter
unfolding counter_of
current_counter now key p =
    if leb ((counter_of now key p).window_start + p.rate_window) now
    then record { count = 0; window_start = now }
    else counter_of now key p

unfoldable pub reserve_within :
    ℕ → Counter → String → RotatingCredentialProvider → Bool × RotatingCredentialProvider
reserve_within limit c key p =
    if ltb c.count limit
    then (
      true,
      record p {
        counters =
            Dict.put key (record { count = c.count + 1; window_start = c.window_start }) p.counters;
      },
    )
    else (
      false,
      record p { disabled_until = Dict.put key (c.window_start + p.rate_window) p.disabled_until },
    )

unfoldable pub has_quota_and_reserve :
    ℕ → String → RotatingCredentialProvider → Bool × RotatingCredentialProvider
unfolding current_counter reserve_within
has_quota_and_reserve now key p = elim p.rate_limit [
  | none ↦ (true, p)
  | some limit ↦ reserve_within limit (current_counter now key p) key p
]

-- `self._keys[i]`
abbrev pub key_at : List String → ℕ → String
key_at [] i = ""
key_at (k ∷ ks) zero = k
key_at (k ∷ ks) (suc i) = key_at ks i

-- The keys of the `for i in range(n)` of the round robin, from the i-th of `count` on
unfoldable pub rotated : ℕ → ℕ → RotatingCredentialProvider → List String
rotated i zero p = []
rotated i (suc count) p = key_at p.keys ((p.idx + i) % length p.keys) ∷ rotated (i + 1) count p

-- The keys in the order in which they are tried. For the random strategy the keys were shuffled.
unfoldable pub candidates : Strategy → RotatingCredentialProvider → List String
unfolding rotated
candidates sequential p = p.keys
candidates round_robin p = rotated 0 (length p.keys) p
candidates random p = p.keys

-- The loop of `next_key`. The i-th candidate reads the clock at 2 * i and at 2 * i + 1.
unfoldable pub try_keys :
    (ℕ → ℕ)
    → ℕ
    → List String
    → RotatingCredentialProvider
    → Option String × RotatingCredentialProvider
unfolding is_enabled has_quota_and_reserve
try_keys clock i [] p = (none, p)
try_keys clock i (key ∷ keys) p =
    let (reserved, p') = has_quota_and_reserve (clock (2 * i + 1)) key p in
    if is_enabled (clock (2 * i)) key p
    then if reserved then (some key, p') else try_keys clock (i + 1) keys p'
    else try_keys clock (i + 1) keys p

-- The generator advances the index only when the loop asks it for one candidate too many.
abbrev pub advance_index :
    Option String × RotatingCredentialProvider → Option String × RotatingCredentialProvider
advance_index (some key, p) = (some key, p)
advance_index (none, p) =
    (none, if is_round_robin p.strategy then record p { idx = (p.idx + 1) % length p.keys } else p)

-- The keys after `random.shuffle`, which only the random strategy calls.
abbrev pub ordered : Strategy → List String → List String → List String
ordered sequential shuffled keys = keys
ordered round_robin shuffled keys = keys
ordered random shuffled keys = shuffled

abbrev pub shuffle_keys : List String → RotatingCredentialProvider → RotatingCredentialProvider
shuffle_keys shuffled p = record p { keys = ordered p.strategy shuffled p.keys }

unfoldable pub choose :
    (ℕ → ℕ) → List String → RotatingCredentialProvider → Option String × RotatingCredentialProvider
unfolding candidates try_keys
choose clock [] p = (none, p)
choose clock (k ∷ ks) p = advance_index (try_keys clock 0 (candidates p.strategy p) p)

-- `shuffled` is what `random.shuffle` makes of the keys.
unfoldable pub next_key :
    (ℕ → ℕ) → List String → RotatingCredentialProvider → Option String × RotatingCredentialProvider
unfolding choose
next_key clock shuffled p = choose clock p.keys (shuffle_keys shuffled p)

abbrev pub fail_count : String → RotatingCredentialProvider → ℕ
fail_count key p = elim (Dict.get key p.fail_counts) [ none ↦ 0 | some n ↦ n ]

-- `jitter` is the whole part of the random addition to the backoff.
unfoldable pub backoff : Option ℕ → ℕ → ℕ → RotatingCredentialProvider → ℕ
backoff (some seconds) jitter count p = seconds
backoff none jitter count p = min p.max_backoff (2 ^ min count 10) + jitter

unfoldable pub mark_failure :
    ℕ → ℕ → String → Option ℕ → RotatingCredentialProvider → RotatingCredentialProvider
unfolding backoff
mark_failure now jitter key retry_after p =
    let count = fail_count key p + 1 in
    record p {
      fail_counts = Dict.put key count p.fail_counts;
      disabled_until =
          Dict.put key (now + max 1 (backoff retry_after jitter count p)) p.disabled_until;
    }

unfoldable pub mark_success : String → RotatingCredentialProvider → RotatingCredentialProvider
mark_success key p = record p {
  fail_counts = Dict.pop key p.fail_counts;
  disabled_until = Dict.pop key p.disabled_until;
}

abbrev pub is_within : Option ℕ → ℕ → Bool
is_within none count = true
is_within (some limit) count = ltb count limit

-- The i-th key reads the clock at i; `now` is the reading before the loop.
unfoldable pub usable : (ℕ → ℕ) → ℕ → ℕ → List String → RotatingCredentialProvider → List String
unfolding is_enabled counter_of
usable clock i now [] p = []
usable clock i now (k ∷ ks) p =
    let rest = usable clock (i + 1) now ks p in
    if is_enabled (clock i) k p && is_within p.rate_limit (counter_of now k p).count
    then k ∷ rest
    else rest

unfoldable pub available_keys : (ℕ → ℕ) → ℕ → RotatingCredentialProvider → List String
unfolding usable
available_keys clock now p = usable clock 0 now p.keys p

pub record KeyStats : Type 0 where
  pub count : ℕ
  pub window_start : ℕ
  pub disabled_until : ℕ

unfoldable pub stats : ℕ → RotatingCredentialProvider → List (String × KeyStats)
unfolding counter_of
stats now p =
    map
      (λ k. (
        k,
        record {
          count = (counter_of now k p).count;
          window_start = (counter_of now k p).window_start;
          disabled_until = elim (Dict.get k p.disabled_until) [ none ↦ 0 | some until ↦ until ];
        },
      ))
      p.keys
