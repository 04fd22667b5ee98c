-- ===== src/Core/RateLimit/Window.antt =====
-- The promise of rate_limit.py: at most `rate_limit` acquisitions in any interval of length
-- `rate_window`.
use free_claude_code_my_pr_i.Prelude.{
  ℕ, ◌+◌, ◌≤◌, ◌<◌, ◌≡◌, refl, ap, inl, inr, ◌&&◌, some, List, [], ◌∷◌, ◌++◌, arith, ltb, leb,
  if◌then◌else◌, ltb→lt, leb→le, Bool-cases, length, length-append, All, All-append, All-map,
}
use free_claude_code_my_pr_i.Core.RateLimit.{
  new, serve, permits, Limiter, Reading, prune, pass, stamps, is_stale,
}

-- The stamps at or after `from` and before `from + window`.
abbrev pub count_within : ℕ → ℕ → List ℕ → ℕ
count_within from window [] = 0
count_within from window (t ∷ ts) =
    (if leb from t && ltb t (from + window) then 1 else 0) + count_within from window ts

-- The clock never runs back, within a pass and between passes.
abbrev pub IsClock : ℕ → List Reading → Type 0
IsClock c [] = Unit
IsClock c (r ∷ rs) = (c ≤ r.now) × (r.now ≤ r.stamp) × IsClock r.stamp rs

count-le-length : (a w : ℕ) (ts : List ℕ) → count_within a w ts ≤ length ts
count-le-length a w [] = omega arith
count-le-length a w (t ∷ ts) = ground (arith, count-le-length a w ts)

count-append :
    (a w : ℕ) (xs ys : List ℕ)
    → count_within a w (xs ++ ys) ≡ count_within a w xs + count_within a w ys
count-append a w [] ys = omega arith
count-append a w (x ∷ xs) ys = omega (arith, count-append a w xs ys)

-- What is stale at `s` lies before every interval that reaches beyond `s`.
count-stale :
    (a w s : ℕ) (ts : List ℕ) → All (λ t. t + w ≤ s) ts → s < a + w → count_within a w ts ≡ 0
count-stale a w s [] h lt = refl
count-stale a w s (t ∷ ts) h lt = ground (arith, count-stale a w s ts h.1 lt)

-- Pruning takes stale entries from the front and nothing else.
pub prune_split :
    (w now : ℕ) (ts : List ℕ)
    → (gone : List ℕ) × (gone ++ prune w now ts ≡ ts) × All (λ t. t + w ≤ now) gone
unfolding prune
prune_split w now [] = ([], refl, tt)
prune_split w now (t ∷ ts) = elim (Bool-cases (is_stale w now t)) [
  | inr fresh ↦ ([], rw fresh, tt)
  | inl stale ↦
      let (gone, e, h) = prune_split w now ts in
      (t ∷ gone, rw (stale, prune) (ap (◌∷◌ t) e), (leb→le (t + w) now stale, h))
]

-- What a history has to be, split in what has left the deque and what is still there.
record IsStrict (limit w c : ℕ) (older times : List ℕ) : Type 0 where
  gone : All (λ t. t + w ≤ c) older
  short : length times ≤ limit
  strict : (a : ℕ) → count_within a w older + count_within a w times ≤ limit

module _ (limit w c : ℕ) (older gone kept : List ℕ) (r : Reading) (h : c ≤ r.now)
    (k : r.now ≤ r.stamp) (stale : All (λ t. t + w ≤ r.now) gone)
    (inv : IsStrict limit w c older (gone ++ kept)) where
  left : All (λ t. t + w ≤ r.stamp) (older ++ gone)
  left =
      All-append _ older gone (All-map _ _ older (λ t b. omega arith) inv.gone)
        (All-map _ _ gone (λ t b. omega arith) stale)

  regroup :
      (a : ℕ)
      → count_within a w (older ++ gone) + count_within a w kept
        ≡ count_within a w older + count_within a w (gone ++ kept)
  regroup a = omega (arith, count-append a w older gone, count-append a w gone kept)

  pruned-IsStrict : IsStrict limit w r.stamp (older ++ gone) kept
  pruned-IsStrict = record {
    gone = left;
    short = omega (arith, inv.short, length-append gone kept);
    strict = λ a. omega (arith, regroup a, inv.strict a);
  }

  admitted-IsStrict :
      length kept < limit → IsStrict limit w r.stamp (older ++ gone) (kept ++ r.stamp ∷ [])
  admitted-IsStrict room = record {
    gone = left;
    short = omega (arith, length-append kept (r.stamp ∷ []));
    strict = λ a. elim (Bool-cases (ltb r.stamp (a + w))) [
      | inl before ↦ omega (
        arith,
        ltb→lt _ _ before,
        count-stale a w r.stamp (older ++ gone) left (ltb→lt _ _ before),
        count-le-length a w (kept ++ r.stamp ∷ []),
        length-append kept (r.stamp ∷ []),
      )
      | inr after ↦ ground (arith, regroup a, inv.strict a, count-append a w kept (r.stamp ∷ []))
    ];
  }

-- A pass moves what it prunes to the older part of the history, and adds its stamp if it admits.
record Passes (l : Limiter) (r : Reading) (older : List ℕ) : Type 0 where
  older' : List ℕ
  kept : IsStrict l.rate_limit l.rate_window r.stamp older' (pass l r).1.times
  total :
      (a : ℕ)
      → count_within a l.rate_window older' + count_within a l.rate_window (pass l r).1.times
        ≡ count_within a l.rate_window older
          + count_within a l.rate_window l.times
          + count_within a l.rate_window (stamps (pass l r).0 r.stamp)

module _ (l : Limiter) (r : Reading) (c : ℕ) (older : List ℕ) where
  pass-Passes :
      c ≤ r.now
      → r.now ≤ r.stamp
      → IsStrict l.rate_limit l.rate_window c older l.times
      → Passes l r older
  unfolding pass
  pass-Passes h k inv = elim (Bool-cases (ltb (length kept) l.rate_limit)) [
    | inr full ↦ record {
      older' = older ++ gone;
      kept = rw (full, pass) pruned;
      total = λ a. ground (arith, total a);
    }
    | inl room ↦ elim (Bool-cases (permits r.allowed)) [
      | inr refusal ↦ record {
        older' = older ++ gone;
        kept = rw (room, refusal, pass) pruned;
        total = λ a. ground (arith, total a);
      }
      | inl permit ↦ record {
        older' = older ++ gone;
        kept =
            rw (room, permit, pass)
              (admitted-IsStrict l.rate_limit l.rate_window c older gone kept r h k stale inv'
                (ltb→lt _ _ room));
        total = λ a. ground (arith, total a, count-append a l.rate_window kept (r.stamp ∷ []));
      }
    ]
  ]
    where
      kept : List ℕ
      kept = prune l.rate_window r.now l.times

      gone : List ℕ
      gone = (prune_split l.rate_window r.now l.times).0

      stale : All (λ t. t + l.rate_window ≤ r.now) gone
      stale = (prune_split l.rate_window r.now l.times).2

      inv' : IsStrict l.rate_limit l.rate_window c older (gone ++ kept)
      inv' = rw (prune_split l.rate_window r.now l.times).1 inv

      pruned : IsStrict l.rate_limit l.rate_window r.stamp (older ++ gone) kept
      pruned = pruned-IsStrict l.rate_limit l.rate_window c older gone kept r h k stale inv'

      total :
          (a : ℕ)
          → count_within a l.rate_window (older ++ gone) + count_within a l.rate_window kept
            ≡ count_within a l.rate_window older + count_within a l.rate_window l.times
      total a = omega (
        arith,
        regroup l.rate_limit l.rate_window c older gone kept r h k stale inv' a,
        ap (count_within a l.rate_window) (prune_split l.rate_window r.now l.times).1,
      )

  limit-pass : (pass l r).1.rate_limit ≡ l.rate_limit
  unfolding pass
  limit-pass = ground arith

  window-pass : (pass l r).1.rate_window ≡ l.rate_window
  unfolding pass
  window-pass = ground arith

serve_strict :
    (l : Limiter) (rs : List Reading) (c : ℕ) (older : List ℕ)
    → IsClock c rs
    → IsStrict l.rate_limit l.rate_window c older l.times
    → (a : ℕ)
    → count_within a l.rate_window older
        + count_within a l.rate_window l.times
        + count_within a l.rate_window (serve l rs).1
      ≤ l.rate_limit
unfolding serve
serve_strict l [] c older clock inv a = omega (arith, inv.strict a)
serve_strict l (r ∷ rs) c older clock inv a =
    let ih = serve_strict (pass l r).1 rs r.stamp p.older' clock.2 inv' a in
    omega (
      arith,
      p.total a,
      count-append a l.rate_window (stamps (pass l r).0 r.stamp) (serve (pass l r).1 rs).1,
      rw (limit-pass, window-pass) at ih,
    )
  where
    p : Passes l r older
    p = pass-Passes l r c older clock.0 clock.1 inv

    inv' :
        IsStrict
          (pass l r).1.rate_limit
          (pass l r).1.rate_window
          r.stamp
          p.older'
          (pass l r).1.times
    inv' = rw (limit-pass, window-pass) p.kept

-- Of a fresh limiter, and whatever the conditions say, at most `rate_limit` of the passes that any
-- number of tasks make under a clock that never runs back are admitted within any interval
-- `[from, from + rate_window)`.
pub serve_within_limit :
    (limit window from : ℕ) (rs : List Reading)
    → IsClock 0 rs
    → {l : Limiter} → new limit window ≡ some l
    → count_within from window (serve l rs).1 ≤ limit
unfolding new
serve_within_limit limit window from rs clock {l} e =
    let fresh : Limiter = record { rate_limit = limit; rate_window = window; times = [] } in
    let is_fresh : l ≡ fresh = ground arith in
    let empty : IsStrict limit window 0 [] [] = record {
      gone = tt;
      short = omega arith;
      strict = λ a. omega arith;
    } in
    rw is_fresh (omega (arith, serve_strict fresh rs 0 [] clock empty from))
