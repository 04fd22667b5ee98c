-- ===== src/Providers/StreamRecovery/Delivery.antt =====
-- What a client gets through the holdback buffer of providers/stream_recovery.py.
use free_claude_code_my_pr_i.Providers.StreamRecovery.{
  may_recover, add_event, new_buffer, may_retry_early, is_due, RecoveryHoldbackBuffer,
  advance_failure, push, Failure, flush,
}
use free_claude_code_my_pr_i.Prelude.{
  ℕ, ◌+◌, ◌<◌, String, ◌≡◌, refl, sym, ap, subst, ◌∙◌, inl, inr, true, false, false≢true, none,
  List, [], ◌∷◌, ◌++◌, arith, if◌then◌else◌, Bool-cases,
}

-- What the provider does with the controller: an event arrives, all is sent, or the stream fails.
pub data Action : Type 0 where
  pushes : ℕ → ℕ → String → Action
  flushes : Action
  fails : Failure → Action

-- The buffer, what was sent to the client, and the events of the attempt since the last early retry
pub record Delivery : Type 0 where
  pub buffer : RecoveryHoldbackBuffer
  pub sent : List String
  pub attempt : List String

unfoldable pub act : (String → ℕ) → Action → Delivery → Delivery
unfolding push flush advance_failure
act size (pushes start now event) d = record {
  buffer = (push size start now event d.buffer).1;
  sent = d.sent ++ (push size start now event d.buffer).0;
  attempt = d.attempt ++ event ∷ [];
}
act size flushes d = record d { buffer = (flush d.buffer).1; sent = d.sent ++ (flush d.buffer).0 }
act size (fails f) d = record d {
  buffer = (advance_failure f d.buffer).1;
  attempt = if may_retry_early f d.buffer then [] else d.attempt;
}

unfoldable pub run : (String → ℕ) → List Action → Delivery → Delivery
unfolding act
run size [] d = d
run size (a ∷ rest) d = run size rest (act size a d)

abbrev pub sizes : (String → ℕ) → List String → ℕ
sizes size [] = 0
sizes size (e ∷ es) = size e + sizes size es

-- What was sent and what is held back make up the attempt; before the commit nothing was sent and
-- less than the limit is held back, afterwards nothing is held back.
pub record IsFaithful (size : String → ℕ) (max_bytes : ℕ) (d : Delivery) : Type 0 where
  pub all_there : d.sent ++ d.buffer.events ≡ d.attempt
  pub unsent : d.buffer.committed ≡ false → d.sent ≡ []
  pub unheld : d.buffer.committed ≡ true → d.buffer.events ≡ []
  pub counted : d.buffer.bytes ≡ sizes size d.buffer.events
  pub limit : d.buffer.max_bytes ≡ max_bytes
  pub below : sizes size d.buffer.events < max_bytes

append_nil : (es : List String) → es ++ [] ≡ es
append_nil [] = refl
append_nil (e ∷ es) = ap (λ r. e ∷ r) (append_nil es)

append_assoc : (es fs gs : List String) → (es ++ fs) ++ gs ≡ es ++ (fs ++ gs)
append_assoc [] fs gs = refl
append_assoc (e ∷ es) fs gs = ap (λ r. e ∷ r) (append_assoc es fs gs)

sizes-append :
    (size : String → ℕ) (es fs : List String)
    → sizes size (es ++ fs) ≡ sizes size es + sizes size fs
sizes-append size [] fs = omega arith
sizes-append size (e ∷ es) fs = omega (arith, sizes-append size es fs)

abbrev committed_buffer : RecoveryHoldbackBuffer → RecoveryHoldbackBuffer
committed_buffer b = record b { committed = true; events = []; bytes = 0; started_at = none }

flush_done : (b : RecoveryHoldbackBuffer) → b.committed ≡ true → flush b ≡ ([], b)
unfolding flush
flush_done b done = ground arith

flush_open :
    (b : RecoveryHoldbackBuffer) → b.committed ≡ false → flush b ≡ (b.events, committed_buffer b)
unfolding flush
flush_open b open_ = ground arith

module _ (size : String → ℕ) (max_bytes : ℕ) (pos : 0 < max_bytes) (d : Delivery)
    (i : IsFaithful size max_bytes d) where
  -- The effect of an operation that sends events
  abbrev sends : List String → List String × RecoveryHoldbackBuffer → Delivery
  sends attempt r = record { buffer = r.1; sent = d.sent ++ r.0; attempt = attempt }

  flush-IsFaithful : IsFaithful size max_bytes (act size flushes d)
  unfolding act
  flush-IsFaithful = elim (Bool-cases d.buffer.committed) [
    | inl done ↦
        subst (λ r. IsFaithful size max_bytes (sends d.attempt r)) (sym (flush_done d.buffer done))
          (record {
            all_there = ap (λ es. es ++ d.buffer.events) (append_nil d.sent) ∙ i.all_there;
            unsent = λ e. append_nil d.sent ∙ i.unsent e;
            unheld = i.unheld;
            counted = i.counted;
            limit = i.limit;
            below = i.below;
          })
    | inr open_ ↦
        subst (λ r. IsFaithful size max_bytes (sends d.attempt r)) (sym (flush_open d.buffer open_))
          (record {
            all_there = append_nil (d.sent ++ d.buffer.events) ∙ i.all_there;
            unsent = λ e. absurd (cc e);
            unheld = λ e. refl;
            counted = refl;
            limit = i.limit;
            below = pos;
          })
  ]

  added_there :
      (event : String) → d.sent ++ (d.buffer.events ++ event ∷ []) ≡ d.attempt ++ event ∷ []
  added_there event =
      sym (append_assoc d.sent d.buffer.events (event ∷ []))
      ∙ ap (λ es. es ++ event ∷ []) i.all_there

  all_sent :
      (event : String)
      → d.buffer.committed ≡ true
      → (d.sent ++ event ∷ []) ++ d.buffer.events ≡ d.attempt ++ event ∷ []
  all_sent event done =
      ap (λ es. (d.sent ++ event ∷ []) ++ es) (i.unheld done)
      ∙ (append_nil (d.sent ++ event ∷ [])
          ∙ ap (λ es. es ++ event ∷ [])
              (sym (append_nil d.sent)
                ∙ (ap (λ es. d.sent ++ es) (sym (i.unheld done)) ∙ i.all_there)))

  still_below :
      (start now : ℕ) (event : String)
      → is_due now (add_event size start event d.buffer) ≡ false
      → sizes size (d.buffer.events ++ event ∷ []) < max_bytes
  still_below start now event early =
      let room : d.buffer.bytes + size event < d.buffer.max_bytes = ground arith in
      omega (arith, room, sizes-append size d.buffer.events (event ∷ []), i.counted, i.limit)

  push-IsFaithful :
      (start now : ℕ) (event : String)
      → IsFaithful size max_bytes (act size (pushes start now event) d)
  unfolding act
  push-IsFaithful start now event = elim (Bool-cases d.buffer.committed) [
    | inl done ↦
        let e : push size start now event d.buffer ≡ (event ∷ [], d.buffer) =
          unfold push in ground arith in
        subst (λ r. IsFaithful size max_bytes (sends (d.attempt ++ event ∷ []) r)) (sym e)
          (record {
            all_there = all_sent event done;
            unsent = λ f. absurd (false≢true (sym f ∙ done));
            unheld = i.unheld;
            counted = i.counted;
            limit = i.limit;
            below = i.below;
          })
    | inr open_ ↦ elim (Bool-cases (is_due now (add_event size start event d.buffer))) [
      | inl due ↦
          let b = add_event size start event d.buffer in
          let e : push size start now event d.buffer ≡ flush b = unfold push in ground arith in
          subst (λ r. IsFaithful size max_bytes (sends (d.attempt ++ event ∷ []) r))
            (sym (e ∙ flush_open b open_))
            (record {
              all_there = append_nil (d.sent ++ b.events) ∙ added_there event;
              unsent = λ f. absurd (cc f);
              unheld = λ f. refl;
              counted = refl;
              limit = i.limit;
              below = pos;
            })
      | inr early ↦
          let b = add_event size start event d.buffer in
          let e : push size start now event d.buffer ≡ ([], b) = unfold push in ground arith in
          subst (λ r. IsFaithful size max_bytes (sends (d.attempt ++ event ∷ []) r)) (sym e)
            (record {
              all_there = ap (λ es. es ++ b.events) (append_nil d.sent) ∙ added_there event;
              unsent = λ f. append_nil d.sent ∙ i.unsent f;
              unheld = λ f. absurd (false≢true (sym open_ ∙ f));
              counted = omega (arith, sizes-append size d.buffer.events (event ∷ []), i.counted);
              limit = i.limit;
              below = still_below start now event early;
            })
    ]
  ]

  fail-IsFaithful : (f : Failure) → IsFaithful size max_bytes (act size (fails f) d)
  unfolding act advance_failure new_buffer
  fail-IsFaithful f = elim (Bool-cases (may_retry_early f d.buffer)) [
    | inl retry ↦
        rw (retry, act, advance_failure)
          (record {
            all_there = append_nil d.sent ∙ i.unsent (uncommitted f retry);
            unsent = λ e. i.unsent (uncommitted f retry);
            unheld = λ e. refl;
            counted = refl;
            limit = i.limit;
            below = pos;
          })
    | inr stay ↦ elim (Bool-cases (may_recover f)) [
      | inl yes_ ↦ rw (stay, act, advance_failure) (rw yes_ i)
      | inr no_ ↦ rw (stay, act, advance_failure) (rw no_ i)
    ]
  ]
    where
      uncommitted : (f : Failure) → may_retry_early f d.buffer ≡ true → d.buffer.committed ≡ false
      uncommitted f h = unfold may_retry_early in ground arith

act-IsFaithful :
    (size : String → ℕ) (max_bytes : ℕ) (a : Action) (d : Delivery)
    → 0 < max_bytes
    → IsFaithful size max_bytes d
    → IsFaithful size max_bytes (act size a d)
act-IsFaithful size max_bytes (pushes start now event) d pos i =
    push-IsFaithful size max_bytes pos d i start now event
act-IsFaithful size max_bytes flushes d pos i = flush-IsFaithful size max_bytes pos d i
act-IsFaithful size max_bytes (fails f) d pos i = fail-IsFaithful size max_bytes pos d i f

-- Through any sequence of events, flushes and failures: what was sent to the client, followed by what
-- is held back, is exactly the events since the last early retry, in their order. Before the commit
-- nothing was sent, so an early retry is invisible to the client; after it nothing is held back; and
-- less than the limit, which is positive, is held back.
pub run-IsFaithful :
    (size : String → ℕ) (max_bytes : ℕ) (actions : List Action) (d : Delivery)
    → 0 < max_bytes
    → IsFaithful size max_bytes d
    → IsFaithful size max_bytes (run size actions d)
unfolding run
run-IsFaithful size max_bytes [] d pos i = i
run-IsFaithful size max_bytes (a ∷ rest) d pos i =
    run-IsFaithful size max_bytes rest (act size a d) pos (act-IsFaithful size max_bytes a d pos i)
