-- ===== src/Providers/StreamRecovery.antt =====
-- providers/stream_recovery.py: the holdback buffer and the decision on a failure. `size` is the
-- length of an event in bytes. Whether an error is retryable is an argument.
pub mod Delivery
pub mod Tests
use free_claude_code_my_pr_i.Prelude.{
  ℕ, zero, suc, ◌+◌, ◌-◌, ◌*◌, ◌/◌, ◌%◌, ◌^◌, ◌≤◌, ◌<◌, min, max, String, ◌≡◌, refl, sym, ap, subst,
  ◌∙◌, ◌≢◌, ◌↔◌, ◌⊎◌, inl, inr, Bool, true, false, not, ◌&&◌, ◌||◌, false≢true, Option, none, some,
  List, [], ◌∷◌, ◌++◌, map, arith, str_eq, eq_iff, ltb, leb, ◌==◌, if◌then◌else◌, ltb→lt, leb→le,
  ==_iff, Bool-cases, Option-cases, is_some, length, length-append, All, All-append, All-map,
  list_cases,
}

pub data RecoveryFailureAction : Type 0 where
  early_retry midstream_recovery final_error : RecoveryFailureAction

pub record RecoveryDecision : Type 0 where
  pub action : RecoveryFailureAction
  pub retryable : Bool
  pub committed : Bool
  pub has_buffered : Bool

pub record RecoveryHoldbackBuffer : Type 0 where
  pub holdback_seconds : ℕ
  pub max_bytes : ℕ
  pub events : List String
  pub bytes : ℕ
  pub started_at : Option ℕ
  pub committed : Bool

unfoldable pub new_buffer : ℕ → ℕ → RecoveryHoldbackBuffer
new_buffer holdback_seconds max_bytes = record {
  holdback_seconds = holdback_seconds;
  max_bytes = max_bytes;
  events = [];
  bytes = 0;
  started_at = none;
  committed = false;
}

unfoldable pub flush : RecoveryHoldbackBuffer → List String × RecoveryHoldbackBuffer
flush b =
    if b.committed
    then ([], b)
    else (b.events, record b { committed = true; events = []; bytes = 0; started_at = none })

abbrev pub started : ℕ → RecoveryHoldbackBuffer → ℕ
started now b = elim b.started_at [ none ↦ now | some t ↦ t ]

abbrev pub add_event : (String → ℕ) → ℕ → String → RecoveryHoldbackBuffer → RecoveryHoldbackBuffer
add_event size start event b = record b {
  started_at = some (started start b);
  events = b.events ++ event ∷ [];
  bytes = b.bytes + size event;
}

-- Is the buffer full, or has it waited long enough?
abbrev pub is_due : ℕ → RecoveryHoldbackBuffer → Bool
is_due now b = leb b.max_bytes b.bytes || leb (started now b + b.holdback_seconds) now

-- `start` and `now` are the two readings of the clock.
unfoldable pub push :
    (String → ℕ) → ℕ → ℕ → String → RecoveryHoldbackBuffer → List String × RecoveryHoldbackBuffer
unfolding flush
push size start now event b =
    if b.committed
    then (event ∷ [], b)
    else if is_due now (add_event size start event b)
    then flush (add_event size start event b)
    else ([], add_event size start event b)

unfoldable pub discard : RecoveryHoldbackBuffer → RecoveryHoldbackBuffer
discard b = record b { events = []; bytes = 0; started_at = none }

unfoldable pub has_buffered : RecoveryHoldbackBuffer → Bool
has_buffered b = not (length b.events == 0)

unfoldable pub flush_uncommitted :
    RecoveryDecision → RecoveryHoldbackBuffer → List String × RecoveryHoldbackBuffer
unfolding flush
flush_uncommitted d b = if not d.committed && d.has_buffered then flush b else ([], b)

-- The arguments of `advance_failure`; `retryable` is the override or, without one, what
-- `is_retryable_stream_error` says.
pub record Failure : Type 0 where
  pub retryable : Bool
  pub stream_opened : Bool
  pub generated_output : Bool
  pub complete_tool_salvageable : Bool
  pub attempts_remaining : ℕ

-- The test for a retry that the client does not see
unfoldable pub may_retry_early : Failure → RecoveryHoldbackBuffer → Bool
may_retry_early f b =
    f.retryable
    && (ltb 0 f.attempts_remaining
        && (f.stream_opened
            && (not b.committed
                && (not f.complete_tool_salvageable
                    && not (f.generated_output && (f.attempts_remaining == 1))))))

unfoldable pub may_recover : Failure → Bool
may_recover f =
    f.retryable
    && (f.generated_output && (ltb 0 f.attempts_remaining || f.complete_tool_salvageable))

-- An early retry starts with a new buffer.
unfoldable pub advance_failure :
    Failure → RecoveryHoldbackBuffer → RecoveryDecision × RecoveryHoldbackBuffer
unfolding may_retry_early may_recover has_buffered new_buffer
advance_failure f b =
    if may_retry_early f b
    then (
      record {
        action = early_retry;
        retryable = true;
        committed = false;
        has_buffered = has_buffered b;
      },
      new_buffer b.holdback_seconds b.max_bytes,
    )
    else if may_recover f
    then (
      record {
        action = midstream_recovery;
        retryable = true;
        committed = b.committed;
        has_buffered = has_buffered b;
      },
      b,
    )
    else (
      record {
        action = final_error;
        retryable = f.retryable;
        committed = b.committed;
        has_buffered = has_buffered b;
      },
      b,
    )
