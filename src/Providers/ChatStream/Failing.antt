-- ===== src/Providers/ChatStream/Failing.antt =====
-- A stream that fails: its open blocks are closed before the error.
use mathlib.Core.List.{append_assoc}
use free_claude_code_my_pr_i.Providers.ChatStream.Contract.{ends_well_of, all_true}
use free_claude_code_my_pr_i.Providers.ChatStream.Seen.{content-seen, seen_events}
use free_claude_code_my_pr_i.Core.Streaming.Calls.{check_events-append}
use free_claude_code_my_pr_i.Providers.ChatStream.Parts.{write_parts-StaysIn}
use free_claude_code_my_pr_i.Core.Streaming.Closing.{close_indexes-Follows, close_indexes-empty}
use free_claude_code_my_pr_i.Core.Streaming.Follows.{Follows}
use free_claude_code_my_pr_i.Providers.ChatStream.Whole.{
  ends_terminal-append, begun-Live, finished-well, new_stream,
}
use free_claude_code_my_pr_i.Providers.ToolCalls.Processing.{StaysIn}
use free_claude_code_my_pr_i.Core.Streaming.Emit.{
  yields_if, close_unclosed_blocks, has_content_block,
}
use free_claude_code_my_pr_i.Providers.ChatStream.{fail_response, write_parts, Part}
use free_claude_code_my_pr_i.Core.Streaming.Ledger.{
  message_stop, message_delta, content_block_stop, content_block_delta, start_message,
  content_block_start, message_start, AnthropicStreamLedger, member, Event,
}
use free_claude_code_my_pr_i.Core.Streaming.Json.{Json}
use free_claude_code_my_pr_i.Core.Streaming.Contract.{
  ends_well, ends_terminal, has_message_start, new_checker, is_finished, meets_contract, Checker,
  check_events, check_event,
}
use free_claude_code_my_pr_i.Core.Streaming.Sync.{open_kind}
use free_claude_code_my_pr_i.Providers.ToolCalls.{on_ledger, ToolStream}
use free_claude_code_my_pr_i.Prelude.Dict.{Dict}
use free_claude_code_my_pr_i.Prelude.{
  ℕ, String, ◌≡◌, refl, sym, ap, ◌∙◌, inl, inr, Bool, true, false, Option, none, some, List, [],
  ◌∷◌, ◌++◌, arith, Option-cases,
}

allowed_event :
    (e : Event) (c d : Checker) → check_event false e c ≡ some d → check_event true e c ≡ some d
unfolding check_event
allowed_event (message_start m) c d k = k
allowed_event (content_block_start i block) c d k = k
allowed_event (content_block_delta i x) c d k = k
allowed_event (content_block_stop i) c d k = k
allowed_event (message_delta s u) c d k = k
allowed_event message_stop c d k = k
allowed_event (Event.error s) c d k = ground (arith, k)

-- What passes without errors passes where errors are allowed.
allowed_events :
    (es : List Event) (c d : Checker)
    → check_events false es c ≡ some d
    → check_events true es c ≡ some d
unfolding check_events
allowed_events [] c d k = k
allowed_events (e ∷ es) c d k = elim (Option-cases (check_event false e c)) [
  | inl o ↦ ground (arith, o, k)
  | inr (x, o) ↦ ground (arith, allowed_event e c x o, allowed_events es x d (ground (arith, o, k)))
]

stack-none :
    (l : AnthropicStreamLedger)
    → l.open_stack ≡ []
    → (i : ℕ) → open_kind l.open_stack l.content_blocks i ≡ none
unfolding open_kind member
stack-none l e i = ground (arith, e)

module _ (loads : String → Option Json) (dumps : Json → String) (aliases : Dict (Dict String))
    (message_id model : String) (input_tokens : Option ℕ) (with_aliases shown : Bool)
    (parts : List Part) (message : String) where
  abbrev start : ToolStream
  start = new_stream message_id model input_tokens with_aliases

  abbrev begun : ToolStream
  begun = (on_ledger (yields_if true start_message) start).1

  -- The stream up to the failure.
  abbrev pub written : List Event × ToolStream
  written = write_parts loads dumps aliases shown parts begun

  written-StaysIn : StaysIn begun new_checker written
  written-StaysIn =
      write_parts-StaysIn loads dumps aliases shown parts begun new_checker
        (begun-Live message_id model input_tokens)

  abbrev before : Checker
  before = written-StaysIn.stays.follows.after

  closing-Follows : Follows written.1.ledger before (close_unclosed_blocks written.1.ledger)
  unfolding close_unclosed_blocks
  closing-Follows =
      close_indexes-Follows written.1.ledger.open_stack written.1.ledger before
        written-StaysIn.stays.follows.sync refl

  closed : (close_unclosed_blocks written.1.ledger).1.open_stack ≡ []
  unfolding close_unclosed_blocks
  closed = close_indexes-empty written.1.ledger.open_stack written.1.ledger refl

  checked :
      check_events true
        (written.0 ++ ((close_unclosed_blocks written.1.ledger).0 ++ Event.error message ∷ []))
        new_checker
      ≡ some closing-Follows.after
  unfolding check_events check_event
  checked =
      check_events-append true written.0
        ((close_unclosed_blocks written.1.ledger).0 ++ Event.error message ∷ []) new_checker before
        (allowed_events written.0 new_checker before written-StaysIn.stays.follows.checks)
      ∙ check_events-append true (close_unclosed_blocks written.1.ledger).0
          (Event.error message ∷ []) before closing-Follows.after
          (allowed_events (close_unclosed_blocks written.1.ledger).0 before closing-Follows.after
            closing-Follows.checks)

  finished_after :
      has_content_block written.1.ledger ≡ true → is_finished closing-Follows.after ≡ true
  finished_after has =
      finished-well (close_unclosed_blocks written.1.ledger).1 closing-Follows.after
        closing-Follows.sync (stack-none (close_unclosed_blocks written.1.ledger).1 closed)
        (seen_events false (close_unclosed_blocks written.1.ledger).0 before closing-Follows.after
          closing-Follows.checks
          (content-seen written.1.ledger before written-StaysIn.stays.follows.sync has))

  -- A stream that fails after it has started a block meets the contract with errors allowed: whatever was
  -- open is stopped before the error, which is the last event, and nothing is left open in the ledger.
  pub failure-meets_contract :
      has_content_block written.1.ledger ≡ true
      → let r = fail_response loads dumps aliases shown parts message start in
        (meets_contract true r.0 ≡ true) × (r.1.ledger.open_stack ≡ [])
  unfolding meets_contract fail_response has_message_start start_message check_events check_event
      ends_terminal
  failure-meets_contract has =
      let es : List Event = (close_unclosed_blocks written.1.ledger).0 in
      (
        all_true true
            (ends_terminal true
              (((start_message start.ledger).0 ∷ written.0) ++ (es ++ Event.error message ∷ [])))
            (ends_well (
              check_events true
                ((start_message start.ledger).0 ∷ (written.0 ++ (es ++ Event.error message ∷ [])))
                new_checker))
            refl
            (ap (ends_terminal true) (
                sym (
                  append_assoc ((start_message start.ledger).0 ∷ written.0) es
                    (Event.error message ∷ [])))
              ∙ ends_terminal-append true (((start_message start.ledger).0 ∷ written.0) ++ es)
                  (Event.error message) [])
            (ends_well_of
              (check_events true
                ((start_message start.ledger).0 ∷ (written.0 ++ (es ++ Event.error message ∷ [])))
                new_checker)
              closing-Follows.after checked (finished_after has)),
        closed,
      )
