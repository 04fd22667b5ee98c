-- ===== src/Core/Streaming/Calls.antt =====
-- The calls of a ledger, one after another: what they emit is accepted, and their texts add up.
use free_claude_code_my_pr_i.Core.Streaming.Emit.{
  accumulated_reasoning, accumulated_text, finished, ◌>>◌,
}
use free_claude_code_my_pr_i.Core.Streaming.Follows.{Follows}
use free_claude_code_my_pr_i.Core.Streaming.Sync.{Sync}
use free_claude_code_my_pr_i.Core.Streaming.Ledger.{Yields, Event, AnthropicStreamLedger}
use free_claude_code_my_pr_i.Core.Streaming.Contract.{
  check_event, text_of, thinking_of, Checker, thinking_content_of, text_content_of, check_events,
}
use text.Mathlib.TextLemmas.{append_assoc, append-nil, nil-append}
use free_claude_code_my_pr_i.Prelude.{
  ◌≡◌, refl, sym, ap, ◌∙◌, inl, inr, Bool, false, some, List, [], ◌∷◌, ◌++◌, arith, Option-cases,
  join, ◌⊕◌,
}

abbrev pub one : Event × AnthropicStreamLedger → List Event × AnthropicStreamLedger
one r = (r.0 ∷ [], r.1)

pub check_events-append :
    (b : Bool) (xs ys : List Event) (c c' : Checker)
    → check_events b xs c ≡ some c'
    → check_events b (xs ++ ys) c ≡ check_events b ys c'
unfolding check_events
check_events-append b [] ys c c' e = ap (check_events b ys) (ground (arith, e))
check_events-append b (x ∷ xs) ys c c' e = elim (Option-cases (check_event b x c)) [
  | inl o ↦ ground (arith, o, e)
  | inr (d, o) ↦ ground (arith, o, e, check_events-append b xs ys d c')
]

pub text_content_of-append :
    (xs ys : List Event) → text_content_of (xs ++ ys) ≡ text_content_of xs ⊕ text_content_of ys
unfolding text_content_of
text_content_of-append [] ys = sym (nil-append (text_content_of ys))
text_content_of-append (x ∷ xs) ys =
    ap (λ s. text_of x ⊕ s) (text_content_of-append xs ys)
    ∙ sym (append_assoc (text_of x) (text_content_of xs) (text_content_of ys))

pub thinking_content_of-append :
    (xs ys : List Event)
    → thinking_content_of (xs ++ ys) ≡ thinking_content_of xs ⊕ thinking_content_of ys
unfolding thinking_content_of
thinking_content_of-append [] ys = sym (nil-append (thinking_content_of ys))
thinking_content_of-append (x ∷ xs) ys =
    ap (λ s. thinking_of x ⊕ s) (thinking_content_of-append xs ys)
    ∙ sym (append_assoc (thinking_of x) (thinking_content_of xs) (thinking_content_of ys))

pub finished-Follows :
    (l : AnthropicStreamLedger) (c : Checker) → Sync l c → Follows l c (finished l)
unfolding check_events text_content_of thinking_content_of
finished-Follows l c h = record {
  after = c;
  checks = refl;
  sync = h;
  text = sym (append-nil (accumulated_text l));
  reasoning = sym (append-nil (accumulated_reasoning l));
}

-- One generator after another.
pub then-Follows :
    (l : AnthropicStreamLedger) (c : Checker) (f g : Yields)
    → Follows l c (f l)
    → ((c' : Checker) → Sync (f l).1 c' → Follows (f l).1 c' (g (f l).1))
    → Follows l c ((f >> g) l)
then-Follows l c f g h k = glue (k h.after h.sync)
  where
    glue : Follows (f l).1 h.after (g (f l).1) → Follows l c ((f >> g) l)
    glue r = record {
      after = r.after;
      checks = check_events-append false (f l).0 (g (f l).1).0 c h.after h.checks ∙ r.checks;
      sync = r.sync;
      text =
          r.text
          ∙ ap (λ s. s ⊕ text_content_of (g (f l).1).0) h.text
          ∙ append_assoc (accumulated_text l) (text_content_of (f l).0)
              (text_content_of (g (f l).1).0)
          ∙ ap (λ s. accumulated_text l ⊕ s) (sym (text_content_of-append (f l).0 (g (f l).1).0));
      reasoning =
          r.reasoning
          ∙ ap (λ s. s ⊕ thinking_content_of (g (f l).1).0) h.reasoning
          ∙ append_assoc (accumulated_reasoning l) (thinking_content_of (f l).0)
              (thinking_content_of (g (f l).1).0)
          ∙ ap (λ s. accumulated_reasoning l ⊕ s)
              (sym (thinking_content_of-append (f l).0 (g (f l).1).0));
    }

-- From another ledger with the same texts.
pub moved :
    (l l' : AnthropicStreamLedger) (c : Checker) (r : List Event × AnthropicStreamLedger)
    → l.text_parts ≡ l'.text_parts
    → l.thinking_parts ≡ l'.thinking_parts
    → Follows l' c r
    → Follows l c r
moved l l' c r e k f = record {
  after = f.after;
  checks = f.checks;
  sync = f.sync;
  text = f.text ∙ ap (λ ps. join ps ⊕ text_content_of r.0) (sym e);
  reasoning = f.reasoning ∙ ap (λ ps. join ps ⊕ thinking_content_of r.0) (sym k);
}

-- One event, with the text that it adds.
pub event-Follows :
    (l l' : AnthropicStreamLedger) (c c' : Checker) (e : Event)
    → check_event false e c ≡ some c'
    → Sync l' c'
    → accumulated_text l' ≡ accumulated_text l ⊕ text_of e
    → accumulated_reasoning l' ≡ accumulated_reasoning l ⊕ thinking_of e
    → Follows l c (e ∷ [], l')
unfolding check_events text_content_of thinking_content_of
event-Follows l l' c c' e checks h te he = record {
  after = c';
  checks = rw (checks, check_events) refl;
  sync = h;
  text = te ∙ ap (λ s. accumulated_text l ⊕ s) (sym (append-nil (text_of e)));
  reasoning = he ∙ ap (λ s. accumulated_reasoning l ⊕ s) (sym (append-nil (thinking_of e)));
}

-- One event, which adds no text.
pub silent-Follows :
    (l l' : AnthropicStreamLedger) (c c' : Checker) (e : Event)
    → check_event false e c ≡ some c'
    → Sync l' c'
    → text_of e ≡ ""
    → thinking_of e ≡ ""
    → l'.text_parts ≡ l.text_parts
    → l'.thinking_parts ≡ l.thinking_parts
    → Follows l c (e ∷ [], l')
silent-Follows l l' c c' e checks h te he tp hp =
    event-Follows l l' c c' e checks h
      (ap join tp ∙ sym (append-nil (join l.text_parts)) ∙ ap (λ s. join l.text_parts ⊕ s) (sym te))
      (ap join hp
        ∙ sym (append-nil (join l.thinking_parts))
        ∙ ap (λ s. join l.thinking_parts ⊕ s) (sym he))
