-- ===== src/Providers/ToolCalls/Processing.antt =====
-- A tool-call delta is processed: its block starts when the tool call has a name.
use free_claude_code_my_pr_i.Core.Streaming.Tools.{
  start_tool-keeps_started, start_tool-started, start_tool-Stays,
}
use free_claude_code_my_pr_i.Core.Streaming.Emit.{start_tool_block, yields_if}
use free_claude_code_my_pr_i.Providers.ToolCalls.Noting.{
  note_call-IsAsGood, ensured-IsAsGood, on_tool-IsAsGood,
}
use free_claude_code_my_pr_i.Providers.ToolCalls.Arguments.{
  buffer_at, Marked, IsAsGood, modify-keeps_started, from_good, nothing-Passes,
  emit_tool_arg_delta-Passes, Passes,
}
use free_claude_code_my_pr_i.Core.Streaming.Live.{
  Stays-Live, moved-Stays, finished-Stays, then-Stays, Stays, Live,
}
use free_claude_code_my_pr_i.Core.Streaming.Ledger.{Event}
use free_claude_code_my_pr_i.Core.Streaming.Block.{
  is_started, has_fields, ensure_tool_state, on_tool, StreamBlockLedger, ToolBlockState,
}
use free_claude_code_my_pr_i.Core.Streaming.Contract.{Checker}
use free_claude_code_my_pr_i.Providers.ToolCalls.{
  resolved_name, start_extra, note_call, nothing, call_index, resolved_id, on_ledger,
  record_extra_content, start_call, given_extra, process_tool_call, with_blocks,
  emit_tool_arg_delta, state_of, ◌>>>◌, Generates, record_given, emit_pre_start, emit_arguments,
  ToolCallDelta, ToolStream,
}
use free_claude_code_my_pr_i.Core.Streaming.Json.{Fields, Json}
use free_claude_code_my_pr_i.Prelude.Dict.{
  map_option, map_option, map_option, map_option, map_option, map_option, map_option, map_option,
  map_option, map_option, map_option, map_option, map_option, map_option, map_option, map_option,
  map_option, map_option, map_option, map_option, map_option, map_option, map_option, map_option,
  map_option, map_option, map_option, map_option, map_option, map_option, map_option, Dict,
}
use free_claude_code_my_pr_i.Prelude.Table.{Table}
use free_claude_code_my_pr_i.Prelude.Table
use free_claude_code_my_pr_i.Prelude.{
  ℕ, String, ◌≡◌, refl, sym, ap, subst, ◌∙◌, Bool, true, false, not, ◌&&◌, Option, none, some, List,
  [], arith, if◌then◌else◌, is_some, ◌⊕◌, is_empty, strip, by_test, by_option,
}

-- The invariant is kept by a generator.
pub record StaysIn (t : ToolStream) (c : Checker) (r : List Event × ToolStream) : Type 0 where
  pub stays : Stays t.ledger c (r.0, r.1.ledger)
  pub marked : Marked t → Marked r.1

pub still-StaysIn : (t : ToolStream) (c : Checker) → Live t.ledger c → StaysIn t c ([], t)
still-StaysIn t c h = record { stays = finished-Stays t.ledger c h; marked = λ m. m }

pub Passes-StaysIn :
    (t : ToolStream) (c : Checker) (r : List Event × ToolStream) → Passes t c r → StaysIn t c r
Passes-StaysIn t c r h = record { stays = h.stays; marked = h.marked }

pub StaysIn-Live :
    (t : ToolStream) (c : Checker) (r : List Event × ToolStream) (h : StaysIn t c r)
    → Live r.1.ledger h.stays.follows.after
StaysIn-Live t c r h = Stays-Live t.ledger c (r.0, r.1.ledger) h.stays

-- The ledger and the buffers are those of another state.
pub from_same :
    (t t' : ToolStream) (c : Checker) (r : List Event × ToolStream)
    → t'.ledger ≡ t.ledger
    → t'.alias_buffers ≡ t.alias_buffers
    → Live t.ledger c
    → (Live t'.ledger c → StaysIn t' c r)
    → StaysIn t c r
from_same t t' c r e e' h k = record {
  stays = subst (λ l. Stays l c (r.0, r.1.ledger)) e (k (subst (λ l. Live l c) (sym e) h)).stays;
  marked = λ m. (k (subst (λ l. Live l c) (sym e) h)).marked (λ i b.
      ap (λ l. is_started (Table.get i l.blocks.tool_states)) e
      ∙ m i (ap (λ o. is_some (buffer_at i o)) (sym e') ∙ b));
}

pub then-StaysIn :
    (t : ToolStream) (c : Checker) (f g : Generates)
    → StaysIn t c (f t)
    → ((c' : Checker) → Live (f t).1.ledger c' → StaysIn (f t).1 c' (g (f t).1))
    → StaysIn t c ((f >>> g) t)
then-StaysIn t c f g h k = record {
  stays =
      then-Stays t.ledger c (λ _. ((f t).0, (f t).1.ledger))
        (λ _. ((g (f t).1).0, (g (f t).1).1.ledger)) h.stays (λ c' h'. (k c' h').stays);
  marked = λ m. (k h.stays.follows.after (StaysIn-Live t c (f t) h)).marked (h.marked m);
}

ledger-record_extra :
    (tool_id : String) (extra : Option Fields) (t : ToolStream)
    → (record_extra_content tool_id extra t).ledger ≡ t.ledger
unfolding record_extra_content
ledger-record_extra tool_id none t = refl
ledger-record_extra tool_id (some d) t = refl

buffers-record_extra :
    (tool_id : String) (extra : Option Fields) (t : ToolStream)
    → (record_extra_content tool_id extra t).alias_buffers ≡ t.alias_buffers
unfolding record_extra_content
buffers-record_extra tool_id none t = refl
buffers-record_extra tool_id (some d) t = refl

noted :
    (t : ToolStream) (c : Checker) (r : List Event × ToolStream) (b : StreamBlockLedger)
    → IsAsGood t.ledger c b
    → StaysIn (with_blocks (λ _. b) t) c r
    → StaysIn t c r
noted t c r b good h = record {
  stays =
      moved-Stays t.ledger (with_blocks (λ _. b) t).ledger c (r.0, r.1.ledger) refl refl h.stays;
  marked = λ m. h.marked (λ i at. good.started i ∙ m i at);
}

good_stays :
    (t : ToolStream) (c : Checker) (b : StreamBlockLedger)
    → IsAsGood t.ledger c b
    → StaysIn t c ([], with_blocks (λ _. b) t)
good_stays t c b good = record {
  stays =
      moved-Stays t.ledger (with_blocks (λ _. b) t).ledger c ([], (with_blocks (λ _. b) t).ledger)
        refl refl (finished-Stays (with_blocks (λ _. b) t).ledger c good.live);
  marked = λ m i at. good.started i ∙ m i at;
}

ledger-record_given :
    (tc : ToolCallDelta) (o : Option ToolBlockState) (t : ToolStream)
    → (record_given tc o t).ledger ≡ t.ledger
ledger-record_given tc none t = refl
ledger-record_given tc (some s) t =
    by_test (λ (u : ToolStream). u.ledger ≡ t.ledger) (is_empty s.tool_id) _ _ (λ _. refl)
      (λ _. ledger-record_extra s.tool_id (given_extra tc) t)

buffers-record_given :
    (tc : ToolCallDelta) (o : Option ToolBlockState) (t : ToolStream)
    → (record_given tc o t).alias_buffers ≡ t.alias_buffers
buffers-record_given tc none t = refl
buffers-record_given tc (some s) t =
    by_test (λ (u : ToolStream). u.alias_buffers ≡ t.alias_buffers) (is_empty s.tool_id) _ _
      (λ _. refl) (λ _. buffers-record_extra s.tool_id (given_extra tc) t)

started_of :
    (o : Option ToolBlockState) → map_option (λ s. s.started) o ≡ some true → is_started o ≡ true
started_of none e = ground (arith, e)
started_of (some s) e = ground (arith, e)

module _ (loads : String → Option Json) (dumps : Json → String) (fresh_id : String)
    (aliases : Dict (Dict String)) where
  emit_pre_start-Passes :
      (i : ℕ) (t : ToolStream) (c : Checker)
      → Live t.ledger c
      → is_started (state_of i t) ≡ true
      → Passes t c (emit_pre_start loads dumps fresh_id aliases i t)
  unfolding emit_pre_start
  emit_pre_start-Passes i t c h on =
      let clear : ToolBlockState → ToolBlockState = λ s'. record s' { pre_start_args = "" } in
      let b : StreamBlockLedger = on_tool i clear t.ledger.blocks in
      by_option (Passes t c) (state_of i t) _ _ (λ _. nothing-Passes t c h)
        (λ s _.
          by_test (Passes t c) (is_empty s.pre_start_args) _ _ (λ _. nothing-Passes t c h)
            (λ _.
              from_good t c b
                (emit_tool_arg_delta loads dumps aliases i s.pre_start_args
                  (with_blocks (λ _. b) t))
                (on_tool-IsAsGood t.ledger c h i clear (λ s'. (refl, refl, refl)))
                (λ h'.
                  emit_tool_arg_delta-Passes loads dumps aliases i s.pre_start_args
                    (with_blocks (λ _. b) t) c h'
                    (modify-keeps_started i i clear t.ledger.blocks.tool_states (λ s'. refl)
                      ∙ on))))

  emit_arguments-StaysIn :
      (tc : ToolCallDelta) (i : ℕ) (name : String) (t : ToolStream) (c : Checker)
      → Live t.ledger c
      → (is_started (state_of i t) ≡ false → is_empty (strip name) ≡ true)
      → StaysIn t c (emit_arguments loads dumps fresh_id aliases tc i name t)
  unfolding emit_arguments
  emit_arguments-StaysIn tc i name t c h waits =
      let wait : ToolBlockState → ToolBlockState =
        λ s. record s { pre_start_args = s.pre_start_args ⊕ tc.arguments } in
      by_test (StaysIn t c) (is_empty tc.arguments) _ _ (λ _. still-StaysIn t c h)
        (λ _.
          by_test (StaysIn t c) (is_started (state_of i t)) _ _
            (λ on.
              Passes-StaysIn t c (emit_tool_arg_delta loads dumps aliases i tc.arguments t)
                (emit_tool_arg_delta-Passes loads dumps aliases i tc.arguments t c h on))
            (λ off.
              by_test (StaysIn t c) (is_empty (strip name)) _ _
                (λ _.
                  good_stays t c (on_tool i wait (ensure_tool_state i t.ledger.blocks))
                    (ensured-IsAsGood t.ledger c h i wait (λ s. (refl, refl, refl))))
                (λ named. ground (arith, named, waits off))))

  -- The invariant is kept, and the tool call `i` is started afterwards.
  record Starts (i : ℕ) (t : ToolStream) (c : Checker) (r : List Event × ToolStream) : Type 0 where
    stays : StaysIn t c r
    started : is_started (state_of i r.1) ≡ true

  Starts-of :
      (i : ℕ) (t : ToolStream) (c : Checker) (r : List Event × ToolStream)
      → StaysIn t c r
      → is_started (state_of i r.1) ≡ true
      → Starts i t c (((λ _. r) >>> emit_pre_start loads dumps fresh_id aliases i) t)
  Starts-of i t c r h on = record {
    stays =
        then-StaysIn t c (λ _. r) (emit_pre_start loads dumps fresh_id aliases i) h
          (λ c' h'.
            Passes-StaysIn r.1 c' (emit_pre_start loads dumps fresh_id aliases i r.1)
              (emit_pre_start-Passes i r.1 c' h' on));
    started =
        (emit_pre_start-Passes i r.1 h.stays.follows.after (StaysIn-Live t c r h) on).started i
        ∙ on;
  }

  -- The call is started from a state whose ledger is that of `t`.
  started_call-Starts :
      (i : ℕ) (tool_id name : String) (extra : Option Fields) (t t' : ToolStream) (c : Checker)
      → Live t.ledger c
      → t'.ledger ≡ t.ledger
      → t'.alias_buffers ≡ t.alias_buffers
      → is_started (state_of i t) ≡ false
      → Starts i t c (
          (on_ledger (yields_if true (start_tool_block i tool_id name extra))
              >>> emit_pre_start loads dumps fresh_id aliases i)
            t')
  started_call-Starts i tool_id name extra t t' c h e e' off =
      let f : Generates = on_ledger (yields_if true (start_tool_block i tool_id name extra)) in
      Starts-of i t c (f t')
        (from_same t t' c (f t') e e' h (λ h'. record {
          stays =
              start_tool-Stays t'.ledger c h' i tool_id name extra
                (λ s at. ground (arith, at, e, off));
          marked = λ m j at. start_tool-keeps_started j i tool_id name extra t'.ledger (m j at);
        }))
        (started_of (state_of i (f t').1) (start_tool-started i tool_id name extra t'.ledger))

  start_call-Starts :
      (tc : ToolCallDelta) (i : ℕ) (state : Option ToolBlockState) (t : ToolStream) (c : Checker)
      → Live t.ledger c
      → is_started (state_of i t) ≡ false
      → Starts i t c (start_call loads dumps fresh_id aliases tc i state t)
  unfolding start_call
  start_call-Starts tc i state t c h off =
      let tool_id = resolved_id loads dumps fresh_id aliases tc state in
      let extra = start_extra tc state in
      started_call-Starts i tool_id (strip (resolved_name state)) extra t
        (if has_fields extra then record_extra_content tool_id extra t else t) c h
        (by_test (λ (u : ToolStream). u.ledger ≡ t.ledger) (has_fields extra) _ _
          (λ _. ledger-record_extra tool_id extra t) (λ _. refl))
        (by_test (λ (u : ToolStream). u.alias_buffers ≡ t.alias_buffers) (has_fields extra) _ _
          (λ _. buffers-record_extra tool_id extra t) (λ _. refl))
        off

  given-StaysIn :
      (tc : ToolCallDelta) (i : ℕ) (name : String) (t : ToolStream) (c : Checker)
      → Live t.ledger c
      → (is_started (state_of i t) ≡ false → is_empty (strip name) ≡ true)
      → StaysIn t c
          (emit_arguments loads dumps fresh_id aliases tc i name (record_given tc (state_of i t) t))
  given-StaysIn tc i name t c h waits =
      let u : ToolStream = record_given tc (state_of i t) t in
      let e : u.ledger ≡ t.ledger = ledger-record_given tc (state_of i t) t in
      let r : List Event × ToolStream = emit_arguments loads dumps fresh_id aliases tc i name u in
      from_same t u c r e (buffers-record_given tc (state_of i t) t) h (λ h'.
        emit_arguments-StaysIn tc i name u c h'
          (λ off. waits (ap (λ l. is_started (Table.get i l.blocks.tool_states)) (sym e) ∙ off)))

  processed-StaysIn :
      (b : Bool) (tc : ToolCallDelta) (i : ℕ) (state : Option ToolBlockState) (name : String)
      (t : ToolStream) (c : Checker)
      → Live t.ledger c
      → (b ≡ true → is_started (state_of i t) ≡ false)
      → (b ≡ false → is_started (state_of i t) ≡ false → is_empty (strip name) ≡ true)
      → StaysIn t c (
          ((λ u. if b then start_call loads dumps fresh_id aliases tc i state u else ([], u))
              >>> (λ u.
                  emit_arguments loads dumps fresh_id aliases tc i name
                    (record_given tc (state_of i u) u)))
            t)
  processed-StaysIn true tc i state name t c h off waits =
      then-StaysIn t c (start_call loads dumps fresh_id aliases tc i state)
        (λ u.
          emit_arguments loads dumps fresh_id aliases tc i name (record_given tc (state_of i u) u))
        (start_call-Starts tc i state t c h (off refl)).stays
        (λ c' h'.
          given-StaysIn tc i name (start_call loads dumps fresh_id aliases tc i state t).1 c' h'
            (λ off'. ground (arith, off', (start_call-Starts tc i state t c h (off refl)).started)))
  processed-StaysIn false tc i state name t c h off waits =
      then-StaysIn t c nothing
        (λ u.
          emit_arguments loads dumps fresh_id aliases tc i name (record_given tc (state_of i u) u))
        (still-StaysIn t c h) (λ c' h'. given-StaysIn tc i name t c' h' (waits refl))

  pub process_tool_call-StaysIn :
      (tc : ToolCallDelta) (t : ToolStream) (c : Checker)
      → Live t.ledger c
      → StaysIn t c (process_tool_call loads dumps fresh_id aliases tc t)
  unfolding process_tool_call
  process_tool_call-StaysIn tc t c h =
      let i : ℕ = call_index tc t in
      let t1 : ToolStream = with_blocks (note_call tc i) t in
      let state : Option ToolBlockState = state_of i t1 in
      let name : String = resolved_name state in
      let starts : Bool = not (is_started state) && not (is_empty (strip name)) in
      let r : List Event × ToolStream = process_tool_call loads dumps fresh_id aliases tc t in
      let done : StaysIn t1 c r =
        processed-StaysIn starts tc i state name t1 c (note_call-IsAsGood t.ledger c tc i h).live
          (λ e. ground (arith, e)) (λ e off. ground (arith, e, off)) in
      noted t c r t1.ledger.blocks (note_call-IsAsGood t.ledger c tc i h) done
