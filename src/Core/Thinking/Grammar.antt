-- ===== src/Core/Thinking/Grammar.antt =====
-- What the parser of core/anthropic/thinking.py makes of a text.
use free_claude_code_my_pr_i.Core.Thinking.Find.{
  take-drop, drop-zero, find-take, IsAfter, find-split, take-zero, length-drop,
}
use free_claude_code_my_pr_i.Core.Thinking.{
  stands_before, parse_outside_think, before_tag, parse_inside_think, outside_at, is_partial, parse,
  last_bracket, emit, ThinkTagParser, emit_safe, chunk_of, close_tag, open_tag, text, yield_chunk,
  ContentChunk, thinking, Text, drop, ContentType, find, take,
}
use free_claude_code_my_pr_i.Prelude.{
  ℕ, zero, suc, ◌+◌, ◌<◌, ◌≡◌, refl, ap, subst, ◌∙◌, ◌⊎◌, inl, inr, Bool, true, false, ◌||◌, Option,
  none, some, List, [], ◌∷◌, ◌++◌, arith, if◌then◌else◌, Bool-cases, Option-cases, length,
}

abbrev pub type_of : Bool → ContentType
type_of true = thinking
type_of false = text

-- No tag of the mode stands in a content: outside of thinking neither tag, within it no closing tag.
abbrev pub IsClean : Bool → Text → Type 0
IsClean false c = (find open_tag c ≡ none) × (find close_tag c ≡ none)
IsClean true c = find close_tag c ≡ none

-- The grammar: from a mode, a text is contents, which are chunks of the mode's type, and tags, which
-- change the mode; a closing tag outside of thinking is dropped. What is left has the last mode.
pub data Splits : Bool → Text → List ContentChunk → Bool → Text → Type 0 where
  nothing : (m : Bool) (s : Text) → Splits m s [] m s
  content :
      (m m' : Bool) (c s r : Text) (cs : List ContentChunk)
      → IsClean m c
      → Splits m s cs m' r
      → Splits m (c ++ s) (record { type = type_of m; content = c } ∷ cs) m' r
  opened :
      (m' : Bool) (s r : Text) (cs : List ContentChunk)
      → Splits true s cs m' r
      → Splits false (open_tag ++ s) cs m' r
  closed :
      (m m' : Bool) (s r : Text) (cs : List ContentChunk)
      → Splits false s cs m' r
      → Splits m (close_tag ++ s) cs m' r

split_chunk :
    (m m' : Bool) (c s r : Text) (cs : List ContentChunk)
    → IsClean m c
    → Splits m s cs m' r
    → Splits m (c ++ s) (yield_chunk (chunk_of (type_of m) c) cs) m' r
split_chunk m m' [] s r cs clean h = h
split_chunk m m' (x ∷ c) s r cs clean h = content m m' (x ∷ c) s r cs clean h

-- The tags of the mode are not found before a position.
abbrev pub IsCleanUpTo : Bool → ℕ → Text → Type 0
IsCleanUpTo false i s = IsAfter open_tag i s × IsAfter close_tag i s
IsCleanUpTo true i s = IsAfter close_tag i s

take-IsClean : (m : Bool) (i : ℕ) (s : Text) → IsCleanUpTo m i s → IsClean m (take i s)
take-IsClean false i s (o, c) = (find-take i _ _ s o, find-take i _ _ s c)
take-IsClean true i s c = find-take i _ _ s c

-- A text without the tags of the mode is clean up to anywhere.
absent-IsAfter : (t : Text) (i : ℕ) (s : Text) → find t s ≡ none → IsAfter t i s
absent-IsAfter t i s e j f = absurd (ground arith)

IsClean-IsCleanUpTo : (m : Bool) (i : ℕ) (s : Text) → IsClean m s → IsCleanUpTo m i s
IsClean-IsCleanUpTo false i s (o, c) =
    (absent-IsAfter open_tag i s o, absent-IsAfter close_tag i s c)
IsClean-IsCleanUpTo true i s c = absent-IsAfter close_tag i s c

found-IsAfter : (t : Text) (i : ℕ) (s : Text) → find t s ≡ some i → IsAfter t i s
found-IsAfter t i s e j f = ground arith

-- What one call of `_parse_outside_think` or `_parse_inside_think` does with a buffer: it takes a
-- piece of the grammar off it, or keeps a short buffer as it is.
pub record Parsed (m : Bool) (s : Text) (r : Option ContentChunk × ThinkTagParser) : Type 0 where
  pub splits :
      (m' : Bool) (rest : Text) (cs : List ContentChunk)
      → Splits r.1.in_think_tag r.1.buffer cs m' rest
      → Splits m s (yield_chunk r.0 cs) m' rest
  pub progress :
      (length r.1.buffer < length s)
      ⊎ ((r.0 ≡ none) × (r.1 ≡ record { buffer = s; in_think_tag = m }) × (length s < 8))

-- A tag at a position is taken off together with what stands before it.
emit-Parsed :
    (m next : Bool) (tag : Text) (i : ℕ) (s : Text)
    → 0 < length s
    → 0 < length tag
    → IsCleanUpTo m i s
    → take i s ++ (tag ++ drop (i + length tag) s) ≡ s
    → ((m' : Bool) (b rest : Text) (cs : List ContentChunk)
        → Splits next b cs m' rest
        → Splits m (tag ++ b) cs m' rest)
    → Parsed m s (emit (type_of m) i (length tag) next s)
emit-Parsed m next tag i s pos long clean found change = record {
  splits = λ m' rest cs h.
      subst (λ b. Splits m b (yield_chunk (chunk_of (type_of m) (take i s)) cs) m' rest) found
        (split_chunk m m' (take i s) (tag ++ drop (i + length tag) s) rest cs
          (take-IsClean m i s clean) (change m' (drop (i + length tag) s) rest cs h));
  progress = inl (omega (arith, length-drop (i + length tag) s));
}

append_nil : (s : Text) → s ++ [] ≡ s
append_nil [] = refl
append_nil (c ∷ s) = ap (λ r. c ∷ r) (append_nil s)

-- All of the buffer is emitted.
emit_all-Parsed :
    (m : Bool) (s : Text)
    → 0 < length s
    → IsClean m s
    → Parsed m s (chunk_of (type_of m) s, record { buffer = []; in_think_tag = m })
emit_all-Parsed m s pos clean = record {
  splits = λ m' rest cs h.
      subst (λ b. Splits m b (yield_chunk (chunk_of (type_of m) s) cs) m' rest) (append_nil s)
        (split_chunk m m' s [] rest cs clean h);
  progress = inl pos;
}

emit_safe-Parsed :
    (m : Bool) (partial_ : Text → Bool) (s : Text)
    → 0 < length s
    → IsClean m s
    → ((x : Text) → partial_ x ≡ true → length x < 8)
    → Parsed m s (emit_safe (type_of m) partial_ m s)
unfolding emit_safe
emit_safe-Parsed m partial_ s pos clean short = elim (Option-cases (last_bracket s)) [
  | inl none_ ↦ rw (none_, emit_safe) (emit_all-Parsed m s pos clean)
  | inr (i, e) ↦ elim (Bool-cases (partial_ (drop i s))) [
    | inr whole ↦ rw (e, emit_safe) (rw whole (emit_all-Parsed m s pos clean))
    | inl part ↦ rw (e, emit_safe) (rw part (held i part))
  ]
]
  where
    moved : (i m' : ℕ) → i + 0 ≡ i
    moved i m' = omega arith

    progressed :
        (i : ℕ)
        → partial_ (drop i s) ≡ true
        → let r = emit (type_of m) i 0 m s in
          (length r.1.buffer < length s)
          ⊎ ((r.0 ≡ none) × (r.1 ≡ record { buffer = s; in_think_tag = m }) × (length s < 8))
    progressed zero part = inr (
      ap (chunk_of (type_of m)) (take-zero s),
      ap (λ b. record { buffer = b; in_think_tag = m }) (drop-zero s),
      short s (rw (drop-zero s) at part),
    )
    progressed (suc i) part = inl (omega (arith, length-drop (suc i + 0) s))

    held : (i : ℕ) → partial_ (drop i s) ≡ true → Parsed m s (emit (type_of m) i 0 m s)
    held i part = record {
      splits = λ m' rest cs h.
          subst (λ b. Splits m b (yield_chunk (chunk_of (type_of m) (take i s)) cs) m' rest)
            (ap (λ n. take i s ++ drop n s) (moved i 0) ∙ take-drop i s)
            (split_chunk m m' (take i s) (drop (i + 0) s) rest cs
              (take-IsClean m i s (IsClean-IsCleanUpTo m i s clean)) h);
      progress = progressed i part;
    }

-- What the two tests for a start of a tag accept is short.
partial-short : (tag x : Text) → length tag < 9 → is_partial tag x ≡ true → length x < 8
partial-short tag x long h = ground arith

before_tag-Parsed :
    (r : Option ℕ) (s : Text)
    → 0 < length s
    → find open_tag s ≡ r
    → ((j : ℕ) → find close_tag s ≡ some j → stands_before j r ≡ false)
    → Parsed false s (before_tag r s)
unfolding before_tag
before_tag-Parsed none s pos e later =
    emit_safe-Parsed false (λ tag. is_partial open_tag tag || is_partial close_tag tag) s pos
      (e, no_close) (λ x h. ground (arith, partial-short open_tag x, partial-short close_tag x))
  where
    no_close : find close_tag s ≡ none
    no_close = elim (Option-cases (find close_tag s)) [
      | inl none_ ↦ none_
      | inr (j, f) ↦ absurd (cc (later j f))
    ]
before_tag-Parsed (some i) s pos e later =
    emit-Parsed false true open_tag i s pos (omega arith)
      (found-IsAfter open_tag i s e, λ j f. ground (arith, later j f)) (find-split open_tag s i e)
      (λ m' b rest cs h. opened m' b rest cs h)

outside_at-Parsed :
    (close start : Option ℕ) (s : Text)
    → 0 < length s
    → find close_tag s ≡ close
    → find open_tag s ≡ start
    → Parsed false s (outside_at close start s)
unfolding outside_at
outside_at-Parsed none start s pos c o =
    before_tag-Parsed start s pos o (λ j f. absurd (ground arith))
outside_at-Parsed (some i) start s pos c o = elim (Bool-cases (stands_before i start)) [
  | inl first ↦
      rw (first, outside_at)
        (emit-Parsed false false close_tag i s pos (omega arith)
          (first_tag start o first, found-IsAfter close_tag i s c) (find-split close_tag s i c)
          (λ m' b rest cs h. closed false m' b rest cs h))
  | inr later ↦
      rw (later, outside_at)
        (before_tag-Parsed start s pos o
          (λ j f. subst (λ n. stands_before n start ≡ false) (same j f) later))
]
  where
    first_tag :
        (start : Option ℕ)
        → find open_tag s ≡ start
        → stands_before i start ≡ true
        → IsAfter open_tag i s
    first_tag none e h j f = absurd (ground arith)
    first_tag (some k) e h j f = ground arith

    same : (j : ℕ) → find close_tag s ≡ some j → i ≡ j
    same j f = ground arith

inside-Parsed : (s : Text) → 0 < length s → Parsed true s (parse_inside_think s)
unfolding parse_inside_think
inside-Parsed s pos = elim (Option-cases (find close_tag s)) [
  | inl none_ ↦
      rw (none_, parse_inside_think)
        (emit_safe-Parsed true (is_partial close_tag) s pos none_
          (λ x h. partial-short close_tag x (omega arith) h))
  | inr (i, e) ↦
      rw (e, parse_inside_think)
        (emit-Parsed true false close_tag i s pos (omega arith) (found-IsAfter close_tag i s e)
          (find-split close_tag s i e) (λ m' b rest cs h. closed true m' b rest cs h))
]

pub parse-Parsed :
    (p : ThinkTagParser) → 0 < length p.buffer → Parsed p.in_think_tag p.buffer (parse p)
unfolding parse parse_outside_think
parse-Parsed p pos = go p.in_think_tag
  where
    go :
        (m : Bool)
        → Parsed m p.buffer
            (if m then parse_inside_think p.buffer else parse_outside_think p.buffer)
    go true = inside-Parsed p.buffer pos
    go false =
        outside_at-Parsed (find close_tag p.buffer) (find open_tag p.buffer) p.buffer pos refl refl
