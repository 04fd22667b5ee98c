-- ===== src/Core/Thinking.antt =====
-- core/anthropic/thinking.py: `ThinkTagParser`. A text is the list of its code points.
pub mod Feed
pub mod Find
pub mod Grammar
pub mod Tests
use free_claude_code_my_pr_i.Prelude.{
  ℕ, zero, suc, ◌+◌, ◌-◌, ◌*◌, ◌/◌, ◌%◌, ◌^◌, ◌≤◌, ◌<◌, min, max, String, ◌≡◌, refl, sym, ap, subst,
  ◌∙◌, ◌≢◌, ◌↔◌, ◌⊎◌, inl, inr, Bool, true, false, not, ◌&&◌, ◌||◌, false≢true, Option, none, some,
  List, [], ◌∷◌, ◌++◌, map, arith, str_eq, eq_iff, ltb, leb, ◌==◌, if◌then◌else◌, ltb→lt, leb→le,
  ==_iff, Bool-cases, Option-cases, is_some, length, length-append, All, All-append, All-map,
  list_cases,
}

abbrev pub Text : Type 0
Text = List ℕ

pub data ContentType : Type 0 where
  text thinking : ContentType

pub record ContentChunk : Type 0 where
  pub type : ContentType
  pub content : Text

-- The code point of `<`
abbrev pub bracket : ℕ
bracket = 60

-- <think>
abbrev pub open_tag : Text
open_tag = 60 ∷ 116 ∷ 104 ∷ 105 ∷ 110 ∷ 107 ∷ 62 ∷ []

-- </think>
abbrev pub close_tag : Text
close_tag = 60 ∷ 47 ∷ 116 ∷ 104 ∷ 105 ∷ 110 ∷ 107 ∷ 62 ∷ []

pub record ThinkTagParser : Type 0 where
  pub buffer : Text
  pub in_think_tag : Bool

abbrev pub new_parser : ThinkTagParser
new_parser = record { buffer = []; in_think_tag = false }

-- `text.startswith(prefix)`, with the prefix first
unfoldable pub starts_with : Text → Text → Bool
starts_with [] s = true
starts_with (c ∷ p) [] = false
starts_with (c ∷ p) (d ∷ s) = (c == d) && starts_with p s

abbrev pub next_index : Option ℕ → Option ℕ
next_index none = none
next_index (some i) = some (suc i)

-- `text.find(tag)`, with `none` for -1
unfoldable pub find : Text → Text → Option ℕ
unfolding starts_with
find t [] = if starts_with t [] then some 0 else none
find t (c ∷ s) = let rest = find t s in if starts_with t (c ∷ s) then some 0 else next_index rest

-- `text.rfind("<")`, with `none` for -1
unfoldable pub last_bracket : Text → Option ℕ
last_bracket [] = none
last_bracket (c ∷ s) = elim (last_bracket s) [
  | some i ↦ some (suc i)
  | none ↦ if c == bracket then some 0 else none
]

-- `text[:i]` and `text[i:]`
unfoldable pub take : ℕ → Text → Text
take i [] = []
take zero (c ∷ s) = []
take (suc i) (c ∷ s) = c ∷ take i s

unfoldable pub drop : ℕ → Text → Text
drop i [] = []
drop zero (c ∷ s) = c ∷ s
drop (suc i) (c ∷ s) = drop i s

-- A chunk of the text, if the text is not empty
abbrev pub chunk_of : ContentType → Text → Option ContentChunk
chunk_of t [] = none
chunk_of t (c ∷ s) = some (record { type = t; content = c ∷ s })

-- Is the text the start of the tag, and not all of it?
abbrev pub is_partial : Text → Text → Bool
is_partial tag s = ltb (length s) (length tag) && starts_with s tag

-- The part up to a position is emitted, and what follows `skip` more code points is kept.
abbrev pub emit : ContentType → ℕ → ℕ → Bool → Text → Option ContentChunk × ThinkTagParser
emit t i skip mode s =
    (chunk_of t (take i s), record { buffer = drop (i + skip) s; in_think_tag = mode })

-- Without a tag: a start of a tag at the end is kept, and the rest is emitted.
unfoldable pub emit_safe :
    ContentType → (Text → Bool) → Bool → Text → Option ContentChunk × ThinkTagParser
unfolding take drop
emit_safe t partial_ mode s = elim (last_bracket s) [
  | none ↦ (chunk_of t s, record { buffer = []; in_think_tag = mode })
  | some i ↦
      if partial_ (drop i s)
      then emit t i 0 mode s
      else (chunk_of t s, record { buffer = []; in_think_tag = mode })
]

-- Does the first position stand before the second, if there is one?
abbrev pub stands_before : ℕ → Option ℕ → Bool
stands_before i none = true
stands_before i (some j) = ltb i j

-- The last two cases of `_parse_outside_think`: no opening tag, and one at a position
unfoldable pub before_tag : Option ℕ → Text → Option ContentChunk × ThinkTagParser
unfolding emit_safe
before_tag none s =
    emit_safe text (λ tag. is_partial open_tag tag || is_partial close_tag tag) false s
before_tag (some i) s = emit text i 7 true s

unfoldable pub outside_at : Option ℕ → Option ℕ → Text → Option ContentChunk × ThinkTagParser
unfolding before_tag
outside_at none think_start s = before_tag think_start s
outside_at (some i) think_start s =
    if stands_before i think_start then emit text i 8 false s else before_tag think_start s

unfoldable pub parse_outside_think : Text → Option ContentChunk × ThinkTagParser
unfolding find outside_at
parse_outside_think s = outside_at (find close_tag s) (find open_tag s) s

unfoldable pub parse_inside_think : Text → Option ContentChunk × ThinkTagParser
unfolding find emit_safe
parse_inside_think s = elim (find close_tag s) [
  | none ↦ emit_safe thinking (is_partial close_tag) true s
  | some i ↦ emit thinking i 8 false s
]

unfoldable pub parse : ThinkTagParser → Option ContentChunk × ThinkTagParser
unfolding parse_outside_think parse_inside_think
parse p = if p.in_think_tag then parse_inside_think p.buffer else parse_outside_think p.buffer

abbrev pub yield_chunk : Option ContentChunk → List ContentChunk → List ContentChunk
yield_chunk none cs = cs
yield_chunk (some c) cs = c ∷ cs

-- What `feed` yields, and the parser then; `none` means that the fuel ran out.
abbrev pub yields :
    Option ContentChunk
    → Option (List ContentChunk × ThinkTagParser)
    → Option (List ContentChunk × ThinkTagParser)
yields c none = none
yields c (some (cs, p)) = some (yield_chunk c cs, p)

-- The loop of `feed`: it goes on while something was emitted or taken off the buffer.
unfoldable pub parse_all : ℕ → ThinkTagParser → Option (List ContentChunk × ThinkTagParser)
unfolding parse
parse_all zero p = none
parse_all (suc fuel) p =
    let rest = yields (parse p).0 (parse_all fuel (parse p).1) in
    if length p.buffer == 0
    then some ([], p)
    else if not (is_some (parse p).0) && (length (parse p).1.buffer == length p.buffer)
    then some ([], (parse p).1)
    else rest

unfoldable pub feed : Text → ThinkTagParser → Option (List ContentChunk × ThinkTagParser)
unfolding parse_all
feed content p =
    let buffer = p.buffer ++ content in
    parse_all (suc (length buffer)) (record p { buffer = buffer })

unfoldable pub flush : ThinkTagParser → Option ContentChunk × ThinkTagParser
flush p = (chunk_of (if p.in_think_tag then thinking else text) p.buffer, record p { buffer = [] })
