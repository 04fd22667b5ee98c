-- ===== src/Core/Thinking/Feed.antt =====
-- The loop of `ThinkTagParser.feed` in core/anthropic/thinking.py.
use free_claude_code_my_pr_i.Core.Thinking.Grammar.{parse-Parsed, Splits, nothing}
use free_claude_code_my_pr_i.Core.Thinking.{
  yield_chunk, parse, ThinkTagParser, ContentChunk, feed, parse_all, Text,
}
use free_claude_code_my_pr_i.Prelude.{
  ℕ, zero, suc, ◌<◌, ◌≡◌, refl, sym, ap, subst, inl, inr, Bool, true, false, not, ◌&&◌, Option,
  some, List, [], ◌++◌, arith, ◌==◌, Bool-cases, is_some, length,
}

-- A run that ends: what it yields and keeps are a split of what was there, and what it keeps is
-- shorter than a tag.
pub record Feeds (m : Bool) (s : Text) (r : Option (List ContentChunk × ThinkTagParser))
    : Type 0 where
  pub chunks : List ContentChunk
  pub parser : ThinkTagParser
  pub returned : r ≡ some (chunks, parser)
  pub splits : Splits m s chunks parser.in_think_tag parser.buffer
  pub short : length parser.buffer < 8

parse_all-Feeds :
    (fuel : ℕ) (p : ThinkTagParser)
    → length p.buffer < fuel
    → Feeds p.in_think_tag p.buffer (parse_all fuel p)
unfolding parse_all
parse_all-Feeds zero p h = absurd (omega arith)
parse_all-Feeds (suc fuel) p h = elim (Bool-cases (length p.buffer == 0)) [
  | inl empty ↦
      rw (empty, parse_all)
        (record {
          chunks = [];
          parser = p;
          returned = refl;
          splits = nothing p.in_think_tag p.buffer;
          short = ground arith;
        })
  | inr some_ ↦
      let parsed = parse-Parsed p (ground arith) in
      elim parsed.progress [
        | inl less ↦
            let on : (not (is_some (parse p).0) && (length (parse p).1.buffer == length p.buffer))
                ≡ false =
              ground arith in
            let rest = parse_all-Feeds fuel (parse p).1 (omega arith) in
            rw (some_, parse_all)
              (rw on (
                rw rest.returned (record {
                  chunks = yield_chunk (parse p).0 rest.chunks;
                  parser = rest.parser;
                  returned = refl;
                  splits =
                      parsed.splits rest.parser.in_think_tag rest.parser.buffer rest.chunks
                        rest.splits;
                  short = rest.short;
                })))
        | inr (silent, same, short) ↦
            let stop : (not (is_some (parse p).0) && (length (parse p).1.buffer == length p.buffer))
                ≡ true =
              (let kept : length (parse p).1.buffer ≡ length p.buffer =
                  ap (λ q. length q.buffer) same in
                ground (arith, silent, kept)) in
            rw (some_, parse_all)
              (rw stop (record {
                chunks = [];
                parser = (parse p).1;
                returned = refl;
                splits =
                    subst (λ q. Splits p.in_think_tag p.buffer [] q.in_think_tag q.buffer)
                      (sym same) (nothing p.in_think_tag p.buffer);
                short = rw same short;
              }))
      ]
]

-- `feed` ends. The old buffer with the new content is, from the old mode, a sequence of contents and
-- tags, and then the buffer that is kept. The contents are the chunks, each of its mode's type; none
-- has a closing tag in it, and none outside of thinking has an opening tag in it. An opening tag starts
-- thinking, and a closing tag ends it or, outside, is dropped. The kept buffer is shorter than a
-- closing tag.
pub feed-Feeds :
    (content : Text) (p : ThinkTagParser)
    → Feeds p.in_think_tag (p.buffer ++ content) (feed content p)
unfolding feed
feed-Feeds content p =
    parse_all-Feeds (suc (length (p.buffer ++ content))) (record p { buffer = p.buffer ++ content })
      (omega arith)
