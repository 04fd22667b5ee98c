-- ===== src/Core/Thinking/Tests.antt =====
-- Runs of core/anthropic/thinking.py.
use free_claude_code_my_pr_i.Core.Thinking.{
  last_bracket, thinking, close_tag, text, open_tag, new_parser, feed, Text,
}
use free_claude_code_my_pr_i.Core.Thinking.Feed.{feed-Feeds, Feeds}
use free_claude_code_my_pr_i.Prelude.{◌≡◌, refl, false, some, [], ◌∷◌, ◌++◌}

-- a<think>b</think>c<th
abbrev sample : Text
sample = 97 ∷ (open_tag ++ 98 ∷ (close_tag ++ 99 ∷ 60 ∷ 116 ∷ 104 ∷ []))

feed_run :
    feed sample new_parser
    ≡ some (
      record { type = text; content = 97 ∷ [] }
          ∷ record { type = thinking; content = 98 ∷ [] }
          ∷ record { type = text; content = 99 ∷ [] }
          ∷ [],
      record { buffer = 60 ∷ 116 ∷ 104 ∷ []; in_think_tag = false },
    )
unfolding feed last_bracket
feed_run = refl

feed-Feeds_example : Feeds false sample (feed sample new_parser)
feed-Feeds_example = feed-Feeds sample new_parser
