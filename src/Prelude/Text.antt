-- ===== src/Prelude/Text.antt =====
-- Python's operations on texts: concatenation, `join`, `strip`, and the test for a prefix.
use Prim.Native.Char.{Char, code}
use Prim.Native.String.{String, ◌++◌ as str_append}
use mathlib.Core.Path.{◌≡◌, refl, sym, ap, ◌∙◌}
use mathlib.Core.Bool.{Bool, ◌&&◌, ◌||◌}
use mathlib.Core.List.{List, [], ◌∷◌, ◌++◌}
use text.Mathlib.Text.{◌==◌ as str_eq}
use text.Mathlib.TextLemmas.{append_assoc, append-nil, nil-append}
use free_claude_code_my_pr_i.Prelude.Tests.{if◌then◌else◌, leb, ◌==◌}

infixl 60 ◌⊕◌
abbrev pub ◌⊕◌ : String → String → String
s ⊕ t = str_append s t

-- "".join(parts)
unfoldable pub join : List String → String
join [] = ""
join (s ∷ parts) = s ⊕ join parts

pub join-append : (xs ys : List String) → join (xs ++ ys) ≡ join xs ⊕ join ys
unfolding join
join-append [] ys = sym (nil-append (join ys))
join-append (x ∷ xs) ys =
    ap (λ s. x ⊕ s) (join-append xs ys) ∙ sym (append_assoc x (join xs) (join ys))

pub join-last : (parts : List String) (s : String) → join (parts ++ s ∷ []) ≡ join parts ⊕ s
unfolding join
join-last parts s = join-append parts (s ∷ []) ∙ ap (λ t. join parts ⊕ t) (append-nil s)

-- `not s`, for a text
abbrev pub is_empty : String → Bool
is_empty s = str_eq s ""

-- str.isspace, for one character
abbrev pub is_space : Char → Bool
is_space c =
    let n = code c in
    (leb 9 n && leb n 13)
    || (leb 28 n && leb n 32)
    || n == 133
    || n == 160
    || n == 5760
    || (leb 8192 n && leb n 8202)
    || n == 8232
    || n == 8233
    || n == 8239
    || n == 8287
    || n == 12288

-- s.lstrip()
unfoldable pub lstrip : String → String
lstrip String.[] = ""
lstrip (String.◌∷◌ c s) = let rest = lstrip s in if is_space c then rest else String.◌∷◌ c s

-- s.rstrip()
unfoldable pub rstrip : String → String
rstrip String.[] = ""
rstrip (String.◌∷◌ c s) =
    let rest = rstrip s in if is_empty rest && is_space c then "" else String.◌∷◌ c rest

-- s.strip()
abbrev pub strip : String → String
strip s = rstrip (lstrip s)

pub strip-empty : strip "" ≡ ""
unfolding lstrip rstrip
strip-empty = refl

pub join-nil : join [] ≡ ""
unfolding join
join-nil = refl
