-- ===== src/Core/Streaming/Json.antt =====
-- JSON values as Python holds them, and the changes that the streaming code makes to tool inputs
-- (core/anthropic/streaming/ledger.py, providers/openai_chat/tool_calls.py).
use free_claude_code_my_pr_i.Prelude.Dict.{Dict}
use free_claude_code_my_pr_i.Prelude.Dict
use free_claude_code_my_pr_i.Prelude.{
  String, ◌≡◌, refl, Bool, true, false, not, Option, none, some, arith, str_eq, eq_iff,
  if◌then◌else◌,
}

mutual
  pub data Json : Type 0 where
    null : Json
    boolean : Bool → Json
    -- A number is kept as its text.
    number : String → Json
    string : String → Json
    array : Items → Json
    object : Fields → Json

  pub data Items : Type 0 where
    no_items : Items
    item : Json → Items → Items

  -- A `dict` with its keys in insertion order.
  pub data Fields : Type 0 where
    no_fields : Fields
    field : String → Json → Fields → Fields

-- d.get(k)
unfoldable pub get_field : String → Fields → Option Json
get_field k no_fields = none
get_field k (field j v d) = if str_eq j k then some v else get_field k d

-- d[k] = v
unfoldable pub put_field : String → Json → Fields → Fields
put_field k v no_fields = field k v no_fields
put_field k v (field j w d) = if str_eq j k then field j v d else field j w (put_field k v d)

-- isinstance(value, dict)
abbrev pub as_object : Json → Option Fields
as_object (object d) = some d
as_object _ = none

-- Is it `False` itself?
abbrev pub is_false : Option Json → Bool
is_false (some (boolean false)) = true
is_false _ = false

abbrev pub run_in_background : String
run_in_background = "run_in_background"

unfoldable pub normalize_task_run_in_background : Fields → Fields
normalize_task_run_in_background d =
    if not (is_false (get_field run_in_background d))
    then put_field run_in_background (boolean false) d
    else d

abbrev pub renamed : Dict String → String → String
renamed aliases k = elim (Dict.get k aliases) [ none ↦ k | some j ↦ j ]

-- The fields of `d` are put into `done` one after the other, as a dict comprehension does.
unfoldable mutual
  pub restore_value : Dict String → Json → Json
  restore_value aliases (object d) = object (restore_fields aliases d no_fields)
  restore_value aliases (array xs) = array (restore_items aliases xs)
  restore_value aliases v = v

  pub restore_items : Dict String → Items → Items
  restore_items aliases no_items = no_items
  restore_items aliases (item v xs) = item (restore_value aliases v) (restore_items aliases xs)

  pub restore_fields : Dict String → Fields → Fields → Fields
  restore_fields aliases no_fields done = done
  restore_fields aliases (field k v d) done =
      restore_fields aliases d (put_field (renamed aliases k) (restore_value aliases v) done)

pub get_field-put_field :
    (k j : String) (v : Json) (d : Fields)
    → get_field j (put_field k v d) ≡ (if str_eq k j then some v else get_field j d)
unfolding get_field put_field
get_field-put_field k j v no_fields = refl
get_field-put_field k j v (field i w d) =
    ground (arith, get_field-put_field k j v d, eq_iff i k, eq_iff i j, eq_iff k j)
