-- ===== src/Core/GatewayModelIds/Decoding.antt =====
-- core/gateway_model_ids.py: encoding and decoding are inverse to each other.
use free_claude_code_my_pr_i.Core.GatewayModelIds.{
  gateway_prefix, no_thinking_prefix, advertised_id, decode_gateway_model_id,
  no_thinking_gateway_model_id, DecodedGatewayModelId, gateway_model_id, decode_remainder,
  decode_cut, under, Cut, partition,
}
use Prim.Native.Char.{Char, code}
use text.Mathlib.TextLemmas.{cons-append, nil-append}
use text.Mathlib.TextEquality.{Char-path}
use mathlib.Core.Option.{some-injective}
use free_claude_code_my_pr_i.Prelude.{
  String, ◌≡◌, refl, sym, ap, subst, ◌∙◌, inl, inr, Bool, true, false, not, ◌||◌, false≢true, none,
  some, arith, str_eq, eq_iff, ◌==◌, if◌then◌else◌, ==_iff, Bool-cases, ◌⊕◌, is_empty, by_test,
}

-- What `partition` returns when the separator is there.
abbrev pub cut : String → String → Cut
cut s t = record { before = s; found = true; after = t }

-- A text without a slash.
unfoldable pub HasNoSlash : String → Type 0
HasNoSlash s = (partition s).found ≡ false

abbrev slash : Char
slash = "/"

slash-append : (r : String) → "/" ⊕ r ≡ String.◌∷◌ "/" r
slash-append r = cons-append "/" "" r ∙ ap (λ s. String.◌∷◌ "/" s) (nil-append r)

partition_at_slash :
    (c : Char) (s : String) → (code c == 47) ≡ true → partition (String.◌∷◌ c s) ≡ cut "" s
unfolding partition
partition_at_slash c s e =
    ap
      (λ b.
        if b then cut "" s else record (partition s) { before = String.◌∷◌ c (partition s).before })
      e

partition_past :
    (c : Char) (s : String)
    → (code c == 47) ≡ false
    → partition (String.◌∷◌ c s)
      ≡ record (partition s) { before = String.◌∷◌ c (partition s).before }
unfolding partition
partition_past c s e =
    ap
      (λ b.
        if b then cut "" s else record (partition s) { before = String.◌∷◌ c (partition s).before })
      e

-- A prefix without a slash is what `partition` cuts off.
pub partition-under : (s r : String) → (partition s).found ≡ false → partition (under s r) ≡ cut s r
unfolding partition
partition-under String.[] r h = ap partition (nil-append ("/" ⊕ r) ∙ slash-append r)
partition-under (String.◌∷◌ c s) r h = elim (Bool-cases (code c == 47)) [
  | inl e ↦ absurd (false≢true (sym h ∙ ap (λ k. k.found) (partition_at_slash c s e)))
  | inr e ↦
      ap partition (cons-append c s ("/" ⊕ r))
      ∙ partition_past c (under s r) e
      ∙ ap (λ (k : Cut). record k { before = String.◌∷◌ c k.before })
          (partition-under s r (sym (ap (λ k. k.found) (partition_past c s e)) ∙ h))
]

-- What `partition` returns joins to the text, and nothing before the cut is a slash.
pub under-partition :
    (s : String)
    → (partition s).found ≡ true
    → (s ≡ under (partition s).before (partition s).after)
      × ((partition (partition s).before).found ≡ false)
unfolding partition
under-partition String.[] h = absurd (false≢true h)
under-partition (String.◌∷◌ c s) h = elim (Bool-cases (code c == 47)) [
  | inl e ↦
      subst
        (λ (k : Cut).
          (String.◌∷◌ c s ≡ under k.before k.after) × ((partition k.before).found ≡ false))
        (sym (partition_at_slash c s e))
        (
          ap (λ d. String.◌∷◌ d s) (Char-path c slash ((==_iff (code c) 47).0 e))
              ∙ sym (nil-append ("/" ⊕ s) ∙ slash-append s),
          refl,
        )
  | inr e ↦
      let rest = under-partition s (sym (ap (λ k. k.found) (partition_past c s e)) ∙ h) in
      subst
        (λ (k : Cut).
          (String.◌∷◌ c s ≡ under k.before k.after) × ((partition k.before).found ≡ false))
        (sym (partition_past c s e))
        (
          ap (λ t. String.◌∷◌ c t) rest.0
              ∙ sym (cons-append c (partition s).before ("/" ⊕ (partition s).after)),
          ap (λ k. k.found) (partition_past c (partition s).before e) ∙ rest.1,
        )
]

decode_remainder-under :
    (off : Bool) (p m : String)
    → HasNoSlash p
    → is_empty m ≡ false
    → decode_remainder off (under p m)
      ≡ some (record { provider_id = p; provider_model = m; force_reasoning_off = off })
unfolding decode_remainder HasNoSlash
decode_remainder-under off p m h e =
    ap
      (λ (k : Cut).
        if not k.found || is_empty k.after
        then none
        else some (record {
          provider_id = k.before;
          provider_model = k.after;
          force_reasoning_off = off;
        }))
      (partition-under p m h)
    ∙ ap
        (λ b.
          if b
          then none
          else some (record { provider_id = p; provider_model = m; force_reasoning_off = off }))
        e

-- Decoding the id that is advertised for a provider and its model, with thinking or without, gives
-- them back, when the provider's name has no slash and the model's is not empty.
pub decode-advertised_id :
    (d : DecodedGatewayModelId)
    → HasNoSlash d.provider_id
    → is_empty d.provider_model ≡ false
    → decode_gateway_model_id (advertised_id d) ≡ some d
unfolding decode_cut partition gateway_model_id no_thinking_gateway_model_id
decode-advertised_id d h e =
    by_test (λ s. decode_gateway_model_id s ≡ some d) d.force_reasoning_off _ _
      (λ on.
        ap decode_cut
          (partition-under no_thinking_prefix (under d.provider_id d.provider_model) refl)
        ∙ decode_remainder-under true d.provider_id d.provider_model h e
        ∙ ap (λ b. some (record d { force_reasoning_off = b })) (sym on))
      (λ off.
        ap decode_cut (partition-under gateway_prefix (under d.provider_id d.provider_model) refl)
        ∙ decode_remainder-under false d.provider_id d.provider_model h e
        ∙ ap (λ b. some (record d { force_reasoning_off = b })) (sym off))

abbrev Decoded : Bool → String → DecodedGatewayModelId → Type 0
Decoded off r d =
    (r ≡ under d.provider_id d.provider_model)
    × (d.force_reasoning_off ≡ off)
    × HasNoSlash d.provider_id
    × (is_empty d.provider_model ≡ false)

abbrev Advertises : String → DecodedGatewayModelId → Type 0
Advertises name d =
    (advertised_id d ≡ name) × HasNoSlash d.provider_id × (is_empty d.provider_model ≡ false)

decode_remainder_sound :
    (off : Bool) (r : String) (d : DecodedGatewayModelId)
    → decode_remainder off r ≡ some d
    → Decoded off r d
unfolding decode_remainder HasNoSlash
decode_remainder_sound off r d =
    by_test (λ o. o ≡ some d → Decoded off r d)
      (not (partition r).found || is_empty (partition r).after) none
      (some (record {
        provider_id = (partition r).before;
        provider_model = (partition r).after;
        force_reasoning_off = off;
      }))
      (λ _ e. absurd (cc e))
      (λ t e.
        let split = under-partition r (ground arith) in
        subst (Decoded off r) (some-injective _ d e) (split.0, refl, split.1, ground arith))

advertised_of :
    (off : Bool) (prefix name : String) (d : DecodedGatewayModelId)
    → name ≡ under (partition name).before (partition name).after
    → str_eq (partition name).before prefix ≡ true
    → decode_remainder off (partition name).after ≡ some d
    → advertised_id (record d { force_reasoning_off = off })
      ≡ under prefix (under d.provider_id d.provider_model)
    → Advertises name d
unfolding gateway_model_id no_thinking_gateway_model_id
advertised_of off prefix name d splits same e known =
    let got = decode_remainder_sound off (partition name).after d e in
    (
      ap (λ b. advertised_id (record d { force_reasoning_off = b })) got.1
          ∙ known
          ∙ sym (
              splits
              ∙ ap (λ s. under s (partition name).after)
                  ((eq_iff (partition name).before prefix).0 same)
              ∙ ap (under prefix) got.0),
      got.2,
      got.3,
    )

-- A decoded id is the one that is advertised for what it decodes to, whose provider has no slash and
-- whose model is not empty.
pub advertised_id-decode :
    (name : String) (d : DecodedGatewayModelId)
    → decode_gateway_model_id name ≡ some d
    → (advertised_id d ≡ name) × HasNoSlash d.provider_id × (is_empty d.provider_model ≡ false)
unfolding decode_cut gateway_model_id no_thinking_gateway_model_id
advertised_id-decode name d =
    by_test (λ o. o ≡ some d → Advertises name d) (not (partition name).found) none _
      (λ _ e. absurd (cc e))
      (λ found.
        let split = under-partition name (ground arith) in
        by_test (λ o. o ≡ some d → Advertises name d)
          (str_eq (partition name).before gateway_prefix) _ _
          (λ same e. advertised_of false gateway_prefix name d split.0 same e refl)
          (λ _.
            by_test (λ o. o ≡ some d → Advertises name d)
              (str_eq (partition name).before no_thinking_prefix) _ none
              (λ same e. advertised_of true no_thinking_prefix name d split.0 same e refl)
              (λ _ e. absurd (cc e))))
