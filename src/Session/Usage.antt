-- ===== src/Session/Usage.antt =====
-- localagentcli/session/usage.py: the counts of tokens of a call, and their sums in the metadata.
use local_agent_cli.Base.{
  Bool, List, Option, Option-cases, String, [], arith, if◌then◌else◌, inl, inr, list_eq,
  literals_differ, nat_eq, none, refl, some, string_eq, ℕ, ◌+◌, ◌==◌, ◌∷◌, ◌≡◌, ◌⊎◌,
}
use local_agent_cli.Base.Text.{Text, strip, whitespace}
use local_agent_cli.Base.Result.{Error, Result, Result-cases, err, ok, value_error, ◌>>=◌}
use local_agent_cli.Base.Json.{Fields, Json, end, field, get, num, obj, other, str}
use local_agent_cli.Base.Dict.{values}

-- What Python's numbers give: `value != value` of a literal that is no integer from zero on, and
-- `max(int(value), 0)` of one; `max(int(float(text)), 0)`.
pub record Counts : Type 0 where
  pub is_nan : Text → Bool
  pub of_literal : Text → Result ℕ
  pub of_text : Text → Result ℕ

pub record Usage : Type 0 where
  pub prompt_tokens : Option ℕ
  pub completion_tokens : Option ℕ
  pub total_tokens : Option ℕ

abbrev pub prompt_keys : List String
prompt_keys =
    "prompt_tokens" ∷ "input_tokens" ∷ "prompt_token_count" ∷ "input_token_count" ∷ "promptTokens"
    ∷ "inputTokens" ∷ []

abbrev pub completion_keys : List String
completion_keys =
    "completion_tokens" ∷ "output_tokens" ∷ "completion_token_count" ∷ "output_token_count"
    ∷ "completionTokens" ∷ "outputTokens" ∷ []

abbrev pub total_keys : List String
total_keys = "total_tokens" ∷ "total_token_count" ∷ "totalTokens" ∷ []

-- `except ValueError: return None`
abbrev pub caught : Result ℕ → Result (Option ℕ)
caught (ok n) = ok (some n)
caught (err (value_error t)) = ok none
caught (err raised) = err raised

unfoldable pub coerce_non_negative_int : Counts → Option Json → Result (Option ℕ)
unfolding strip
coerce_non_negative_int counts (some (num n)) = ok (some n)
coerce_non_negative_int counts (some (other t)) =
    if counts.is_nan t then ok none else (counts.of_literal t >>= λ n. ok (some n))
coerce_non_negative_int counts (some (str t)) =
    let stripped = strip whitespace t in
    if stripped == [] then ok none else caught (counts.of_text stripped)
coerce_non_negative_int counts _ = ok none

abbrev pub or_count : Result (Option ℕ) → Option ℕ → Result (Option ℕ)
or_count later (some n) = ok (some n)
or_count later none = later

unfoldable pub first_non_negative_int : Counts → Fields → List String → Result (Option ℕ)
unfolding coerce_non_negative_int
first_non_negative_int counts values [] = ok none
first_non_negative_int counts values (key ∷ rest) =
    let later = first_non_negative_int counts values rest in
    coerce_non_negative_int counts (get key values) >>= or_count later

abbrev pub or_zero : Option ℕ → ℕ
or_zero none = 0
or_zero (some n) = n

-- Without a total, it is the sum of what there is.
abbrev pub total_of : Option ℕ → Option ℕ → Option ℕ → Option ℕ
total_of prompt completion (some total) = some total
total_of none none none = none
total_of (some p) completion none = some (p + or_zero completion)
total_of none (some c) none = some c

abbrev pub usage_of : Option ℕ → Option ℕ → Option ℕ → Usage
usage_of prompt completion total = record {
  prompt_tokens = prompt;
  completion_tokens = completion;
  total_tokens = total_of prompt completion total;
}

abbrev pub no_usage : Usage
no_usage = record { prompt_tokens = none; completion_tokens = none; total_tokens = none }

unfoldable pub normalize_usage_counts : Counts → Json → Result Usage
unfolding first_non_negative_int
normalize_usage_counts counts (obj usage) = do
  prompt ← first_non_negative_int counts usage prompt_keys
  completion ← first_non_negative_int counts usage completion_keys
  total ← first_non_negative_int counts usage total_keys
  ok (usage_of prompt completion total)
normalize_usage_counts counts _ = ok no_usage

abbrev pub count_field : String → Option ℕ → Fields → Fields
count_field key none rest = rest
count_field key (some n) rest = field key (num n) rest

-- The dictionary of the counts that there are, before `rest`.
abbrev pub usage_fields : Usage → Fields → Fields
usage_fields u rest = count_field "prompt_tokens" u.prompt_tokens (
    count_field "completion_tokens" u.completion_tokens
      (count_field "total_tokens" u.total_tokens rest))

-- `fields[key] = value`: an old key keeps its place.
unfoldable pub set_field : String → Json → Fields → Fields
set_field key value end = field key value end
set_field key value (field k v rest) =
    let later = set_field key value rest in
    if key == k then field key value rest else field k v later

-- A value that is no dictionary is an empty one.
abbrev pub fields_or_empty : Option Json → Fields
fields_or_empty (some (obj fields)) = fields
fields_or_empty _ = end

-- `normalize_usage_counts` of a dictionary, and nothing of anything else
abbrev pub counts_or_none : Counts → Option Json → Result Usage
counts_or_none counts (some (obj fields)) = normalize_usage_counts counts (obj fields)
counts_or_none counts _ = ok no_usage

unfoldable pub latest_usage_counts : Counts → Fields → Result Usage
unfolding normalize_usage_counts
latest_usage_counts counts metadata =
    counts_or_none counts (get "latest" (fields_or_empty (get "usage_budget" metadata)))

abbrev pub added : Option ℕ → Option ℕ → Option ℕ
added sum n = some (or_zero sum + or_zero n)

unfoldable pub accumulate : Usage → Usage → Usage
accumulate sum u = record {
  prompt_tokens = added sum.prompt_tokens u.prompt_tokens;
  completion_tokens = added sum.completion_tokens u.completion_tokens;
  total_tokens = added sum.total_tokens u.total_tokens;
}

abbrev pub is_empty : Usage → Bool
is_empty u = elim u.total_tokens [ none ↦ Bool.true | some n ↦ Bool.false ]

-- The budget with the counts, their sums and the number of turns.
abbrev pub budget_of : Fields → Usage → Usage → ℕ → Text → Text → Fields
budget_of budget u cumulative turns source now = set_field "turns_with_usage" (num (turns + 1)) (
    set_field "cumulative" (obj (usage_fields cumulative end)) (
      set_field "latest"
        (obj (usage_fields u (field "source" (str source) (field "updated_at" (str now) end))))
        budget))

-- The new metadata; `now` is the clock's text.
unfoldable pub updated_metadata : Counts → Fields → Usage → Text → Text → Result Fields
unfolding accumulate set_field normalize_usage_counts coerce_non_negative_int
updated_metadata counts metadata u source now = do
  let budget = fields_or_empty (get "usage_budget" metadata)
  sums ← counts_or_none counts (get "cumulative" budget)
  turns ← coerce_non_negative_int counts (get "turns_with_usage" budget)
  ok (
      set_field "usage_budget"
        (obj (budget_of budget u (accumulate sums u) (or_zero turns) source now)) metadata)

-- The metadata are assigned at the end, so that a call that raises leaves them as they are.
abbrev pub assigned : Fields → Usage → Result Fields → Result (Option Usage) × Fields
assigned metadata u (err raised) = (err raised, metadata)
assigned metadata u (ok updated) = (ok (some u), updated)

abbrev pub stored_usage :
    Counts → Fields → Text → Text → Result Usage → Result (Option Usage) × Fields
stored_usage counts metadata source now (err raised) = (err raised, metadata)
stored_usage counts metadata source now (ok u) =
    if is_empty u
    then (ok none, metadata)
    else assigned metadata u (updated_metadata counts metadata u source now)

-- What is returned or raised: the counts of the call, if there are any; and the metadata.
unfoldable pub update_session_usage_budget :
    Counts → Fields → Json → Text → Text → Result (Option Usage) × Fields
unfolding updated_metadata normalize_usage_counts
update_session_usage_budget counts metadata usage source now =
    stored_usage counts metadata source now (normalize_usage_counts counts usage)

get-set_field :
    (j k : String) (v : Json) (fields : Fields)
    → get j (set_field k v fields) ≡ (if j == k then some v else get j fields)
unfolding get set_field
get-set_field j k v end = ground arith
get-set_field j k v (field i w rest) = ground (arith, get-set_field j k v rest)

latest_fields : Usage → Text → Text → Fields
latest_fields u source now =
    usage_fields u (field "source" (str source) (field "updated_at" (str now) end))

-- The counts that were written are read back.
normalize-latest_fields :
    (counts : Counts) (p c : Option ℕ) (t : ℕ) (source now : Text)
    → normalize_usage_counts counts (obj (latest_fields (usage_of p c (some t)) source now))
      ≡ ok (usage_of p c (some t))
unfolding normalize_usage_counts first_non_negative_int coerce_non_negative_int get string_eq
    latest_fields
normalize-latest_fields counts none none t source now = refl
normalize-latest_fields counts none (some c) t source now = refl
normalize-latest_fields counts (some p) none t source now = refl
normalize-latest_fields counts (some p) (some c) t source now = refl

latest-budget_of :
    (counts : Counts) (metadata budget : Fields) (u sums : Usage) (turns : ℕ) (source now : Text)
    → latest_usage_counts counts
        (set_field "usage_budget" (obj (budget_of budget u sums turns source now)) metadata)
      ≡ normalize_usage_counts counts (obj (latest_fields u source now))
unfolding latest_usage_counts latest_fields
latest-budget_of counts metadata budget u sums turns source now =
    let latest = obj (latest_fields u source now) in
    let one = set_field "latest" latest budget in
    let two = set_field "cumulative" (obj (usage_fields sums end)) one in
    let three = set_field "turns_with_usage" (num (turns + 1)) two in
    ground (
      arith,
      get-set_field "usage_budget" "usage_budget" (obj three) metadata,
      get-set_field "latest" "turns_with_usage" (num (turns + 1)) two,
      get-set_field "latest" "cumulative" (obj (usage_fields sums end)) one,
      get-set_field "latest" "latest" latest budget,
      literals_differ "latest" "turns_with_usage" refl,
      literals_differ "latest" "cumulative" refl,
    )

-- An update of the metadata raises what one of its two readings of the old budget raises.
abbrev pub IsRaising : Counts → Fields → Error → Type 0
IsRaising counts metadata raised =
    let budget = fields_or_empty (get "usage_budget" metadata) in
    (counts_or_none counts (get "cumulative" budget) ≡ err raised)
    ⊎ (coerce_non_negative_int counts (get "turns_with_usage" budget) ≡ err raised)

updated_metadata-cases :
    (counts : Counts) (metadata : Fields) (u : Usage) (source now : Text)
    → ((raised : Error) × (updated_metadata counts metadata u source now ≡ err raised)
        × IsRaising counts metadata raised)
      ⊎ ((after : Fields) × (updated_metadata counts metadata u source now ≡ ok after)
          × (latest_usage_counts counts after
              ≡ normalize_usage_counts counts (obj (latest_fields u source now))))
unfolding updated_metadata
updated_metadata-cases counts metadata u source now =
    let budget = fields_or_empty (get "usage_budget" metadata) in
    elim (Result-cases (counts_or_none counts (get "cumulative" budget))) [
      | inr (raised, p) ↦ inl (raised, ground (arith, p), inl p)
      | inl (sums, p) ↦
          elim (Result-cases (coerce_non_negative_int counts (get "turns_with_usage" budget))) [
            | inr (raised, q) ↦ inl (raised, ground (arith, p, q), inr q)
            | inl (turns, q) ↦ inr (
              _,
              rw (p, q) refl,
              latest-budget_of counts metadata budget u (accumulate sums u) (or_zero turns) source
                  now,
            )
          ]
    ]

-- What an update does: it raises what one of its readings raises, and leaves the metadata; the payload
-- holds no counts, and it returns nothing and leaves the metadata; or it returns the counts that the
-- payload holds, and they are the latest counts of the metadata that it leaves.
pub data IsUpdated (counts : Counts) (metadata : Fields) (usage : Json)
    (out : Result (Option Usage) × Fields) : Type 0 where
  raising :
      (raised : Error)
      → (normalize_usage_counts counts usage ≡ err raised) ⊎ IsRaising counts metadata raised
      → out ≡ (err raised, metadata)
      → IsUpdated counts metadata usage out
  nothing_used :
      (u : Usage)
      → normalize_usage_counts counts usage ≡ ok u
      → u.total_tokens ≡ none
      → out ≡ (ok none, metadata)
      → IsUpdated counts metadata usage out
  used :
      (u : Usage)
      → normalize_usage_counts counts usage ≡ ok u
      → out.0 ≡ ok (some u)
      → latest_usage_counts counts out.1 ≡ ok u
      → IsUpdated counts metadata usage out

stored_usage-IsUpdated :
    (counts : Counts) (metadata : Fields) (usage : Json) (source now : Text) (u : Usage)
    → normalize_usage_counts counts usage ≡ ok u
    → IsUpdated counts metadata usage (stored_usage counts metadata source now (ok u))
stored_usage-IsUpdated counts metadata usage source now u h = elim (Option-cases u.total_tokens) [
  | inl nothing ↦ nothing_used u h nothing (ground (arith, nothing))
  | inr (t, total) ↦ elim (updated_metadata-cases counts metadata u source now) [
    | inl (raised, p, why) ↦ raising raised (inr why) (ground (arith, total, p))
    | inr (after, p, latest) ↦ used u h (ground (arith, total, p)) (
        ground (
          arith,
          total,
          p,
          latest,
          normalize-latest_fields counts u.prompt_tokens u.completion_tokens t source now,
        ))
  ]
]

-- An update either raises what one of its readings raises, the payload's or one of the old budget, and
-- leaves the metadata as they are; or the payload holds no counts, and it returns nothing and leaves
-- the metadata as they are; or it returns the counts that the payload holds, and the latest counts of
-- the metadata that it leaves are these.
pub update_session_usage_budget-IsUpdated :
    (counts : Counts) (metadata : Fields) (usage : Json) (source now : Text)
    → IsUpdated counts metadata usage (update_session_usage_budget counts metadata usage source now)
unfolding update_session_usage_budget
update_session_usage_budget-IsUpdated counts metadata usage source now =
    elim (Result-cases (normalize_usage_counts counts usage)) [
      | inr (raised, h) ↦ raising raised (inl h) (ground (arith, h))
      | inl (u, h) ↦ rw h (stored_usage-IsUpdated counts metadata usage source now u h)
    ]
