-- ===== src/Guardian.antt =====
-- localagentcli/guardian/reviewer.py: a model's review of an action, instead of the user's approval.
-- Both the blocking and the asynchronous review are this one, with the model's answer given.
pub mod Laws
use local_agent_cli.Base.{
  Bool, List, Option, String, [], all, contains, drop, false, if◌then◌else◌, leb, length, list_eq,
  ltb, map, nat_eq, none, not, some, string_eq, suc, take, true, zero, ℕ, ◌&&◌, ◌++◌, ◌+◌, ◌==◌,
  ◌||◌, ◌∷◌,
}
use local_agent_cli.Base.Text.{Text, codes, join, strip, whitespace}
use local_agent_cli.Base.Result.{Result, err, message, ok, require, value_error, ◌>>=◌, ◌>>◌}
use local_agent_cli.Base.Decimal.{decimal}
use local_agent_cli.Base.Json.{
  Fields, Items, Json, arr, bool, cons, end, field, get, nil, null, num, obj, other, str,
}
use local_agent_cli.Models.{ModelMessage, last_items, plain_message}

-- `json.loads`, `json.dumps(value, ensure_ascii=False, indent=2)`, `str` and `str.lower`.
pub record Texts : Type 0 where
  pub loads : Text → Result Json
  pub dumps : Json → Text
  pub str_of : Json → Text
  pub lower : Text → Text

pub record GuardianReviewRequest : Type 0 where
  pub tool_name : String
  pub arguments : Fields
  pub risk_level : String
  pub risk_reason : Text
  pub warnings : List Text
  pub task : Text
  pub step_index : Option ℕ
  pub step_description : Text
  pub transcript_tail : List ModelMessage

abbrev pub command_target : Option Json → Text
command_target (some (str command)) = codes " command=" ++ take 120 (strip whitespace command)
command_target _ = []

abbrev pub target_text : Option Json → Option Json → Text
target_text (some (str path)) command = codes " path=" ++ path
target_text _ command = command_target command

unfoldable pub action_summary : GuardianReviewRequest → Text
action_summary request = strip whitespace (
    codes request.tool_name
    ++ target_text (get "path" request.arguments) (get "command" request.arguments))

-- An evidence item: its fact and its source.
pub record Evidence : Type 0 where
  pub fact : Text
  pub source : Text

pub record GuardianReviewResult : Type 0 where
  pub approved : Bool
  pub risk_level : Text
  pub risk_score : ℕ
  pub rationale : Text
  pub evidence : List Evidence
  pub failure : Text

-- `a.strip() or b`
abbrev pub stripped_or : Text → Text → Text
stripped_or a b = if strip whitespace a == [] then b else strip whitespace a

unfoldable pub fail_closed : Text → GuardianReviewResult
fail_closed reason =
    let shown = stripped_or reason (codes "guardian review failed") in
    record {
      approved = false;
      risk_level = codes "high";
      risk_score = 100;
      rationale = codes "Guardian review failed; action denied by fail-closed policy.";
      evidence = record { fact = shown; source = codes "context" } ∷ [];
      failure = shown;
    }

unfoldable pub transcript_line : Texts → ModelMessage → Text
transcript_line texts message =
    let role = texts.lower (strip whitespace (codes message.role)) in
    let content = strip whitespace message.content in
    codes "- "
    ++ ((if role == [] then codes "unknown" else role)
        ++ (codes ": "
            ++ (if ltb 400 (length content) then take 397 content ++ codes "..." else content)))

unfoldable pub format_transcript_tail : Texts → List ModelMessage → Text
format_transcript_tail texts [] = codes "(none)"
format_transcript_tail texts (message ∷ rest) =
    join (10 ∷ []) (map (transcript_line texts) (last_items 6 (message ∷ rest)))

abbrev pub text_list : List Text → Items
text_list [] = nil
text_list (t ∷ rest) = cons (str t) (text_list rest)

abbrev pub index_json : Option ℕ → Json
index_json none = null
index_json (some n) = num n

-- `system_prompt` is `_GUARDIAN_SYSTEM_PROMPT`.
unfoldable pub build_guardian_messages : Texts → Text → GuardianReviewRequest → List ModelMessage
build_guardian_messages texts system_prompt request =
    let payload = obj (
      field "tool_name" (str (codes request.tool_name)) (
        field "arguments" (obj request.arguments) (
          field "risk_level" (str (codes request.risk_level)) (
            field "risk_reason" (str request.risk_reason) (
              field "warnings" (arr (text_list request.warnings)) (
                field "task" (str request.task) (
                  field "step_index" (index_json request.step_index)
                    (field "step_description" (str request.step_description) end)))))))) in
    plain_message "system" system_prompt
    ∷ plain_message "user" (
        codes "Assess this proposed action and return strict JSON only.\n\nRequest:\n"
        ++ (texts.dumps payload
            ++ (codes "\n\nTranscript tail:\n"
                ++ format_transcript_tail texts request.transcript_tail)))
    ∷ []

-- `text.find(c)` and `text.rfind(c)`: none is -1.
abbrev pub later : Option ℕ → Option ℕ
later none = none
later (some i) = some (i + 1)

unfoldable pub find : ℕ → Text → Option ℕ
find c [] = none
find c (d ∷ t) = let rest = later (find c t) in if d == c then some 0 else rest

abbrev pub first_of : Bool → Option ℕ → Option ℕ
first_of here (some i) = some (i + 1)
first_of true none = some 0
first_of false none = none

unfoldable pub rfind : ℕ → Text → Option ℕ
rfind c [] = none
rfind c (d ∷ t) = first_of (d == c) (rfind c t)

abbrev pub as_object : Text → Json → Result Fields
as_object complaint (obj fields) = ok fields
as_object complaint _ = err (value_error complaint)

-- The object between the first opening and the last closing brace.
abbrev pub between : Texts → Text → Option ℕ → Option ℕ → Result Fields
between texts text (some start) (some stop) =
    if leb stop start
    then err (value_error (codes "response did not contain JSON object"))
    else elim (texts.loads (drop start (take (stop + 1) text))) [
      | err e ↦ err (value_error (codes "invalid JSON object: " ++ message e))
      | ok parsed ↦ as_object (codes "JSON payload must be an object") parsed
    ]
between texts text _ _ = err (value_error (codes "response did not contain JSON object"))

abbrev pub parsed_or : Result Json → Result Fields → Result Fields
parsed_or (ok (obj fields)) fallback = ok fields
parsed_or _ fallback = fallback

unfoldable pub parse_json_payload : Texts → Text → Result Fields
parse_json_payload texts text =
    parsed_or (texts.loads text) (between texts text (find b'{' text) (rfind b'}' text))

-- `str(payload.get(key, default)).strip()`
abbrev pub stripped_item : Texts → String → Text → Fields → Text
stripped_item texts key default fields =
    strip whitespace (elim (get key fields) [ none ↦ default | some j ↦ texts.str_of j ])

abbrev pub is_integer : Text → Bool
is_integer literal = all (λ c. c == b'-' || leb b'0' c && leb c b'9') literal

-- `isinstance(score_raw, int)` also holds of a Boolean.
unfoldable pub score_of : Option Json → Result ℕ
score_of (some (bool true)) = ok 1
score_of (some (bool false)) = ok 0
score_of (some (num n)) =
    if leb n 100 then ok n else err (value_error (codes "risk_score must be within 0-100"))
score_of (some (other literal)) =
    if is_integer literal
    then err (value_error (codes "risk_score must be within 0-100"))
    else err (value_error (codes "risk_score must be an integer"))
score_of _ = err (value_error (codes "risk_score must be an integer"))

abbrev pub evidence_unless_blank : Text → Text → List Evidence
evidence_unless_blank fact source =
    if fact == [] then [] else record { fact = fact; source = source } ∷ []

abbrev pub evidence_item : Texts → Json → List Evidence
evidence_item texts (obj fields) =
    evidence_unless_blank (stripped_item texts "fact" [] fields)
      (stripped_or (stripped_item texts "source" (codes "context") fields) (codes "context"))
evidence_item texts (str t) = evidence_unless_blank (strip whitespace t) (codes "context")
evidence_item texts _ = []

-- The first `n` items.
unfoldable pub evidence_items : Texts → ℕ → Items → List Evidence
evidence_items texts zero items = []
evidence_items texts (suc n) nil = []
evidence_items texts (suc n) (cons item rest) =
    evidence_item texts item ++ evidence_items texts n rest

abbrev pub normalize_evidence : Texts → Option Json → List Evidence
normalize_evidence texts (some (arr items)) = evidence_items texts 8 items
normalize_evidence texts _ = []

pub record ParsedAssessment : Type 0 where
  pub risk_level : Text
  pub risk_score : ℕ
  pub rationale : Text
  pub evidence : List Evidence

abbrev pub risk_levels : List Text
risk_levels = codes "low" ∷ codes "medium" ∷ codes "high" ∷ []

unfoldable pub parse_guardian_assessment : Texts → Text → Result ParsedAssessment
unfolding parse_json_payload score_of
parse_guardian_assessment texts text = do
  let stripped = strip whitespace text
  require (not (stripped == [])) (value_error (codes "empty response"))
  payload ← parse_json_payload texts stripped
  let risk_level = texts.lower (stripped_item texts "risk_level" [] payload)
  require (contains risk_levels risk_level)
      (value_error (codes "risk_level must be low|medium|high"))
  risk_score ← score_of (get "risk_score" payload)
  let rationale = stripped_item texts "rationale" [] payload
  require (not (rationale == [])) (value_error (codes "rationale is required"))
  ok (record {
    risk_level = risk_level;
    risk_score = risk_score;
    rationale = rationale;
    evidence = normalize_evidence texts (get "evidence" payload);
  })

-- What follows the model's answer.
unfoldable pub judge : Texts → ℕ → Text → GuardianReviewResult
judge texts deny_threshold response = elim (parse_guardian_assessment texts response) [
  | err e ↦ fail_closed (codes "guardian parse error: " ++ message e)
  | ok parsed ↦ record {
    approved = ltb parsed.risk_score deny_threshold;
    risk_level = parsed.risk_level;
    risk_score = parsed.risk_score;
    rationale = parsed.rationale;
    evidence = parsed.evidence;
    failure = [];
  }
]

-- `generate` is the model: its text, or what it raises.
unfoldable pub review_with_guardian :
    Texts
    → Text
    → ℕ
    → (List ModelMessage → Result Text)
    → GuardianReviewRequest
    → GuardianReviewResult
review_with_guardian texts system_prompt deny_threshold generate request =
    elim (generate (build_guardian_messages texts system_prompt request)) [
      | err e ↦ fail_closed (codes "guardian model error: " ++ message e)
      | ok response ↦ judge texts deny_threshold response
    ]
