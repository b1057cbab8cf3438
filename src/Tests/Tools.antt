-- ===== src/Tests/Tools.antt =====
-- Runs of the schema's check, the router and the guardian on small inputs.
use local_agent_cli.Base.{
  List, String, [], false, list_eq, nat_eq, none, refl, string_eq, true, ◌↔◌, ◌∷◌, ◌≡◌,
}
use local_agent_cli.Base.Text.{Text, codes, lstrip, starts_with, strip}
use local_agent_cli.Base.Result.{Result, err, ok, value_error}
use local_agent_cli.Base.Dict.{insert, lookup}
use local_agent_cli.Base.Json.{Json, arr, cons, end, field, nil, num, obj, str}
use local_agent_cli.Models.{ModelMessage}
use local_agent_cli.Tools.Schema.{validate_function_parameters_schema}
use local_agent_cli.Tools.Schema.Laws.{
  IsFunctionSchema, validate_function_parameters_schema-IsFunctionSchema,
}
use local_agent_cli.Tools.Adaptation.{ModelInfo, Numbers}
use local_agent_cli.Tools.Registry.{
  Registered, ToolRouter, get_registered, get_tool, register, register_builtin,
}
use local_agent_cli.Tools.Registry.Laws.{builtin, empty_router, fresh, get_tool-name, updated}
use local_agent_cli.Tools.PatchApply.{
  PatchOperation, apply_legacy_exact_replacement, apply_operation, candidate_matches, choose_match,
  count, count_from, find_match_index, margin, matches_from, matches_here, reindent_replacement,
  replace_first, resolve_anchor_index,
}
use local_agent_cli.Tools.PatchApply.Laws.{
  IsApplied, IsReplacedOnce, apply_legacy_exact_replacement-IsReplacedOnce,
  apply_operation-IsApplied,
}
use local_agent_cli.Guardian.{
  GuardianReviewRequest, Texts, build_guardian_messages, review_with_guardian,
}
use local_agent_cli.Guardian.Laws.{IsCleared, review_with_guardian-IsCleared}

abbrev schema : Json
schema = obj (
    field "type" (str (codes "object")) (
      field "properties" (obj (field "path" (obj (field "type" (str (codes "string")) end)) end))
        (field "required" (arr (cons (str (codes "path")) nil)) end)))

validate_function_parameters_schema-IsFunctionSchema_example :
    (validate_function_parameters_schema schema ≡ []) ↔ IsFunctionSchema schema
validate_function_parameters_schema-IsFunctionSchema_example =
    validate_function_parameters_schema-IsFunctionSchema schema

abbrev file_read : Registered (Unit {0})
file_read = record {
  tool = record {
    name = "file_read";
    description = [];
    parameters_schema = schema;
    requires_approval = false;
    is_read_only = true;
    required_model_capabilities = "tool_use" ∷ [];
    minimum_model_default_max_tokens = 2048;
  };
  implementation = tt;
}

abbrev router : ToolRouter (Unit {0})
router = register_builtin file_read empty_router

get_tool-name_example : ◌≡◌ {A = String} "file_read" "file_read"
unfolding lookup get_tool get_registered register_builtin register insert string_eq
get_tool-name_example =
    get_tool-name router "file_read" file_read (updated fresh (builtin file_read)) refl

abbrev numbers : Numbers
numbers = record {
  of_literal = λ t. err (value_error (codes "int() argument"));
  of_text = λ t. err (value_error (codes "int() argument"));
}

abbrev small_model : ModelInfo
small_model = record {
  capabilities = obj (field "tool_use" (Json.bool true) end);
  default_max_tokens = num 1024;
}

abbrev assessment : Json
assessment = obj (
    field "risk_level" (str (codes "low"))
      (field "risk_score" (num 10) (field "rationale" (str (codes "reads only")) end)))

text_of : Json → Text
text_of (str t) = t
text_of _ = []

abbrev texts : Texts
texts = record { loads = λ t. ok assessment; dumps = λ j. []; str_of = text_of; lower = λ t. t }

abbrev request : GuardianReviewRequest
request = record {
  tool_name = "file_write";
  arguments = end;
  risk_level = "normal";
  risk_reason = [];
  warnings = [];
  task = [];
  step_index = none;
  step_description = [];
  transcript_tail = [];
}

abbrev answer : List ModelMessage → Result Text
answer messages = ok (codes "{}")

review_with_guardian-IsCleared_example :
    ((review_with_guardian texts (codes "prompt") 80 answer request).approved ≡ true) ↔ (
      (response : Text) × (answer (build_guardian_messages texts (codes "prompt") request)
        ≡ ok response)
      × IsCleared texts 80 response)
review_with_guardian-IsCleared_example =
    review_with_guardian-IsCleared texts (codes "prompt") 80 answer request

apply_legacy_exact_replacement-IsReplacedOnce_example :
    (count (codes "ab") (codes "a") ≡ 1)
    × IsReplacedOnce (codes "ab") (codes "a") (codes "c") (codes "cb")
unfolding apply_legacy_exact_replacement count count_from replace_first codes starts_with list_eq
    nat_eq
apply_legacy_exact_replacement-IsReplacedOnce_example =
    apply_legacy_exact_replacement-IsReplacedOnce (codes "ab") (codes "a") (codes "c") (codes "cb")
      refl

-- A line is found without its margin.
abbrev operation : PatchOperation
operation = record { anchors = []; old_lines = codes "y" ∷ []; new_lines = codes "z" ∷ [] }

apply_operation-IsApplied_example :
    IsApplied (codes "x" ∷ codes " y" ∷ []) operation (codes "x" ∷ codes " z" ∷ []) 2
unfolding apply_operation resolve_anchor_index find_match_index choose_match candidate_matches
    matches_from matches_here reindent_replacement codes list_eq nat_eq strip lstrip margin
apply_operation-IsApplied_example =
    apply_operation-IsApplied (codes "x" ∷ codes " y" ∷ []) operation 0
      (codes "x" ∷ codes " z" ∷ []) 2 refl refl
