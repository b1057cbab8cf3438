-- ===== src/Agents/Loop/Base.antt =====
-- localagentcli/agents/loop.py: what the loop works with, and the calls that a model makes.
use local_agent_cli.Base.{
  Bool, List, Option, String, [], contains, false, if◌then◌else◌, list_eq, nat_eq, none, not, some,
  string_eq, ℕ, ◌++◌, ◌==◌, ◌||◌, ◌∷◌,
}
use local_agent_cli.Base.Text.{Text, codes, starts_with, strip, whitespace}
use local_agent_cli.Base.Result.{Result, attribute_error, err, message, ok, type_error, ◌>>=◌}
use local_agent_cli.Base.Json.{
  Fields, Json, arr, bool, cons, end, field, get, null, num, obj, str, truthy,
}
use local_agent_cli.Base.Dict.{keys}
use local_agent_cli.Platform.{Platform}
use local_agent_cli.Models.{GenerationResult, ModelMessage}
use local_agent_cli.Tools.Base.{ToolResult}
use local_agent_cli.Tools.Adaptation.{ModelInfo, Numbers}
use local_agent_cli.Tools.Registry.{Registered, ToolRouter, get_tool}
use local_agent_cli.Safety.Boundary.{Shell}
use local_agent_cli.Safety.Layer.{Python, SafetyLayer, State}
use local_agent_cli.Guardian.{Texts, text_list}
use local_agent_cli.Agents.Truncation.{truncate_middle}

-- A tool's `execute`: a failure is a result.
abbrev pub Implementation : Platform → Type 0
Implementation P = Fields → P.Disk → ToolResult × P.Disk

-- What the loop is made with, and what answers it: the model and the clock by the count of the calls
-- made so far, and whether a stop has been requested by the count of the looks at it.
pub record Env (P : Platform) : Type 0 where
  pub py : Python
  pub shell : Shell
  pub texts : Texts
  -- `json.dumps` with ensure_ascii=False; with indent=2 and sort_keys=True; with sort_keys=True
  pub dumps : Json → Text
  pub dumps_sorted : Fields → Text
  pub dumps_key : Fields → Text
  pub numbers : Numbers
  pub now : ℕ → Text
  pub tools : ToolRouter (Implementation P)
  pub layer : SafetyLayer P
  pub model_info : ModelInfo
  -- What the model answers when it is asked for the n-th time: to a step, and to the guardian.
  pub generate : ℕ → List ModelMessage → List Json → GenerationResult
  pub review_answer : ℕ → List ModelMessage → Result Text
  pub stop_requested : ℕ → Bool
  pub approvals_reviewer : String
  pub guardian_prompt : Text
  pub deny_threshold : ℕ
  -- `adaptive_output_char_budget` of the model
  pub output_limit : ℕ
  pub max_consecutive_errors : ℕ
  pub max_step_rounds : ℕ
  pub unified_turn_loop : Bool

-- What the loop changes, and the answers that the user is still to give.
pub record Core (P : Platform) : Type 0 where
  pub safety : State P
  -- how often the model was asked, for an answer or for the guardian
  pub generations : ℕ
  pub executions : ℕ
  pub checks : ℕ
  pub answers : List Bool

pub record GuardianContext : Type 0 where
  pub task : Text
  pub step_index : ℕ
  pub step_description : Text
  pub transcript : List ModelMessage
  pub conversation : List ModelMessage

-- A call as `_normalize_tool_call` returns it; a missing name is null.
pub record NormalizedCall : Type 0 where
  pub call_id : Text
  pub tool_name : Json
  pub arguments : Fields
  pub parse_error : Option Text

-- `raw_call.get("function", raw_call)`, of which `get` is called
abbrev pub function_of : Fields → Option Json → Result Fields
function_of raw_call none = ok raw_call
function_of raw_call (some (obj function)) = ok function
function_of raw_call (some _) = err (attribute_error (codes "object has no attribute 'get'"))

abbrev pub or_null : Option Json → Json
or_null none = null
or_null (some j) = j

abbrev pub parsed_arguments : Result Json → Fields × Option Text
parsed_arguments (err e) = (end, some (codes "Could not parse arguments: " ++ message e))
parsed_arguments (ok (obj fields)) = (fields, none)
parsed_arguments (ok _) = (end, some (codes "Parsed tool arguments were not an object."))

unfoldable pub arguments_of : Texts → Option Json → Fields × Option Text
arguments_of texts none = (end, none)
arguments_of texts (some (obj fields)) = (fields, none)
arguments_of texts (some (str t)) =
    if strip whitespace t == [] then (end, none) else parsed_arguments (texts.loads t)
arguments_of texts (some _) = (end, some (codes "Tool arguments must be a JSON object."))

-- `str(raw_call.get("id", ""))`
unfoldable pub call_id_of : Texts → Fields → Text
call_id_of texts raw_call = elim (get "id" raw_call) [ none ↦ [] | some j ↦ texts.str_of j ]

unfoldable pub normalize_tool_call : Texts → Fields → Result NormalizedCall
unfolding arguments_of call_id_of
normalize_tool_call texts raw_call = do
  function ← function_of raw_call (get "function" raw_call)
  let (arguments, parse_error) = arguments_of texts (get "arguments" function)
  ok (record {
    call_id = call_id_of texts raw_call;
    tool_name = or_null (get "name" function);
    arguments = arguments;
    parse_error = parse_error;
  })

-- The key of a router that is this text.
unfoldable pub key_of : Text → List String → Option String
key_of t [] = none
key_of t (key ∷ rest) = if codes key == t then some key else key_of t rest

unfoldable pub get_tool_text : {A : Type 0} → Text → ToolRouter A → Option (Registered A)
get_tool_text t r = elim (key_of t (keys r.builtins.tools ++ keys r.dynamic)) [
  | none ↦ none
  | some key ↦ get_tool key r
]

-- `self._tools.get_tool(tool_name) if tool_name else None`: a list or a dict is no key.
unfoldable pub tool_of : {A : Type 0} → Json → ToolRouter A → Result (Option (Registered A))
tool_of (str t) r = if t == [] then ok none else ok (get_tool_text t r)
tool_of (arr (cons j js)) r = err (type_error (codes "unhashable type: 'list'"))
tool_of (obj (field k v fields)) r = err (type_error (codes "unhashable type: 'dict'"))
tool_of _ r = ok none

-- `tool_name or "unknown"`
unfoldable pub name_or_unknown : Json → Json
name_or_unknown name = if truthy name then name else str (codes "unknown")

abbrev pub text_or_null : Option Text → Json
text_or_null none = null
text_or_null (some t) = str t

abbrev pub number_or_null : Option ℕ → Json
number_or_null none = null
number_or_null (some n) = num n

module _ {P : Platform} where
  unfoldable pub tool_payload : Env P → Json → ToolResult → Text
  tool_payload env tool_name result =
      let truncated = truncate_middle result.output env.output_limit in
      env.dumps (
        obj (
          field "tool" tool_name (
            field "status" (str (codes result.status)) (
              field "summary" (str result.summary) (
                field "output" (str truncated.text) (
                  field "output_truncated" (bool truncated.was_truncated) (
                    field "output_original_chars" (num truncated.original_chars) (
                      field "output_retained_chars" (num truncated.retained_chars) (
                        field "error" (text_or_null result.error) (
                          field "exit_code" (number_or_null result.exit_code) (
                            field "files_changed" (arr (text_list result.files_changed))
                              end)))))))))))

  -- The message that answers a call.
  unfoldable pub tool_message : Env P → Text → Json → ToolResult → ModelMessage
  tool_message env call_id tool_name result = record {
    role = "tool";
    content = tool_payload env tool_name result;
    metadata = field "tool_call_id" (str call_id) (field "tool_name" tool_name end);
  }

  unfoldable pub should_route_approval_to_guardian : Env P → String → Bool → Bool
  should_route_approval_to_guardian env tool_name requires_approval =
      if not requires_approval
      then false
      else if not (env.approvals_reviewer == "guardian_subagent")
      then false
      else contains ("shell_execute" ∷ "file_write" ∷ "patch_apply" ∷ []) tool_name
        || starts_with (codes tool_name) (codes "mcp__")
