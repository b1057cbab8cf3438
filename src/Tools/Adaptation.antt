-- ===== src/Tools/Adaptation.antt =====
-- localagentcli/tools/adaptation.py: the tool definitions that a model is given.
use local_agent_cli.Base.{
  Bool, List, Option, String, [], all, false, if◌then◌else◌, list_eq, ltb, nat_eq, none, some,
  string_eq, suc, true, zero, ℕ, ◌++◌, ◌∷◌,
}
use local_agent_cli.Base.Text.{Text, codes, join}
use local_agent_cli.Base.Result.{Result, err, ok, value_error, ◌>>=◌}
use local_agent_cli.Base.Json.{Fields, Json, bool, end, field, get, num, obj, other, str, truthy}
use local_agent_cli.Tools.Base.{Tool}
use local_agent_cli.Tools.Schema.{validate_function_parameters_schema}

-- What is read of a `ModelInfo`.
pub record ModelInfo : Type 0 where
  pub capabilities : Json
  pub default_max_tokens : Json

-- `max(int(value), 0)` of a literal that is no integer from zero on, and of a text.
pub record Numbers : Type 0 where
  pub of_literal : Text → Result ℕ
  pub of_text : Text → Result ℕ

abbrev pub positive_or : ℕ → ℕ → ℕ
positive_or default zero = default
positive_or default (suc n) = suc n

-- `except ValueError: return default`
abbrev pub text_or_default : ℕ → Result ℕ → Result ℕ
text_or_default default (ok n) = ok (positive_or default n)
text_or_default default (err (value_error t)) = ok default
text_or_default default (err raised) = err raised

-- What `int` raises of an infinity or of NaN, as a float, is not caught.
unfoldable pub coerce_positive_int : Numbers → Json → ℕ → Result ℕ
coerce_positive_int numbers (num n) default = ok (positive_or default n)
coerce_positive_int numbers (other t) default =
    numbers.of_literal t >>= λ n. ok (positive_or default n)
coerce_positive_int numbers (str t) default = text_or_default default (numbers.of_text t)
coerce_positive_int numbers _ default = ok default

-- `model_info.capabilities if isinstance(model_info.capabilities, dict) else {}`
abbrev pub capability_fields : Json → Fields
capability_fields (obj fields) = fields
capability_fields _ = end

-- `bool(capabilities.get(capability, False))`
abbrev pub has_capability : Fields → String → Bool
has_capability capabilities capability = elim (get capability capabilities) [
  | none ↦ false
  | some value ↦ truthy value
]

unfoldable pub has_capabilities : Fields → List String → Bool
has_capabilities capabilities required = all (has_capability capabilities) required

-- `Tool.definition`: it raises for an invalid schema.
unfoldable pub definition : Tool → Result Json
definition tool = elim (validate_function_parameters_schema tool.parameters_schema) [
  | issue ∷ more ↦ err (
      value_error (
        codes "Tool '"
        ++ (codes tool.name
            ++ (codes "' has invalid parameters_schema: " ++ join (codes "; ") (issue ∷ more)))))
  | [] ↦ ok (
      obj (
        field "name" (str (codes tool.name)) (
          field "description" (str tool.description)
            (field "parameters" tool.parameters_schema end))))
]

-- `[tool.definition() for tool in tools]`
unfoldable pub all_definitions : List Tool → Result (List Json)
all_definitions [] = ok []
all_definitions (tool ∷ tools) = do
  shown ← definition tool
  more ← all_definitions tools
  ok (shown ∷ more)

-- The tests of the loop on one tool.
unfoldable pub is_offered : Fields → ℕ → Tool → Bool
is_offered capabilities default_max_tokens tool =
    if ltb default_max_tokens tool.minimum_model_default_max_tokens
    then false
    else has_capabilities capabilities tool.required_model_capabilities

unfoldable pub definitions_loop : Fields → ℕ → List Tool → Result (List Json)
definitions_loop capabilities default_max_tokens [] = ok []
definitions_loop capabilities default_max_tokens (tool ∷ tools) =
    if is_offered capabilities default_max_tokens tool
    then (do
      shown ← definition tool
      more ← definitions_loop capabilities default_max_tokens tools
      ok (shown ∷ more))
    else definitions_loop capabilities default_max_tokens tools

-- `capabilities.get("tool_use") is False`
abbrev pub refuses_tools : Option Json → Bool
refuses_tools (some (bool false)) = true
refuses_tools _ = false

unfoldable pub adapt_tool_definitions : Numbers → List Tool → ModelInfo → Result (List Json)
adapt_tool_definitions numbers tools model_info =
    let capabilities = capability_fields model_info.capabilities in
    if refuses_tools (get "tool_use" capabilities)
    then ok []
    else (coerce_positive_int numbers model_info.default_max_tokens 4096 >>= λ default_max_tokens.
        definitions_loop capabilities default_max_tokens tools)
