-- ===== src/Tools/Registry.antt =====
-- localagentcli/tools/registry.py and localagentcli/tools/router.py: the tools by name. An
-- implementation is what `execute` runs, of whatever type.
pub mod Laws
use local_agent_cli.Base.{
  List, Option, String, [], list_eq, map, nat_eq, none, some, string_eq, ◌++◌, ◌∷◌,
}
use local_agent_cli.Base.Text.{codes, join}
use local_agent_cli.Base.Result.{Result, err, ok, value_error}
use local_agent_cli.Base.Json.{Json}
use local_agent_cli.Base.Dict.{Dict, insert, lookup, values}
use local_agent_cli.Tools.Base.{Tool, ToolResult, error_result}
use local_agent_cli.Tools.Adaptation.{ModelInfo, Numbers, adapt_tool_definitions, all_definitions}
use local_agent_cli.Tools.Schema.{validate_function_parameters_schema}

-- A tool with its implementation; a `DynamicToolSpec` is one too.
pub record Registered (A : Type 0) : Type 0 where
  pub tool : Tool
  pub implementation : A

pub record ToolRegistry (A : Type 0) : Type 0 where
  pub tools : Dict String (Registered A)

pub record ToolRouter (A : Type 0) : Type 0 where
  pub builtins : ToolRegistry A
  pub dynamic : Dict String (Registered A)

module _ {A : Type 0} where
  unfoldable pub register : Registered A → ToolRegistry A → ToolRegistry A
  register entry r = record { tools = insert entry.tool.name entry r.tools }

  -- `ToolRegistry(tools)`
  unfoldable pub tool_registry : List (Registered A) → ToolRegistry A → ToolRegistry A
  tool_registry [] r = r
  tool_registry (entry ∷ rest) r = tool_registry rest (register entry r)

  unfoldable pub get_registered : String → ToolRegistry A → Option (Registered A)
  get_registered name r = lookup name r.tools

  unfoldable pub list_registered : ToolRegistry A → List (Registered A)
  list_registered r = values r.tools

  unfoldable pub register_builtin : Registered A → ToolRouter A → ToolRouter A
  register_builtin entry r = record r { builtins = register entry r.builtins }

  unfoldable pub register_dynamic_tool : Registered A → ToolRouter A → Result (ToolRouter A)
  register_dynamic_tool spec r =
      elim (validate_function_parameters_schema spec.tool.parameters_schema) [
        | issue ∷ more ↦ err (
            value_error (
              codes "Dynamic tool '"
              ++ (codes spec.tool.name
                  ++ (codes "' has invalid parameters_schema: "
                      ++ join (codes "; ") (issue ∷ more)))))
        | [] ↦ ok (record r { dynamic = insert spec.tool.name spec r.dynamic })
      ]

  -- `self._builtins.get_tool(name) or self._dynamic.get(name)`
  abbrev pub or_dynamic : Option (Registered A) → Option (Registered A) → Option (Registered A)
  or_dynamic (some entry) dynamic = some entry
  or_dynamic none dynamic = dynamic

  unfoldable pub get_tool : String → ToolRouter A → Option (Registered A)
  get_tool name r = or_dynamic (get_registered name r.builtins) (lookup name r.dynamic)

  unfoldable pub list_tools : ToolRouter A → List (Registered A)
  list_tools r = list_registered r.builtins ++ values r.dynamic

  unfoldable pub get_tool_definitions :
      Numbers → Option ModelInfo → ToolRouter A → Result (List Json)
  get_tool_definitions numbers none r = all_definitions (map (λ entry. entry.tool) (list_tools r))
  get_tool_definitions numbers (some model_info) r =
      adapt_tool_definitions numbers (map (λ entry. entry.tool) (list_tools r)) model_info

  -- `run` is how an implementation is called.
  unfoldable pub execute_named : (A → ToolResult) → String → ToolRouter A → ToolResult
  execute_named run name r = elim (get_tool name r) [
    | none ↦
        error_result (codes "Unknown tool '" ++ (codes name ++ codes "'"))
          (codes "The requested tool is not registered.") [] none []
    | some entry ↦ run entry.implementation
  ]
