-- ===== src/Tools/Base.antt =====
-- localagentcli/tools/base.py: the properties of a tool and the structured result of a call.
use local_agent_cli.Base.{Bool, List, Option, String, [], none, some, ℕ}
use local_agent_cli.Base.Text.{Text, codes}
use local_agent_cli.Base.Json.{Json}

-- The properties of `Tool` that the runtime reads; running a tool is not a property of it here.
pub record Tool : Type 0 where
  pub name : String
  pub description : Text
  pub parameters_schema : Json
  pub requires_approval : Bool
  pub is_read_only : Bool
  pub required_model_capabilities : List String
  pub minimum_model_default_max_tokens : ℕ

-- `ToolResult`, without `duration`, a float that only displays read.
pub record ToolResult : Type 0 where
  pub status : String
  pub summary : Text
  pub output : Text
  pub error : Option Text
  pub exit_code : Option ℕ
  pub files_changed : List Text

unfoldable pub success : Text → Text → Option ℕ → List Text → ToolResult
success summary output exit_code files_changed = record {
  status = "success";
  summary = summary;
  output = output;
  error = none;
  exit_code = exit_code;
  files_changed = files_changed;
}

unfoldable pub error_result : Text → Text → Text → Option ℕ → List Text → ToolResult
error_result summary error output exit_code files_changed = record {
  status = "error";
  summary = summary;
  output = output;
  error = some error;
  exit_code = exit_code;
  files_changed = files_changed;
}

unfoldable pub timeout_result : Text → Text → Text → ToolResult
timeout_result summary error output = record {
  status = "timeout";
  summary = summary;
  output = output;
  error = some error;
  exit_code = none;
  files_changed = [];
}

unfoldable pub denied : Text → Text → ToolResult
denied summary output = record {
  status = "denied";
  summary = summary;
  output = output;
  error = some (codes "Action denied by user.");
  exit_code = none;
  files_changed = [];
}
