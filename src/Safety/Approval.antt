-- ===== src/Safety/Approval.antt =====
-- localagentcli/safety/approval.py and localagentcli/safety/exec_policy.py: who has to be asked.
pub mod Laws
use local_agent_cli.Base.{Bool, String, false, if◌then◌else◌, not, string_eq, true, ◌&&◌, ◌==◌}
use local_agent_cli.Tools.Base.{Tool}
use local_agent_cli.Safety.Posture.{SandboxPosture, danger_full_access, is_posture}

pub data RiskLevel : Type 0 where
  normal high : RiskLevel

-- The enum's `value`.
unfoldable pub risk_value : RiskLevel → String
risk_value normal = "normal"
risk_value high = "high"

unfoldable pub requires_tool_approval :
    String → Bool → Bool → String → String → SandboxPosture → Bool
requires_tool_approval tool_name tool_is_read_only requires risk_level mode posture =
    if risk_level == "high"
    then (if tool_name == "shell_execute"
          && (mode == "autonomous" && is_posture posture danger_full_access)
        then false
        else true)
    else if tool_is_read_only
    then false
    else if not requires
    then false
    else not (mode == "autonomous")

pub record ApprovalManager : Type 0 where
  pub default_mode : String
  pub mode : String

unfoldable pub approval_manager : String → ApprovalManager
approval_manager mode = record { default_mode = mode; mode = mode }

unfoldable pub needs_approval : ApprovalManager → Tool → RiskLevel → SandboxPosture → Bool
unfolding requires_tool_approval risk_value
needs_approval m tool risk_level posture =
    requires_tool_approval tool.name tool.is_read_only tool.requires_approval
      (risk_value risk_level) m.mode posture

unfoldable pub set_autonomous : Bool → ApprovalManager → ApprovalManager
set_autonomous persist_default m = record {
  default_mode = if persist_default then "autonomous" else m.default_mode;
  mode = "autonomous";
}

unfoldable pub set_balanced : Bool → ApprovalManager → ApprovalManager
set_balanced persist_default m = record {
  default_mode = if persist_default then "balanced" else m.default_mode;
  mode = "balanced";
}

unfoldable pub reset : ApprovalManager → ApprovalManager
reset m = record m { mode = m.default_mode }
