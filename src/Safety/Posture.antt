-- ===== src/Safety/Posture.antt =====
-- localagentcli/safety/posture.py: the sandbox posture.
use local_agent_cli.Base.{
  Bool, Option, String, false, if◌then◌else◌, none, not, some, string_eq, true, ◌&&◌, ◌++◌, ◌==◌,
}
use local_agent_cli.Base.Text.{Text, codes}
use local_agent_cli.Base.Result.{Result, err, ok, value_error}
use local_agent_cli.Tools.Base.{Tool}

pub data SandboxPosture : Type 0 where
  workspace_write read_only danger_full_access : SandboxPosture

-- The enum's `value`.
unfoldable pub value : SandboxPosture → String
value workspace_write = "workspace-write"
value read_only = "read-only"
value danger_full_access = "danger-full-access"

-- `posture is other`
unfoldable pub is_posture : SandboxPosture → SandboxPosture → Bool
is_posture workspace_write workspace_write = true
is_posture read_only read_only = true
is_posture danger_full_access danger_full_access = true
is_posture _ _ = false

unfoldable pub side_effect_block_reason : SandboxPosture → Tool → Option Text
unfolding is_posture
side_effect_block_reason posture tool =
    if is_posture posture danger_full_access
    then none
    else if is_posture posture read_only && not tool.is_read_only
    then some (codes "Runtime sandbox mode 'read-only' blocks side-effecting tools.")
    else none

-- `repr` is Python's, for the message.
unfoldable pub parse_sandbox_mode : (String → Text) → String → Result SandboxPosture
parse_sandbox_mode repr text =
    if text == "workspace-write"
    then ok workspace_write
    else if text == "read-only"
    then ok read_only
    else if text == "danger-full-access"
    then ok danger_full_access
    else err (
        value_error (
          codes "Invalid sandbox mode "
          ++ (repr text
              ++ codes ". Expected one of: danger-full-access, read-only, workspace-write")))
