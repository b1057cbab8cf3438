-- ===== src/Safety/Layer/Check.antt =====
-- localagentcli/safety/layer.py: the layer's state, and the decision on a call.
use local_agent_cli.Base.{
  Bool, Eq, List, Option, String, [], if◌then◌else◌, list_eq, nat_eq, none, some, string_eq, ◌++◌,
  ◌==◌, ◌∷◌,
}
use local_agent_cli.Base.Json.{Fields}
use local_agent_cli.Base.Result.{Result, boundary_error, err, ok, ◌>>=◌}
use local_agent_cli.Platform.{Platform}
use local_agent_cli.Tools.Base.{Tool}
use local_agent_cli.Safety.Posture.{SandboxPosture, parse_sandbox_mode, side_effect_block_reason}
use local_agent_cli.Safety.Approval.{ApprovalManager, RiskLevel, high, needs_approval}
use local_agent_cli.Safety.Policy.{RuntimeSandboxPolicy, from_posture}
use local_agent_cli.Safety.Boundary.{Shell, WorkspaceBoundary, inspect_command, text, validate_path}
use local_agent_cli.Safety.Rollback.{RollbackManager, World}
use local_agent_cli.Safety.Layer.Risk.{
  Python, describe_risk, modification_targets, normalize_display_path, path_argument_values,
  text_argument,
}
use local_agent_cli.Base.Text.{Text, codes, join}
use local_agent_cli.Base.Dict.{Dict}

pub data Status : Type 0 where
  approved needs_asking blocked : Status

pub record ApprovalResult : Type 0 where
  pub status : Status
  pub risk_level : RiskLevel
  pub reason : Option Text
  pub warnings : List Text
  pub risk_reason : Option Text
  pub rollback_summary : Option Text

pub record PendingRollback (P : Platform) : Type 0 where
  pub file_path : P.FilePath
  pub existed_before : Bool
  pub backup_path : Option P.FilePath

-- What the layer is made with, and the posture that `set_sandbox_mode` replaces.
pub record SafetyLayer (P : Platform) : Type 0 where
  pub approval : ApprovalManager
  pub boundary : WorkspaceBoundary P
  pub rollback : RollbackManager P
  pub sandbox_posture : SandboxPosture
  pub sandbox_policy : RuntimeSandboxPolicy P

-- What its methods change: the world of the rollback manager, and the pending changes.
pub record State (P : Platform) : Type 0 where
  pub world : World P
  pub pending_changes : Dict Text (List (PendingRollback P))

module _ (P : Platform) ⦃e : Eq P.FilePath⦄ where
  unfoldable pub safety_layer :
      P.Disk
      → ApprovalManager
      → WorkspaceBoundary P
      → RollbackManager P
      → SandboxPosture
      → SafetyLayer P
  safety_layer disk approval boundary rollback posture = record {
    approval = approval;
    boundary = boundary;
    rollback = rollback;
    sandbox_posture = posture;
    sandbox_policy = from_posture P disk posture boundary.root none none;
  }

  -- `set_sandbox_mode` with a posture.
  unfoldable pub set_sandbox_posture : P.Disk → SandboxPosture → SafetyLayer P → SafetyLayer P
  set_sandbox_posture disk posture layer = record layer {
    sandbox_posture = posture;
    sandbox_policy = from_posture P disk posture layer.boundary.root none none;
  }

  -- `set_sandbox_mode` with a config string.
  unfoldable pub set_sandbox_mode :
      (String → Text) → P.Disk → String → SafetyLayer P → Result (SafetyLayer P)
  set_sandbox_mode repr disk mode layer = elim (parse_sandbox_mode repr mode) [
    | ok posture ↦ ok (set_sandbox_posture disk posture layer)
    | err e ↦ err e
  ]

  abbrev pub validate_all : WorkspaceBoundary P → P.Disk → List Text → Result (Unit {0})
  validate_all b disk [] = ok tt
  validate_all b disk (p ∷ rest) = elim (validate_path P b disk (text p)) [
    | ok _ ↦ validate_all b disk rest
    | err e ↦ err e
  ]

  -- The part of `_validate_arguments` for shell commands: the warnings.
  unfoldable pub validate_command :
      Python → Shell → WorkspaceBoundary P → P.Disk → Fields → Result (List Text)
  validate_command py shell b disk args =
      elim (validate_path P b disk (text (text_argument py "working_dir" "." args))) [
        | ok _ ↦ ok (inspect_command P b disk shell (text_argument py "command" "" args))
        | err e ↦ err e
      ]

  unfoldable pub validate_arguments :
      Python → Shell → WorkspaceBoundary P → P.Disk → String → Fields → Result (List Text)
  validate_arguments py shell b disk tool_name args =
      elim (validate_all b disk (path_argument_values tool_name args)) [
        | ok _ ↦
            (if tool_name == "shell_execute" then validate_command py shell b disk args else ok [])
        | err e ↦ err e
      ]

  -- The loop of `describe_rollback`, one summary for each target.
  unfoldable pub rollback_summaries : WorkspaceBoundary P → P.Disk → List Text → Result (List Text)
  rollback_summaries b disk [] = ok []
  rollback_summaries b disk (raw_path ∷ rest) = do
    resolved ← validate_path P b disk (text raw_path)
    display_path ← normalize_display_path P b disk raw_path
    more ← rollback_summaries b disk rest
    ok (
        (codes "Rollback available: "
          ++ (display_path
              ++ (if P.exists disk resolved
                  then codes " will be backed up."
                  else codes " can be removed with undo.")))
        ∷ more)

  unfoldable pub describe_rollback : WorkspaceBoundary P → P.Disk → String → Fields → Result Text
  describe_rollback b disk tool_name args = elim (modification_targets tool_name args) [
    | [] ↦ ok (codes "Rollback is not available for this action.")
    | target ∷ rest ↦ do
      summaries ← rollback_summaries b disk (target ∷ rest)
      ok (join (10 ∷ []) summaries)
  ]

  -- What follows a validation that raised nothing.
  unfoldable pub assess :
      Python → SafetyLayer P → P.Disk → Tool → Fields → List Text → Result ApprovalResult
  assess py layer disk tool args warnings = do
    (risk_level, risk_reason) ← describe_risk P py layer.boundary disk tool.name args
    rollback_summary ← describe_rollback layer.boundary disk tool.name args
    ok (record {
      status =
          if needs_approval layer.approval tool risk_level layer.sandbox_policy.posture
          then needs_asking
          else approved;
      risk_level = risk_level;
      reason = none;
      warnings = warnings;
      risk_reason = risk_reason;
      rollback_summary = some rollback_summary;
    })

  abbrev pub blocked_result : Text → Text → ApprovalResult
  blocked_result reason risk_reason = record {
    status = blocked;
    risk_level = high;
    reason = some reason;
    warnings = [];
    risk_reason = some risk_reason;
    rollback_summary = none;
  }

  -- Only a boundary error is caught.
  abbrev pub check_validated :
      Python → SafetyLayer P → P.Disk → Tool → Fields → Result (List Text) → Result ApprovalResult
  check_validated py layer disk tool args (ok warnings) = assess py layer disk tool args warnings
  check_validated py layer disk tool args (err (boundary_error t)) =
      ok (blocked_result t (codes "The action escapes the active workspace boundary."))
  check_validated py layer disk tool args (err raised) = err raised

  unfoldable pub check_and_approve :
      Python → Shell → SafetyLayer P → P.Disk → Tool → Fields → Result ApprovalResult
  check_and_approve py shell layer disk tool args =
      elim (side_effect_block_reason layer.sandbox_posture tool) [
        | some policy_block ↦ ok (blocked_result policy_block policy_block)
        | none ↦
            check_validated py layer disk tool args
              (validate_arguments py shell layer.boundary disk tool.name args)
      ]
