-- ===== src/Agents/Events.antt =====
-- localagentcli/agents/events.py: the events that the loop yields.
use local_agent_cli.Base.{Bool, List, Option, String, none, some, ℕ}
use local_agent_cli.Base.Text.{Text}
use local_agent_cli.Base.Json.{Fields}
use local_agent_cli.Tools.Base.{ToolResult}
use local_agent_cli.Guardian.{Evidence}
use local_agent_cli.Agents.Plan.{PlanStep, TaskPlan}

pub record ToolCallRequested : Type 0 where
  pub tool_name : Text
  pub arguments : Fields
  pub requires_approval : Bool
  pub risk_level : String
  pub warnings : List Text
  pub risk_reason : Option Text
  pub rollback_summary : Option Text

pub record GuardianReviewCompleted : Type 0 where
  pub tool_name : Text
  pub approved : Bool
  pub risk_level : Text
  pub risk_score : ℕ
  pub rationale : Text
  pub evidence : List Evidence
  pub failure : Text

pub record PhaseChanged : Type 0 where
  pub phase : String
  pub summary : Text
  pub step_index : Option ℕ
  pub step_description : Option Text

pub data AgentEvent : Type 0 where
  phase_changed : PhaseChanged → AgentEvent
  plan_generated : TaskPlan → AgentEvent
  step_started : PlanStep → AgentEvent
  tool_call_requested : ToolCallRequested → AgentEvent
  guardian_review_started : Text → Text → AgentEvent
  guardian_review_completed : GuardianReviewCompleted → AgentEvent
  -- the tool's name, the result, and the count of rollback entries
  tool_call_result : Text → ToolResult → ℕ → AgentEvent
  reasoning_output : Text → AgentEvent
  plan_updated : TaskPlan → Text → AgentEvent
  task_complete : Text → TaskPlan → AgentEvent
  task_stopped : Text → TaskPlan → AgentEvent
  task_timed_out : Text → TaskPlan → AgentEvent
  -- the reason, the plan, and the class of the failure
  task_failed : Text → TaskPlan → Option Text → AgentEvent

-- `PhaseChanged(phase, summary)`
abbrev pub phase : String → Text → AgentEvent
phase name summary =
    phase_changed
      (record { phase = name; summary = summary; step_index = none; step_description = none })

-- `PhaseChanged(phase, summary, step.index, step.description)`
abbrev pub step_phase : String → Text → PlanStep → AgentEvent
step_phase name summary step = phase_changed (record {
  phase = name;
  summary = summary;
  step_index = some step.index;
  step_description = some step.description;
})
