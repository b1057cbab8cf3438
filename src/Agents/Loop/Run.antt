-- ===== src/Agents/Loop/Run.antt =====
-- localagentcli/agents/loop.py: the run of a task, a turn for each step of the plan.
use local_agent_cli.Base.{
  Bool, Eq, List, Option, String, [], contains, false, if◌then◌else◌, leb, list_eq, nat_eq, none,
  some, string_eq, ℕ, ◌&&◌, ◌++◌, ◌+◌, ◌∷◌,
}
use local_agent_cli.Base.Text.{Text, codes}
use local_agent_cli.Base.Decimal.{decimal}
use local_agent_cli.Base.Gen.{Gen, emit, return, returned, ◌>>=◌, ◌>>◌}
use local_agent_cli.Platform.{Platform}
use local_agent_cli.Models.{ModelMessage}
use local_agent_cli.Agents.Events.{AgentEvent, phase, plan_updated, step_phase, task_failed}
use local_agent_cli.Agents.Plan.{PlanStep, TaskPlan, update_step}
use local_agent_cli.Agents.Recovery.{
  FailureContext, class_value, context, failure_class_label, model_transient,
  should_replan_after_failure, unknown,
}
use local_agent_cli.Agents.Loop.Base.{Core, Env}
use local_agent_cli.Agents.Loop.Replan.{build_replan_reason, is_pending, preserve_completed_steps}
use local_agent_cli.Agents.Loop.Step.{StepDone}

-- What a run takes besides: the planner's revisions, by the count of those made; the clock, by the
-- count of its readings; and the timeout, where 0 is none.
pub record Task : Type 0 where
  pub task : Text
  pub revise_plan : ℕ → TaskPlan → Text → TaskPlan
  pub clock : ℕ → ℕ
  pub inactivity_timeout : ℕ

pub record RunState : Type 0 where
  pub plan : TaskPlan
  pub transcript : List ModelMessage
  pub last_activity : ℕ
  pub revisions : ℕ
  pub readings : ℕ

-- What a turn of the loop comes to: the next turn, with or without a new plan; the way out of the
-- loop after a stop; or the end of the run.
pub data Turn : Type 0 where
  goes_on : RunState → Turn
  replanned : RunState → Turn
  breaks : RunState → Turn
  ends : TaskPlan → Turn

-- `step.status = "in_progress"` of the step that `next_step` returns
unfoldable pub start_first : List PlanStep → List PlanStep
start_first [] = []
start_first (step ∷ rest) =
    let others = start_first rest in
    if is_pending step then record step { status = "in_progress" } ∷ rest else step ∷ others

abbrev pub in_step : Text → PlanStep → Text → Text
in_step before step after = before ++ (decimal step.index ++ after)

abbrev pub with_last_error : Text → Text → Text
with_last_error text [] = text
with_last_error text (c ∷ detail) = text ++ (codes " Last model error: " ++ c ∷ detail)

abbrev pub class_or : Option Text → Option FailureContext → Option Text
class_or fallback none = fallback
class_or fallback (some failure) = some (codes (class_value failure.failure_class))

abbrev pub label_or_tool : Option FailureContext → Text
label_or_tool none = codes "tool"
label_or_tool (some failure) = failure_class_label failure.failure_class

-- "Failed while executing step i: description", with what follows
abbrev pub failed_reason : PlanStep → Text → Text
failed_reason step after =
    in_step (codes "Failed while executing step ") step (codes ": " ++ (step.description ++ after))

abbrev pub should_replan : StepDone → Option FailureContext → Bool
should_replan d none = false
should_replan d (some failure) =
    contains ("tool_retry_budget_exhausted" ∷ "model_retry_budget_exhausted" ∷ []) d.failure_kind
    && should_replan_after_failure failure.failure_class

abbrev pub is_model_kind : String → Bool
is_model_kind kind = contains ("model_error_threshold" ∷ "model_retry_budget_exhausted" ∷ []) kind

abbrev pub is_tool_kind : String → Bool
is_tool_kind kind = contains ("tool_error_threshold" ∷ "tool_retry_budget_exhausted" ∷ []) kind

module _ {P : Platform} ⦃e : Eq P.FilePath⦄ (env : Env P) (t : Task) where
  -- The step is marked as failed, and the run ends.
  unfoldable pub fail_step :
      PlanStep → Text → Text → Text → Text → Option Text → RunState → Gen (Core P) AgentEvent Turn
  fail_step step result summary changes reason failure_type r =
      returned (update_step step.index "failed" (some result) r.plan) >>= λ updated.
      let failed = record updated { status = "failed" } in
      emit (step_phase "failed" summary step)
      >> emit (plan_updated failed changes)
      >> emit (task_failed reason failed failure_type)
      >> return (ends failed)

  -- A revision of the plan, in which the completed steps are kept.
  unfoldable pub replan : PlanStep → Text → Text → Text → RunState → Gen (Core P) AgentEvent Turn
  unfolding preserve_completed_steps
  replan step reason summary changes r =
      let revised = preserve_completed_steps r.plan (t.revise_plan r.revisions r.plan reason) in
      let continued = record revised { status = "executing" } in
      emit (step_phase "replanning" summary step)
      >> emit (plan_updated continued changes)
      >> emit (phase "executing" (codes "Continuing with revised plan."))
      >> return (replanned (record r { plan = continued; revisions = r.revisions + 1 }))

  -- The reason of a revision after a failure without a class of its own.
  abbrev pub reason_or : PlanStep → Option FailureContext → Text
  reason_or step none = in_step (codes "Step ") step (codes " encountered repeated tool failures.")
  reason_or step (some failure) = build_replan_reason step failure

  unfoldable pub model_ended : PlanStep → StepDone → RunState → Gen (Core P) AgentEvent Turn
  unfolding fail_step
  model_ended step d r =
      fail_step step (codes "Repeated model errors.")
        (with_last_error
          (in_step (codes "Model errors prevented step ") step
            (codes " from completing after " ++ (decimal d.errors ++ codes " attempt(s).")))
          d.last_model_error)
        (in_step (codes "Step ") step
          (codes " failed after repeated model errors reached the retry threshold."))
        (with_last_error (failed_reason step (codes " (model error threshold reached)."))
          d.last_model_error)
        (class_or (some (codes (class_value model_transient))) d.failure_context) r

  unfoldable pub tools_ended : PlanStep → StepDone → RunState → Gen (Core P) AgentEvent Turn
  unfolding fail_step
  tools_ended step d r =
      let label = label_or_tool d.failure_context in
      fail_step step (codes "Repeated tool failures.")
        (in_step (codes "Step ") step
          (codes " reached the " ++ (label ++ codes " retry threshold.")))
        (in_step (codes "Step ") step
          (codes " failed after repeated tool failures reached the retry threshold."))
        (failed_reason step (codes " (" ++ (label ++ codes " failure threshold reached).")))
        (class_or none d.failure_context) r

  unfoldable pub rounds_ended : PlanStep → RunState → Gen (Core P) AgentEvent Turn
  unfolding fail_step
  rounds_ended step r =
      fail_step step (codes "Unified turn loop could not complete step.")
        (in_step (codes "Unified turn loop could not complete step ") step
          (codes " within " ++ (decimal env.max_step_rounds ++ codes " rounds.")))
        (in_step (codes "Step ") step
          (codes " failed after unified turn-loop budget was exhausted."))
        (failed_reason step (codes " (unified turn-loop budget exhausted)."))
        (some (codes (class_value unknown))) r

  unfoldable pub step_ended : PlanStep → StepDone → RunState → Gen (Core P) AgentEvent Turn
  unfolding fail_step
  step_ended step d r =
      fail_step step (codes "Step did not complete successfully.")
        (in_step (codes "Failed while executing step ") step (codes "."))
        (in_step (codes "Step ") step (codes " failed: " ++ step.description))
        (failed_reason step []) (class_or none d.failure_context) r

  -- The label of the failure's class.
  abbrev pub replan_for : PlanStep → Option FailureContext → RunState → Gen (Core P) AgentEvent Turn
  replan_for step context r =
      let label = label_or_tool context in
      replan step (reason_or step context)
        (codes "Replanning after "
          ++ (label ++ in_step (codes " failures in step ") step (codes ".")))
        (codes "Replanned after "
          ++ (label ++ in_step (codes " failure in step ") step (codes ".")))
        r

  -- A step without a summary.
  unfoldable pub after_failure : PlanStep → StepDone → RunState → Gen (Core P) AgentEvent Turn
  unfolding replan model_ended tools_ended rounds_ended step_ended
  after_failure step d r =
      if should_replan d d.failure_context
      then replan_for step d.failure_context r
      else if is_model_kind d.failure_kind
      then model_ended step d r
      else if is_tool_kind d.failure_kind && env.unified_turn_loop
      then tools_ended step d r
      else if env.unified_turn_loop
      then rounds_ended step r
      else if leb env.max_consecutive_errors d.errors
      then replan step (reason_or step d.failure_context)
          (in_step (codes "Replanning after repeated failures in step ") step (codes "."))
          (in_step (codes "Replanned after repeated failures in step ") step (codes ".")) r
      else step_ended step d r
