-- ===== src/Agents/Loop/Replan.antt =====
-- localagentcli/agents/loop.py: what is said and kept of a plan.
use local_agent_cli.Base.{
  Bool, List, Option, [], if◌then◌else◌, keep, length, list_eq, ltb, map, nat_eq, some, string_eq,
  take, ◌++◌, ◌==◌, ◌∷◌,
}
use local_agent_cli.Base.Text.{Text, codes, join, strip, whitespace}
use local_agent_cli.Base.Decimal.{decimal}
use local_agent_cli.Agents.Plan.{PlanStep, TaskPlan, new_step, renumber}
use local_agent_cli.Agents.Recovery.{FailureContext, failure_class_hint, failure_class_label}

abbrev pub shortened : Text → Text
shortened detail = if ltb 240 (length detail) then take 237 detail ++ codes "..." else detail

abbrev pub or_not_available : Text → Text
or_not_available [] = codes "N/A"
or_not_available (c ∷ t) = c ∷ t

unfoldable pub build_replan_reason : PlanStep → FailureContext → Text
build_replan_reason step failure =
    codes "Step "
    ++ (decimal step.index
        ++ (codes " encountered "
            ++ (failure_class_label failure.failure_class
                ++ (codes " failure. Detail: "
                    ++ (or_not_available (shortened (strip whitespace failure.detail))
                        ++ (codes ". Recovery guidance: "
                            ++ failure_class_hint failure.failure_class))))))

abbrev pub is_completed : PlanStep → Bool
is_completed step = step.status == "completed"

abbrev pub is_pending : PlanStep → Bool
is_pending step = step.status == "pending"

abbrev pub result_or_completed : Option Text → Text
result_or_completed (some (c ∷ t)) = c ∷ t
result_or_completed _ = codes "Completed."

abbrev pub summary_line : PlanStep → Text
summary_line step =
    decimal step.index
    ++ (codes ". " ++ (step.description ++ (codes ": " ++ result_or_completed step.result)))

abbrev pub summary_of : List PlanStep → Text
summary_of [] = codes "Task completed."
summary_of (step ∷ rest) = join (10 ∷ []) (map summary_line (step ∷ rest))

unfoldable pub summarize_plan : TaskPlan → Text
summarize_plan plan = summary_of (keep is_completed plan.steps)

-- The completed steps of the current plan come first, then the pending ones of the revised plan anew.
unfoldable pub preserve_completed_steps : TaskPlan → TaskPlan → TaskPlan
preserve_completed_steps current revised = renumber (record revised {
  steps =
      keep is_completed current.steps
      ++ map (λ step. new_step step.description) (keep is_pending revised.steps);
})

unfoldable pub bootstrap_plan : Text → TaskPlan
bootstrap_plan task = record {
  task = task;
  steps = record (new_step task) { index = 1 } ∷ [];
  status = "planning";
}
