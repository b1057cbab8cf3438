-- ===== src/Agents/Plan.antt =====
-- localagentcli/agents/planner.py: the plan that the loop works through. The prompts and the parsing
-- of a model's answer are left out.
pub mod Laws
use local_agent_cli.Base.{
  Bool, List, Option, String, [], if◌then◌else◌, keep, nat_eq, none, not, some, string_eq, ℕ, ◌++◌,
  ◌+◌, ◌==◌, ◌∷◌,
}
use local_agent_cli.Base.Text.{Text, codes}
use local_agent_cli.Base.Decimal.{decimal}
use local_agent_cli.Base.Json.{Json, null}
use local_agent_cli.Base.Result.{Result, err, key_error, ok}

pub record PlanStep : Type 0 where
  pub index : ℕ
  pub description : Text
  pub status : String
  pub tool_calls : Json
  pub result : Option Text

pub record TaskPlan : Type 0 where
  pub task : Text
  pub steps : List PlanStep
  pub status : String

-- `PlanStep(index=0, description=description)`
abbrev pub new_step : Text → PlanStep
new_step description = record {
  index = 0;
  description = description;
  status = "pending";
  tool_calls = null;
  result = none;
}

-- The first step that passes the test.
unfoldable pub find : (PlanStep → Bool) → List PlanStep → Option PlanStep
find test [] = none
find test (step ∷ rest) = if test step then some step else find test rest

unfoldable pub next_step : TaskPlan → Option PlanStep
next_step plan = find (λ step. step.status == "pending") plan.steps

unfoldable pub get_step : ℕ → TaskPlan → Option PlanStep
get_step index plan = find (λ step. step.index == index) plan.steps

-- `for index, step in enumerate(steps, start)`: the numbers are written into the steps.
unfoldable pub renumber_from : ℕ → List PlanStep → List PlanStep
renumber_from start [] = []
renumber_from start (step ∷ rest) = record step { index = start } ∷ renumber_from (start + 1) rest

unfoldable pub renumber : TaskPlan → TaskPlan
renumber plan = record plan { steps = renumber_from 1 plan.steps }

-- The step that `get_step` finds is changed in place: it is the first of its index.
unfoldable pub update_first : ℕ → (PlanStep → PlanStep) → List PlanStep → List PlanStep
update_first index change [] = []
update_first index change (step ∷ rest) =
    let others = update_first index change rest in
    if step.index == index then change step ∷ rest else step ∷ others

abbrev pub with_result : Option Text → PlanStep → PlanStep
with_result none step = step
with_result (some result) step = record step { result = some result }

-- What is written into the step.
abbrev pub marked : String → Option Text → PlanStep → PlanStep
marked status result step = with_result result (record step { status = status })

unfoldable pub update_step : ℕ → String → Option Text → TaskPlan → Result TaskPlan
update_step index status result plan = elim (get_step index plan) [
  | none ↦ err (key_error (codes "Plan step " ++ (decimal index ++ codes " not found")))
  | some step ↦ ok (record plan { steps = update_first index (marked status result) plan.steps })
]

-- The new step comes after the first step of the index, or at the end.
unfoldable pub insert_after : ℕ → PlanStep → List PlanStep → List PlanStep
insert_after index new [] = new ∷ []
insert_after index new (step ∷ rest) =
    let later = insert_after index new rest in
    if step.index == index then step ∷ new ∷ rest else step ∷ later

unfoldable pub add_step : Text → Option ℕ → TaskPlan → TaskPlan
add_step description none plan =
    renumber (record plan { steps = plan.steps ++ new_step description ∷ [] })
add_step description (some after_index) plan =
    renumber (record plan { steps = insert_after after_index (new_step description) plan.steps })

unfoldable pub remove_step : ℕ → TaskPlan → TaskPlan
remove_step index plan =
    renumber (record plan { steps = keep (λ step. not (step.index == index)) plan.steps })
