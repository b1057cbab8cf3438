-- ===== src/Agents/Plan/Laws.antt =====
-- localagentcli/agents/planner.py: the numbers of a plan's steps.
use local_agent_cli.Base.{
  Bool-cases, List, Option, Option-cases, String, [], arith, inl, inr, keep, nat_eq, none, not,
  refl, some, string_eq, subst, sym, ℕ, ◌++◌, ◌+◌, ◌==◌, ◌∙◌, ◌∷◌, ◌≡◌,
}
use local_agent_cli.Base.Text.{Text}
use local_agent_cli.Base.Result.{ok}
use local_agent_cli.Agents.Plan.{
  PlanStep, TaskPlan, add_step, get_step, insert_after, marked, new_step, remove_step, renumber,
  renumber_from, update_first, update_step, with_result,
}
use local_agent_cli.Base.Result.{ok}

-- The steps have the numbers from `start` on.
pub data IsNumberedFrom : ℕ → List PlanStep → Type 0 where
  over : {start : ℕ} → IsNumberedFrom start []
  numbered :
      {start : ℕ} {step : PlanStep} {rest : List PlanStep}
      → step.index ≡ start
      → IsNumberedFrom (start + 1) rest
      → IsNumberedFrom start (step ∷ rest)

pub renumber_from-IsNumberedFrom :
    (start : ℕ) (steps : List PlanStep) → IsNumberedFrom start (renumber_from start steps)
unfolding renumber_from
renumber_from-IsNumberedFrom start [] = over
renumber_from-IsNumberedFrom start (step ∷ rest) =
    numbered refl (renumber_from-IsNumberedFrom (start + 1) rest)

update_first-IsNumberedFrom :
    (start index : ℕ) (change : PlanStep → PlanStep) (steps : List PlanStep)
    → ((step : PlanStep) → (change step).index ≡ step.index)
    → IsNumberedFrom start steps
    → IsNumberedFrom start (update_first index change steps)
unfolding update_first
update_first-IsNumberedFrom start index change [] c h = over
update_first-IsNumberedFrom start index change (step ∷ rest) c (numbered p h) =
    elim (Bool-cases (step.index == index)) [
      | inl here ↦ rw here (numbered (c step ∙ p) h)
      | inr later ↦
          rw later (numbered p (update_first-IsNumberedFrom (start + 1) index change rest c h))
    ]

with_result-index :
    (result : Option Text) (step : PlanStep) → (with_result result step).index ≡ step.index
with_result-index none step = refl
with_result-index (some t) step = refl

update_step-numbered :
    (plan updated : TaskPlan) (index : ℕ) (status : String) (result : Option Text)
    → IsNumberedFrom 1 plan.steps
    → update_step index status result plan ≡ ok updated
    → IsNumberedFrom 1 updated.steps
unfolding update_step
update_step-numbered plan updated index status result h q =
    elim (Option-cases (get_step index plan)) [
      | inl missing ↦ absurd (ground (arith, missing))
      | inr (step, there) ↦
          let changed : updated.steps ≡ update_first index (marked status result) plan.steps =
            ground (arith, there) in
          subst (IsNumberedFrom 1) (sym changed) (
            update_first-IsNumberedFrom 1 index (marked status result) plan.steps
              (λ found. with_result-index result (record found { status = status })) h)
    ]

-- What is done to a plan: any `update_step` that succeeds, any `add_step` and any `remove_step`.
pub data Edited (plan : TaskPlan) : TaskPlan → Type 0 where
  unedited : Edited plan plan
  step_updated :
      {before after : TaskPlan} (index : ℕ) (status : String) (result : Option Text)
      → Edited plan before
      → update_step index status result before ≡ ok after
      → Edited plan after
  step_added :
      {before : TaskPlan} (description : Text) (after_index : Option ℕ)
      → Edited plan before
      → Edited plan (add_step description after_index before)
  step_removed :
      {before : TaskPlan} (index : ℕ) → Edited plan before → Edited plan (remove_step index before)

-- From a plan whose steps are numbered from one on, any sequence of `update_step` that succeeds,
-- `add_step` and `remove_step`, each of any index, leaves a plan whose steps are numbered so.
pub Edited-IsNumberedFrom :
    (plan edited : TaskPlan)
    → IsNumberedFrom 1 plan.steps
    → Edited plan edited
    → IsNumberedFrom 1 edited.steps
unfolding add_step remove_step renumber
Edited-IsNumberedFrom plan _ h unedited = h
Edited-IsNumberedFrom plan edited h (step_updated {before} index status result edits q) =
    update_step-numbered before edited index status result
      (Edited-IsNumberedFrom plan before h edits) q
Edited-IsNumberedFrom plan _ h (step_added {before} description none edits) =
    renumber_from-IsNumberedFrom 1 (before.steps ++ new_step description ∷ [])
Edited-IsNumberedFrom plan _ h (step_added {before} description (some after_index) edits) =
    renumber_from-IsNumberedFrom 1 (insert_after after_index (new_step description) before.steps)
Edited-IsNumberedFrom plan _ h (step_removed {before} index edits) =
    renumber_from-IsNumberedFrom 1 (keep (λ step. not (step.index == index)) before.steps)
