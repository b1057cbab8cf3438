-- ===== src/Agents/Loop/Completion.antt =====
-- localagentcli/agents/loop.py: what a step that is completed does to the plan.
use local_agent_cli.Base.{
  Bool, Bool-cases, List, Option, Option-cases, String, [], all, all-append, arith, if◌then◌else◌,
  inl, inr, keep, list_eq, literals_differ, map, nat_eq, none, refl, some, string_eq, subst, suc,
  sym, true, ℕ, ◌++◌, ◌+◌, ◌||◌, ◌∙◌, ◌∷◌, ◌≡◌, ◌≤◌,
}
use local_agent_cli.Base.Text.{Text}
use local_agent_cli.Base.Result.{ok}
use local_agent_cli.Agents.Plan.{
  PlanStep, TaskPlan, find, get_step, marked, new_step, next_step, renumber, renumber_from,
  update_first, update_step,
}
use local_agent_cli.Agents.Plan.Laws.{IsNumberedFrom, numbered, over, renumber_from-IsNumberedFrom}
use local_agent_cli.Agents.Loop.Replan.{is_completed, is_pending, preserve_completed_steps}
use local_agent_cli.Agents.Loop.Run.{start_first}

abbrev pub is_ready : PlanStep → Bool
is_ready step = is_completed step || is_pending step

-- The steps have the numbers from one on, and each is pending or completed.
pub record IsReady (plan : TaskPlan) : Type 0 where
  pub in_order : IsNumberedFrom 1 plan.steps
  pub all_ready : all is_ready plan.steps ≡ true

unfoldable pub pending_count : List PlanStep → ℕ
pending_count [] = 0
pending_count (step ∷ rest) =
    if is_pending step then suc (pending_count rest) else pending_count rest

find-index :
    (start : ℕ) (steps : List PlanStep) (step : PlanStep)
    → IsNumberedFrom start steps
    → find is_pending steps ≡ some step
    → start ≤ step.index
unfolding find
find-index start [] step over h = absurd (ground arith)
find-index start (first ∷ rest) step (numbered p n) h = elim (Bool-cases (is_pending first)) [
  | inl here ↦ ground (arith, p, h, here)
  | inr later ↦ omega (arith, find-index (start + 1) rest step n (ground (arith, h, later)))
]

-- What completing the first pending step makes of the steps.
pub record IsOneLess (start : ℕ) (steps after : List PlanStep) : Type 0 where
  pub in_order : IsNumberedFrom start after
  pub all_ready : all is_ready after ≡ true
  pub one_less : pending_count steps ≡ suc (pending_count after)

pub start_first-IsOneLess :
    (start : ℕ) (steps : List PlanStep) (step : PlanStep) (summary : Text)
    → IsNumberedFrom start steps
    → all is_ready steps ≡ true
    → find is_pending steps ≡ some step
    → IsOneLess start steps
        (update_first step.index (marked "completed" (some summary)) (start_first steps))
unfolding find start_first update_first pending_count
start_first-IsOneLess start [] step summary over r h = absurd (ground arith)
start_first-IsOneLess start (first ∷ rest) step summary (numbered p n) r h =
    elim (Bool-cases (is_pending first)) [
      | inl here ↦
          let found : step ≡ first = ground (arith, h, here) in
          let done = marked "completed" (some summary) (record first { status = "in_progress" }) in
          let e : update_first step.index (marked "completed" (some summary))
                (start_first (first ∷ rest))
              ≡ done ∷ rest =
            ground (arith, here, found) in
          subst (IsOneLess start (first ∷ rest)) (sym e) (record {
            in_order = numbered p n;
            all_ready = ground (arith, r);
            one_less = ground (arith, here, literals_differ "completed" "pending" refl);
          })
      | inr later ↦
          let found : find is_pending rest ≡ some step = ground (arith, h, later) in
          let after =
            update_first step.index (marked "completed" (some summary)) (start_first rest) in
          let less =
            start_first-IsOneLess (start + 1) rest step summary n (ground (arith, r)) found in
          let e : update_first step.index (marked "completed" (some summary))
                (start_first (first ∷ rest))
              ≡ first ∷ after =
            ground (arith, later, p, find-index (start + 1) rest step n found) in
          subst (IsOneLess start (first ∷ rest)) (sym e) (record {
            in_order = numbered p less.in_order;
            all_ready = ground (arith, r, less.all_ready);
            one_less = ground (arith, later, less.one_less);
          })
    ]

update_step-steps :
    (plan updated : TaskPlan) (index : ℕ) (status : String) (result : Option Text)
    → update_step index status result plan ≡ ok updated
    → updated.steps ≡ update_first index (marked status result) plan.steps
unfolding update_step
update_step-steps plan updated index status result h = elim (Option-cases (get_step index plan)) [
  | inl missing ↦ absurd (ground (arith, missing))
  | inr (step, there) ↦ ground (arith, there)
]

-- The pending step that is completed leaves a plan that is ready, with one step less to do.
pub update_step-IsReady :
    (plan updated : TaskPlan) (step : PlanStep) (summary : Text)
    → IsReady plan
    → next_step plan ≡ some step
    → update_step step.index "completed"
        (some summary)
        (record plan { steps = start_first plan.steps })
      ≡ ok updated
    → IsReady updated × (pending_count plan.steps ≡ suc (pending_count updated.steps))
unfolding next_step
update_step-IsReady plan updated step summary ready h q =
    let less = start_first-IsOneLess 1 plan.steps step summary ready.in_order ready.all_ready h in
    let e =
      update_step-steps (record plan { steps = start_first plan.steps }) updated step.index
        "completed" (some summary) q in
    (
      record {
        in_order = subst (IsNumberedFrom 1) (sym e) less.in_order;
        all_ready = subst (λ steps. all is_ready steps ≡ true) (sym e) less.all_ready;
      },
      subst (λ steps. pending_count plan.steps ≡ suc (pending_count steps)) (sym e) less.one_less,
    )

-- Where nothing is pending, everything is completed.
pub none_pending :
    (steps : List PlanStep)
    → all is_ready steps ≡ true
    → find is_pending steps ≡ none
    → all is_completed steps ≡ true
unfolding find
none_pending [] r h = refl
none_pending (step ∷ rest) r h = elim (Bool-cases (is_pending step)) [
  | inl here ↦ absurd (ground (arith, h, here))
  | inr later ↦
      ground (arith, later, r, none_pending rest (ground (arith, r)) (ground (arith, h, later)))
]

keep-completed : (steps : List PlanStep) → all is_ready (keep is_completed steps) ≡ true
keep-completed [] = refl
keep-completed (step ∷ rest) = ground (arith, keep-completed rest)

new_steps-ready :
    (steps : List PlanStep) → all is_ready (map (λ step. new_step step.description) steps) ≡ true
unfolding string_eq
new_steps-ready [] = refl
new_steps-ready (step ∷ rest) = ground (arith, new_steps-ready rest)

renumber_from-ready :
    (start : ℕ) (steps : List PlanStep)
    → all is_ready (renumber_from start steps) ≡ all is_ready steps
unfolding renumber_from
renumber_from-ready start [] = refl
renumber_from-ready start (step ∷ rest) = ground (arith, renumber_from-ready (start + 1) rest)

-- Whatever the planner answers, the revised plan is ready.
pub preserve_completed_steps-IsReady :
    (current revised : TaskPlan) → IsReady (preserve_completed_steps current revised)
unfolding preserve_completed_steps renumber
preserve_completed_steps-IsReady current revised =
    let fresh = map (λ step. new_step step.description) (keep is_pending revised.steps) in
    let steps = keep is_completed current.steps ++ fresh in
    record {
      in_order = renumber_from-IsNumberedFrom 1 steps;
      all_ready =
          renumber_from-ready 1 steps
          ∙ all-append is_ready (keep is_completed current.steps) fresh
          ∙ ground (
            arith,
            keep-completed current.steps,
            new_steps-ready (keep is_pending revised.steps),
          );
    }
