-- ===== src/Agents/Loop/Turns.antt =====
-- localagentcli/agents/loop.py: the turns of a run, and its end. The blocking and the asynchronous run
-- are one, with their own steps; the fuel bounds the turns, which replanning makes endless.
use local_agent_cli.Base.{
  Bool, Eq, List, Option, [], if◌then◌else◌, ltb, nat_eq, none, not, some, string_eq, suc, zero, ℕ,
  ◌&&◌, ◌++◌, ◌+◌, ◌-◌, ◌==◌, ◌∷◌,
}
use local_agent_cli.Base.Text.{Text, codes}
use local_agent_cli.Base.Gen.{Gen, emit, return, returned, ◌>>=◌, ◌>>◌}
use local_agent_cli.Platform.{Platform}
use local_agent_cli.Models.{ModelMessage}
use local_agent_cli.Agents.Events.{
  AgentEvent, phase, plan_generated, plan_updated, step_started, task_complete, task_stopped,
  task_timed_out,
}
use local_agent_cli.Agents.Plan.{PlanStep, TaskPlan, next_step, update_step}
use local_agent_cli.Agents.Loop.Base.{Core, Env}
use local_agent_cli.Agents.Loop.Replan.{bootstrap_plan, summarize_plan}
use local_agent_cli.Agents.Loop.Step.{StepDone, arun_step, is_stopped, run_step}
use local_agent_cli.Agents.Loop.Run.{
  RunState, Task, Turn, after_failure, breaks, ends, goes_on, in_step, replanned, start_first,
}

-- `_run_step` or `_arun_step_async`
abbrev pub StepRunner : Platform → Type 0
StepRunner P = Text → TaskPlan → PlanStep → List ModelMessage → Gen (Core P) AgentEvent StepDone

-- The first step in progress is skipped, if there are steps left to do.
unfoldable pub skip_first : List PlanStep → List PlanStep
skip_first [] = []
skip_first (step ∷ rest) =
    let others = skip_first rest in
    if step.status == "in_progress"
    then record step { status = "skipped"; result = some (codes "Stopped by user.") } ∷ rest
    else step ∷ others

abbrev pub skipped : Option PlanStep → TaskPlan → TaskPlan
skipped none plan = plan
skipped (some step) plan = record plan { steps = skip_first plan.steps }

unfoldable pub stopped_plan : TaskPlan → TaskPlan
unfolding skip_first
stopped_plan plan = record (skipped (next_step plan) plan) { status = "stopped" }

-- The clock is read only for a timeout.
abbrev pub is_timed_out : Task → RunState → Bool
is_timed_out t r =
    not (t.inactivity_timeout == 0)
    && ltb t.inactivity_timeout (t.clock r.readings - r.last_activity)

abbrev pub after_reading : Task → RunState → RunState
after_reading t r = record r {
  readings = if t.inactivity_timeout == 0 then r.readings else r.readings + 1;
}

abbrev pub given_or_bootstrap : Task → Option TaskPlan → TaskPlan
given_or_bootstrap t none = bootstrap_plan t.task
given_or_bootstrap t (some plan) = plan

abbrev pub planned : Option TaskPlan → Text
planned none = codes "Prepared adaptive execution plan."
planned (some plan) = codes "Prepared execution plan."

module _ {P : Platform} ⦃e : Eq P.FilePath⦄ (env : Env P) (t : Task) (run_one : StepRunner P) where
  abbrev pub completed_step : PlanStep → RunState → TaskPlan → Gen (Core P) AgentEvent Turn
  completed_step step r updated =
      emit (
        plan_updated updated
          (in_step (codes "Completed step ") step (codes ": " ++ step.description)))
      >> return (goes_on (record r { plan = updated }))

  abbrev pub summarized :
      PlanStep → StepDone → RunState → Option Text → Gen (Core P) AgentEvent Turn
  summarized step d r none = after_failure env t step d r
  summarized step d r (some summary) =
      returned (update_step step.index "completed" (some summary) r.plan) >>= completed_step step r

  -- What follows a step that has been run.
  unfoldable pub after_step : PlanStep → StepDone → RunState → Gen (Core P) AgentEvent Turn
  unfolding after_failure
  after_step step d r = is_stopped env >>= λ stopped.
      if stopped then return (breaks r) else summarized step d r d.summary

  -- The next step of the plan, or the end of the task.
  unfoldable pub take_step : Option PlanStep → RunState → Gen (Core P) AgentEvent Turn
  unfolding after_step start_first
  take_step none r =
      let completed = record r.plan { status = "completed" } in
      emit (task_complete (summarize_plan r.plan) completed) >> return (ends completed)
  take_step (some pending) r =
      let step = record pending { status = "in_progress" } in
      let started = record r.plan { steps = start_first r.plan.steps } in
      emit (step_started step)
      >> (run_one t.task started step r.transcript >>= λ d. after_step step d (record {
        plan = started;
        transcript = r.transcript ++ d.new_messages;
        last_activity = t.clock r.readings;
        revisions = r.revisions;
        readings = r.readings + 1;
      }))

  unfoldable pub turn : RunState → Gen (Core P) AgentEvent Turn
  unfolding take_step
  turn r = is_stopped env >>= λ stopped.
      if stopped
      then return (breaks r)
      else if is_timed_out t r
      then (let timed_out = record r.plan { status = "timed_out" } in
          emit (task_timed_out (codes "Agent task timed out due to inactivity.") timed_out)
          >> return (ends timed_out))
      else take_step (next_step r.plan) (after_reading t r)

  abbrev pub stop : RunState → Gen (Core P) AgentEvent (Option TaskPlan)
  stop r =
      let plan = stopped_plan r.plan in
      emit (task_stopped (codes "Task stopped by user.") plan) >> return (some plan)

  abbrev pub next_turn :
      (RunState → Gen (Core P) AgentEvent (Option TaskPlan))
      → Turn
      → Gen (Core P) AgentEvent (Option TaskPlan)
  next_turn turns (goes_on r) = turns r
  next_turn turns (replanned r) = turns r
  next_turn turns (breaks r) = stop r
  next_turn turns (ends plan) = return (some plan)

  -- The plan at the end; none is out of fuel.
  unfoldable pub run_turns : ℕ → RunState → Gen (Core P) AgentEvent (Option TaskPlan)
  unfolding turn
  run_turns zero r = return none
  run_turns (suc n) r = turn r >>= next_turn (run_turns n)

  unfoldable pub run_with :
      ℕ → List ModelMessage → Option TaskPlan → Gen (Core P) AgentEvent (Option TaskPlan)
  unfolding run_turns
  run_with fuel context given =
      let plan = record (given_or_bootstrap t given) { status = "executing" } in
      emit (phase "planning" (planned given))
      >> emit (plan_generated plan)
      >> emit (phase "executing" (codes "Executing plan."))
      >> run_turns fuel (record {
        plan = plan;
        transcript = context;
        last_activity = t.clock 0;
        revisions = 0;
        readings = 1;
      })

module _ {P : Platform} ⦃e : Eq P.FilePath⦄ (env : Env P) (t : Task) where
  unfoldable pub run :
      ℕ → List ModelMessage → Option TaskPlan → Gen (Core P) AgentEvent (Option TaskPlan)
  unfolding run_with run_step
  run fuel context given = run_with env t (run_step env) fuel context given

  unfoldable pub arun :
      ℕ → List ModelMessage → Option TaskPlan → Gen (Core P) AgentEvent (Option TaskPlan)
  unfolding run_with arun_step
  arun fuel context given = run_with env t (arun_step env) fuel context given
