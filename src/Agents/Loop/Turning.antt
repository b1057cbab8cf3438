-- ===== src/Agents/Loop/Turning.antt =====
-- localagentcli/agents/loop.py: what each turn of a run does to the plan.
use local_agent_cli.Base.{
  Bool, Eq, List, Option, [], all, any, ap, arith, false, if◌then◌else◌, inl, inr, leb,
  literals_differ, nat_eq, none, refl, some, string_eq, subst, suc, sym, true, ℕ, ◌&&◌, ◌++◌, ◌==◌,
  ◌||◌, ◌∙◌, ◌∷◌, ◌≡◌,
}
use local_agent_cli.Base.Text.{Text}
use local_agent_cli.Base.Result.{Result, Result-cases, err, ok}
use local_agent_cli.Base.Gen.{Gen, emit, resume, return, returned, ◌>>=◌, ◌>>◌}
use local_agent_cli.Platform.{Platform}
use local_agent_cli.Agents.Events.{AgentEvent, phase_changed}
use local_agent_cli.Agents.Plan.{PlanStep, TaskPlan, next_step, update_step}
use local_agent_cli.Agents.Loop.Base.{Core, Env}
use local_agent_cli.Agents.Loop.Replan.{is_completed, preserve_completed_steps}
use local_agent_cli.Agents.Loop.Step.{StepDone, done, is_stopped}
use local_agent_cli.Agents.Loop.Run.{
  RunState, Task, Turn, after_failure, breaks, ends, fail_step, goes_on, is_model_kind,
  is_tool_kind, model_ended, replan, replanned, rounds_ended, should_replan, start_first,
  step_ended, tools_ended,
}
use local_agent_cli.Agents.Loop.Turns.{StepRunner, after_step, completed_step, run, summarized}
use local_agent_cli.Agents.Loop.Completion.{
  IsReady, pending_count, preserve_completed_steps-IsReady, update_step-IsReady,
}

abbrev pub is_replanning : AgentEvent → Bool
is_replanning (phase_changed p) = p.phase == "replanning"
is_replanning _ = false

-- A result and the events that came with it.
pub resume-yields :
    {S E A B : Type 0} (Q : B → List E → Type 0) (r : Result A) (next : A → Gen S E B) (s : S)
    (events : List E)
    → ((a : A) → r ≡ ok a → (b : B) → (next a s).0.0 ≡ ok b → Q b (events ++ (next a s).1))
    → (b : B) → (resume r next s events).0.0 ≡ ok b
    → Q b (resume r next s events).1
resume-yields Q (ok a) next s events h b q = h a refl b q
resume-yields Q (err raised) next s events h b q = cc

pub any-append :
    {A : Type 0} (p : A → Bool) (xs ys : List A) → any p (xs ++ ys) ≡ (any p xs || any p ys)
any-append p [] ys = refl
any-append p (x ∷ xs) ys = ground (arith, any-append p xs ys)

abbrev pub AreDone : TaskPlan → Type 0
AreDone plan = plan.status ≡ "completed" → all is_completed plan.steps ≡ true

-- From a plan with so many pending steps: the next turn has one less; a revision is ready and was
-- announced; and a plan that ends as completed has all its steps completed.
abbrev pub IsTurn : ℕ → Turn → List AgentEvent → Type 0
IsTurn before (goes_on r) events = IsReady r.plan × (before ≡ suc (pending_count r.plan.steps))
IsTurn before (replanned r) events = IsReady r.plan × (any is_replanning events ≡ true)
IsTurn before (breaks r) events = Unit
IsTurn before (ends plan) events = AreDone plan

-- What was yielded before changes nothing.
IsTurn-append :
    (before : ℕ) (turned : Turn) (first events : List AgentEvent)
    → IsTurn before turned events
    → IsTurn before turned (first ++ events)
IsTurn-append before (goes_on r) first events h = h
IsTurn-append before (replanned r) first events (ready, said) =
    (ready, any-append is_replanning first events ∙ ground (arith, said))
IsTurn-append before (breaks r) first events h = h
IsTurn-append before (ends plan) first events h = h

module _ {P : Platform} ⦃e : Eq P.FilePath⦄ (env : Env P) (t : Task) (before : ℕ) where
  -- A run whose turn is as it should be.
  abbrev Turns : Core P → Gen (Core P) AgentEvent Turn → Type 0
  Turns s run = (turned : Turn) → (run s).0.0 ≡ ok turned → IsTurn before turned (run s).1

  resume-Turns :
      {A : Type 0} (r : Result A) (next : A → Gen (Core P) AgentEvent Turn) (s : Core P)
      (events : List AgentEvent)
      → ((a : A) → r ≡ ok a → Turns s (next a))
      → (turned : Turn) → (resume r next s events).0.0 ≡ ok turned
      → IsTurn before turned (resume r next s events).1
  resume-Turns r next s events h =
      resume-yields (IsTurn before) r next s events
        (λ a q turned k. IsTurn-append before turned events (next a s).1 (h a q turned k))

  fail_step-Turns :
      (step : PlanStep) (result summary changes reason : Text) (failure_type : Option Text)
      (r : RunState) (s : Core P)
      → Turns s (fail_step env t step result summary changes reason failure_type r)
  unfolding fail_step
  fail_step-Turns step result summary changes reason failure_type r s turned h =
      elim (Result-cases (update_step step.index "failed" (some result) r.plan)) [
        | inr (raised, q) ↦ absurd (ground (arith, h, q))
        | inl (updated, q) ↦
            let failed = record updated { status = "failed" } in
            subst
              (λ x.
                IsTurn before x
                  (fail_step env t step result summary changes reason failure_type r s).1)
              {x = ends failed} {y = turned} (ground (arith, h, q))
              (λ done. absurd (literals_differ "failed" "completed" refl done))
      ]

  replan-Turns :
      (step : PlanStep) (reason summary changes : Text) (r : RunState) (s : Core P)
      → Turns s (replan env t step reason summary changes r)
  unfolding replan string_eq
  replan-Turns step reason summary changes r s (replanned r') h = (
    (let revised = preserve_completed_steps r.plan (t.revise_plan r.revisions r.plan reason) in
        subst IsReady {x = record revised { status = "executing" }} {y = r'.plan}
          (ground (arith, h))
          (let ready =
              preserve_completed_steps-IsReady r.plan (t.revise_plan r.revisions r.plan reason) in
            record { in_order = ready.in_order; all_ready = ready.all_ready })),
    refl,
  )
  replan-Turns step reason summary changes r s (goes_on r') h = absurd (ground (arith, h))
  replan-Turns step reason summary changes r s (breaks r') h = tt
  replan-Turns step reason summary changes r s (ends plan) h = absurd (ground (arith, h))

  -- The same, as a record.
  pub record IsTurning (s : Core P) (run : Gen (Core P) AgentEvent Turn) : Type 0 where
    pub turns : Turns s run

  pub if-IsTurning :
      (test : Bool) (x y : Gen (Core P) AgentEvent Turn) (s : Core P)
      → IsTurning s x
      → IsTurning s y
      → IsTurning s (if test then x else y)
  if-IsTurning true x y s hx hy = hx
  if-IsTurning false x y s hx hy = hy

  fail_step-IsTurning :
      (step : PlanStep) (result summary changes reason : Text) (failure_type : Option Text)
      (r : RunState) (s : Core P)
      → IsTurning s (fail_step env t step result summary changes reason failure_type r)
  fail_step-IsTurning step result summary changes reason failure_type r s = record {
    turns = fail_step-Turns step result summary changes reason failure_type r s;
  }

  replan-IsTurning :
      (step : PlanStep) (reason summary changes : Text) (r : RunState) (s : Core P)
      → IsTurning s (replan env t step reason summary changes r)
  replan-IsTurning step reason summary changes r s = record {
    turns = replan-Turns step reason summary changes r s;
  }

  after_failure-IsTurning :
      (step : PlanStep) (d : StepDone) (r : RunState) (s : Core P)
      → IsTurning s (after_failure env t step d r)
  unfolding after_failure model_ended tools_ended rounds_ended step_ended
  after_failure-IsTurning step d r s =
      if-IsTurning (should_replan d d.failure_context) _ _ s (replan-IsTurning step _ _ _ r s) (
        if-IsTurning (is_model_kind d.failure_kind) _ _ s (fail_step-IsTurning step _ _ _ _ _ r s) (
          if-IsTurning (is_tool_kind d.failure_kind && env.unified_turn_loop) _ _ s
            (fail_step-IsTurning step _ _ _ _ _ r s)
            (if-IsTurning env.unified_turn_loop _ _ s (fail_step-IsTurning step _ _ _ _ _ r s) (
              if-IsTurning (leb env.max_consecutive_errors d.errors) _ _ s
                (replan-IsTurning step _ _ _ r s) (fail_step-IsTurning step _ _ _ _ _ r s)))))

  pub bind-IsTurning :
      {A : Type 0} (run : Gen (Core P) AgentEvent A) (next : A → Gen (Core P) AgentEvent Turn)
      (s : Core P)
      → ((a : A) → (run s).0.0 ≡ ok a → IsTurning (run s).0.1 (next a))
      → IsTurning s (run >>= next)
  bind-IsTurning run next s h = record {
    turns = resume-Turns (run s).0.0 next (run s).0.1 (run s).1 (λ a q. (h a q).turns);
  }

  pub breaks-IsTurning : (r : RunState) (s : Core P) → IsTurning s (return (breaks r))
  breaks-IsTurning r s = record {
    turns = λ turned h.
        subst (λ x. IsTurn before x []) {x = breaks r} {y = turned} (ground (arith, h)) tt;
  }

  -- An end of the run.
  pub ends-IsTurning :
      (event : AgentEvent) (plan : TaskPlan) (s : Core P)
      → AreDone plan
      → IsTurning s (emit event >> return (ends plan))
  ends-IsTurning event plan s done = record {
    turns = λ turned h.
        subst (λ x. IsTurn before x (event ∷ [])) {x = ends plan} {y = turned} (ground (arith, h))
          done;
  }

  completed_step-IsTurning :
      (run_one : StepRunner P) (step : PlanStep) (r : RunState) (updated : TaskPlan) (s : Core P)
      → IsReady updated
      → before ≡ suc (pending_count updated.steps)
      → IsTurning s (completed_step env t run_one step r updated)
  completed_step-IsTurning run_one step r updated s ready count = record {
    turns = λ turned h.
        subst (λ x. IsTurn before x (completed_step env t run_one step r updated s).1)
          {x = goes_on (record r { plan = updated })} {y = turned} (ground (arith, h))
          (ready, count);
  }

  module _ (run_one : StepRunner P) (plan : TaskPlan) (pending : PlanStep) (ready : IsReady plan)
      (count : before ≡ pending_count plan.steps) (found : next_step plan ≡ some pending) where
    abbrev step : PlanStep
    step = record pending { status = "in_progress" }

    abbrev started : TaskPlan
    started = record plan { steps = start_first plan.steps }

    summarized-IsTurning :
        (d : StepDone) (r : RunState) (summary : Option Text) (s : Core P)
        → r.plan ≡ started
        → IsTurning s (summarized env t run_one step d r summary)
    summarized-IsTurning d r none s p = after_failure-IsTurning step d r s
    summarized-IsTurning d r (some summary) s p =
        bind-IsTurning (returned (update_step pending.index "completed" (some summary) r.plan))
          (completed_step env t run_one step r) s
          (λ updated q.
            let now =
              update_step-IsReady plan updated pending summary ready found
                (ap (update_step pending.index "completed" (some summary)) (sym p) ∙ q) in
            completed_step-IsTurning run_one step r updated s now.0 (count ∙ now.1))

    pub after_step-IsTurning :
        (d : StepDone) (r : RunState) (s : Core P)
        → r.plan ≡ started
        → IsTurning s (after_step env t run_one step d r)
    unfolding after_step
    after_step-IsTurning d r s p =
        bind-IsTurning (is_stopped env)
          (λ stopped.
            if stopped then return (breaks r) else summarized env t run_one step d r d.summary)
          s
          (λ stopped _.
            if-IsTurning stopped (return (breaks r)) (summarized env t run_one step d r d.summary)
              (is_stopped env s).0.1 (breaks-IsTurning r (is_stopped env s).0.1)
              (summarized-IsTurning d r d.summary (is_stopped env s).0.1 p))
