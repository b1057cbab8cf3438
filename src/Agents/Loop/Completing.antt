-- ===== src/Agents/Loop/Completing.antt =====
-- localagentcli/agents/loop.py: a run that completes, and that a run comes to an end.
use local_agent_cli.Base.{
  Eq, List, Option, all, any, ap, arith, if◌then◌else◌, inl, inr, literals_differ, nat_eq, none,
  refl, some, string_eq, subst, suc, true, zero, ℕ, ◌++◌, ◌+◌, ◌<◌, ◌∙◌, ◌≡◌, ◌≢◌, ◌⊎◌,
}
use local_agent_cli.Base.Text.{codes}
use local_agent_cli.Base.Result.{Result, err, ok}
use local_agent_cli.Base.Gen.{Gen, emit, return, ◌>>=◌, ◌>>◌}
use local_agent_cli.Platform.{Platform}
use local_agent_cli.Models.{ModelMessage}
use local_agent_cli.Agents.Events.{AgentEvent, step_started, task_complete, task_timed_out}
use local_agent_cli.Agents.Plan.{PlanStep, TaskPlan, next_step}
use local_agent_cli.Agents.Plan.Laws.{numbered, over}
use local_agent_cli.Agents.Loop.Base.{Core, Env}
use local_agent_cli.Agents.Loop.Messages.{resume-ok}
use local_agent_cli.Agents.Loop.Replan.{bootstrap_plan, is_completed, summarize_plan}
use local_agent_cli.Agents.Loop.Step.{StepDone, is_stopped, run_step}
use local_agent_cli.Agents.Loop.Run.{
  RunState, Task, Turn, breaks, ends, goes_on, replanned, start_first,
}
use local_agent_cli.Agents.Loop.Turns.{
  StepRunner, after_reading, after_step, given_or_bootstrap, is_timed_out, next_turn, run,
  run_turns, run_with, stopped_plan, take_step, turn,
}
use local_agent_cli.Agents.Loop.Completion.{IsReady, none_pending, pending_count}
use local_agent_cli.Agents.Loop.Turning.{
  AreDone, IsTurn, IsTurning, after_step-IsTurning, any-append, bind-IsTurning, breaks-IsTurning,
  ends-IsTurning, if-IsTurning, is_replanning, resume-yields,
}

module _ {P : Platform} ⦃e : Eq P.FilePath⦄ (env : Env P) (t : Task) (run_one : StepRunner P) where
  take_step-IsTurning :
      (found : Option PlanStep) (r : RunState) (s : Core P)
      → next_step r.plan ≡ found
      → IsReady r.plan
      → IsTurning env t (pending_count r.plan.steps) s (take_step env t run_one found r)
  unfolding take_step next_step
  take_step-IsTurning none r s h ready =
      let completed = record r.plan { status = "completed" } in
      ends-IsTurning env t (pending_count r.plan.steps)
        (task_complete (summarize_plan r.plan) completed) completed s
        (λ _. none_pending r.plan.steps ready.all_ready h)
  take_step-IsTurning (some pending) r s h ready =
      let before = pending_count r.plan.steps in
      let step = record pending { status = "in_progress" } in
      let started = record r.plan { steps = start_first r.plan.steps } in
      let after = λ (d : StepDone). after_step env t run_one step d (record {
        plan = started;
        transcript = r.transcript ++ d.new_messages;
        last_activity = t.clock r.readings;
        revisions = r.revisions;
        readings = r.readings + 1;
      }) in
      bind-IsTurning env t before (emit (step_started step))
        (λ _. run_one t.task started step r.transcript >>= after) s
        (λ _ _.
          bind-IsTurning env t before (run_one t.task started step r.transcript) after s (λ d _.
            after_step-IsTurning env t before run_one r.plan pending ready refl h d _ _ refl))

  turn-IsTurning :
      (r : RunState) (s : Core P)
      → IsReady r.plan
      → IsTurning env t (pending_count r.plan.steps) s (turn env t run_one r)
  unfolding turn
  turn-IsTurning r s ready =
      let before = pending_count r.plan.steps in
      let timed_out = record r.plan { status = "timed_out" } in
      let out =
        emit (task_timed_out (codes "Agent task timed out due to inactivity.") timed_out)
        >> return (ends timed_out) in
      let on = take_step env t run_one (next_step r.plan) (after_reading t r) in
      let looked = (is_stopped env s).0.1 in
      bind-IsTurning env t before (is_stopped env)
        (λ stopped. if stopped then return (breaks r) else if is_timed_out t r then out else on) s
        (λ stopped _.
          if-IsTurning env t before stopped (return (breaks r))
            (if is_timed_out t r then out else on) looked (breaks-IsTurning env t before r looked)
            (if-IsTurning env t before (is_timed_out t r) out on looked
              (ends-IsTurning env t before _ timed_out looked
                (λ q. absurd (literals_differ "timed_out" "completed" refl q)))
              (take_step-IsTurning (next_step r.plan) (after_reading t r) looked refl ready)))

  next_turn-AreDone :
      (before : ℕ) (turns : RunState → Gen (Core P) AgentEvent (Option TaskPlan)) (turned : Turn)
      (events : List AgentEvent) (s : Core P) (plan : TaskPlan)
      → ((r : RunState) → IsReady r.plan → (turns r s).0.0 ≡ ok (some plan) → AreDone plan)
      → IsTurn before turned events
      → (next_turn env t run_one turns turned s).0.0 ≡ ok (some plan)
      → AreDone plan
  unfolding stopped_plan
  next_turn-AreDone before turns (goes_on r) events s plan ih h q = ih r h.0 q
  next_turn-AreDone before turns (replanned r) events s plan ih h q = ih r h.0 q
  next_turn-AreDone before turns (breaks r) events s plan ih h q =
      subst AreDone {x = stopped_plan r.plan} {y = plan} (ground (arith, q))
        (λ done. absurd (literals_differ "stopped" "completed" refl done))
  next_turn-AreDone before turns (ends p) events s plan ih h q =
      subst AreDone {x = p} {y = plan} (ground (arith, q)) h

  run_turns-AreDone :
      (n : ℕ) (r : RunState) (s : Core P) (plan : TaskPlan)
      → IsReady r.plan
      → (run_turns env t run_one n r s).0.0 ≡ ok (some plan)
      → AreDone plan
  unfolding run_turns
  run_turns-AreDone zero r s plan ready h = absurd (ground (arith, h))
  run_turns-AreDone (suc n) r s plan ready h =
      let now = turn env t run_one r s in
      let turns = run_turns env t run_one n in
      resume-ok (λ o. o ≡ some plan → AreDone plan) now.0.0 (next_turn env t run_one turns) now.0.1
        now.1
        (λ turned q o k p.
          next_turn-AreDone (pending_count r.plan.steps) turns turned now.1 now.0.1 plan
            (λ r' ready' h'. run_turns-AreDone n r' now.0.1 plan ready' h')
            ((turn-IsTurning r s ready).turns turned q) (k ∙ ap ok p))
        (some plan) h refl

  -- Out of fuel only after a revision of the plan.
  abbrev Unfinished : Option TaskPlan → List AgentEvent → Type 0
  Unfinished o events = o ≡ none → any is_replanning events ≡ true

  next_turn-Unfinished :
      (n before : ℕ) (turns : RunState → Gen (Core P) AgentEvent (Option TaskPlan)) (turned : Turn)
      (events : List AgentEvent) (s : Core P) (o : Option TaskPlan)
      → ((r : RunState)
          → IsReady r.plan
          → pending_count r.plan.steps < n
          → (turns r s).0.0 ≡ ok o
          → Unfinished o (turns r s).1)
      → before < suc n
      → IsTurn before turned events
      → (next_turn env t run_one turns turned s).0.0 ≡ ok o
      → Unfinished o (events ++ (next_turn env t run_one turns turned s).1)
  next_turn-Unfinished n before turns (goes_on r) events s o ih less (ready, count) q p =
      any-append is_replanning events (turns r s).1
      ∙ ground (arith, ih r ready (omega (arith, less, count)) q p)
  next_turn-Unfinished n before turns (replanned r) events s o ih less (ready, said) q p =
      any-append is_replanning events (turns r s).1 ∙ ground (arith, said)
  next_turn-Unfinished n before turns (breaks r) events s o ih less h q p =
      absurd (ground (arith, q, p))
  next_turn-Unfinished n before turns (ends plan) events s o ih less h q p =
      absurd (ground (arith, q, p))

  run_turns-Unfinished :
      (n : ℕ) (r : RunState) (s : Core P) (o : Option TaskPlan)
      → IsReady r.plan
      → pending_count r.plan.steps < n
      → (run_turns env t run_one n r s).0.0 ≡ ok o
      → Unfinished o (run_turns env t run_one n r s).1
  unfolding run_turns
  run_turns-Unfinished zero r s o ready less h = absurd (omega (arith, less))
  run_turns-Unfinished (suc n) r s o ready less h =
      let now = turn env t run_one r s in
      let turns = run_turns env t run_one n in
      resume-yields Unfinished now.0.0 (next_turn env t run_one turns) now.0.1 now.1
        (λ turned q o' k.
          next_turn-Unfinished n (pending_count r.plan.steps) turns turned now.1 now.0.1 o'
            (λ r' ready' less' h'. run_turns-Unfinished n r' now.0.1 o' ready' less' h') less
            ((turn-IsTurning r s ready).turns turned q) k)
        o h

-- The plan that a run is given is ready to be carried out.
abbrev pub IsGiven : Option TaskPlan → Type 0
IsGiven none = Unit
IsGiven (some plan) = IsReady plan

given-IsReady :
    (t : Task) (given : Option TaskPlan)
    → IsGiven given
    → IsReady (record (given_or_bootstrap t given) { status = "executing" })
unfolding bootstrap_plan string_eq
given-IsReady t none h = record { in_order = numbered refl over; all_ready = refl }
given-IsReady t (some plan) h = record { in_order = h.in_order; all_ready = h.all_ready }

-- A run on a plan whose steps are numbered from one on, each pending or completed, or on the plan that
-- it makes itself: if it ends with a plan that is marked as completed, every step of that plan is
-- completed, whatever was revised on the way.
pub run-completed :
    {P : Platform} ⦃e : Eq P.FilePath⦄ (env : Env P) (t : Task) (fuel : ℕ)
    (context : List ModelMessage) (given : Option TaskPlan) (s : Core P) (plan : TaskPlan)
    → IsGiven given
    → (run env t fuel context given s).0.0 ≡ ok (some plan)
    → plan.status ≡ "completed"
    → all is_completed plan.steps ≡ true
unfolding run run_with
run-completed env t fuel context given s plan h q =
    run_turns-AreDone env t (run_step env) fuel
      (record {
        plan = record (given_or_bootstrap t given) { status = "executing" };
        transcript = context;
        last_activity = t.clock 0;
        revisions = 0;
        readings = 1;
      })
      s plan (given-IsReady t given h) q

is_left-or : (r : Result (Option TaskPlan)) → (r ≢ ok none) ⊎ (r ≡ ok none)
is_left-or (err raised) = inl (λ h. cc)
is_left-or (ok (some plan)) = inl (λ h. cc)
is_left-or (ok none) = inr refl

-- A run on such a plan, with more turns than the plan has pending steps, ends with a plan or raises,
-- unless it has announced a revision of the plan.
pub run-finishes :
    {P : Platform} ⦃e : Eq P.FilePath⦄ (env : Env P) (t : Task) (fuel : ℕ)
    (context : List ModelMessage) (given : Option TaskPlan) (s : Core P)
    → IsGiven given
    → pending_count (given_or_bootstrap t given).steps < fuel
    → ((run env t fuel context given s).0.0 ≢ ok none)
      ⊎ (any is_replanning (run env t fuel context given s).1 ≡ true)
unfolding run run_with string_eq
run-finishes env t fuel context given s h less =
    elim (is_left-or (run env t fuel context given s).0.0) [
      | inl ended ↦ inl ended
      | inr q ↦ inr (
          run_turns-Unfinished env t (run_step env) fuel
            (record {
              plan = record (given_or_bootstrap t given) { status = "executing" };
              transcript = context;
              last_activity = t.clock 0;
              revisions = 0;
              readings = 1;
            })
            s none (given-IsReady t given h) less q refl)
    ]
