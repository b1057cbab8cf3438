-- ===== src/Agents/Loop/StepLaws.antt =====
-- localagentcli/agents/loop.py: the asynchronous step does what the blocking one does.
use local_agent_cli.Base.{
  Bool-cases, Eq, List, Option, Option-cases, arith, if◌then◌else◌, inl, inr, list_eq, nat_eq, none,
  refl, some, string_eq, suc, true, zero, ℕ, ◌≡◌,
}
use local_agent_cli.Base.Text.{Text}
use local_agent_cli.Base.Gen.{Gen, quiet, return, returned, ◌>>=◌}
use local_agent_cli.Base.Json.{Fields}
use local_agent_cli.Platform.{Platform}
use local_agent_cli.Models.{GenerationResult, ModelMessage}
use local_agent_cli.Tools.Registry.{get_tool_definitions}
use local_agent_cli.Tools.Registry.Laws.{Routed}
use local_agent_cli.Agents.Events.{AgentEvent}
use local_agent_cli.Agents.Plan.{PlanStep, TaskPlan}
use local_agent_cli.Agents.Loop.Base.{Core, Env, GuardianContext}
use local_agent_cli.Agents.Loop.Sequential.{Handled}
use local_agent_cli.Agents.Loop.Batch.{ahandle_tool_calls, handle_tool_calls}
use local_agent_cli.Agents.Loop.Prompt.{build_messages}
use local_agent_cli.Agents.Loop.Mirror.{handle_tool_calls-ahandle_tool_calls, resume-eq, runs-eq}
use local_agent_cli.Agents.Loop.Messages.{has_failure}
use local_agent_cli.Agents.Loop.Answers.{handle_tool_calls-AreAnswers}
use local_agent_cli.Agents.Loop.Step.{
  Handler, Next, StepDone, StepState, after_answer, after_calls, again, arun_step, async_handler,
  blocking_handler, call_tools, done, finished, first_state, generate_answer, is_stopped,
  next_round, reported, round, run_rounds, run_step, step_context, with_calls,
}

-- A failure is reported by `had_error` alone only if there is none.
reported-failure :
    (handled : Handled)
    → (handled.had_error ≡ true → has_failure handled.failure ≡ true)
    → reported handled ≡ handled.failure
reported-failure handled h = elim (Option-cases handled.failure) [
  | inr (failure, q) ↦ ground (arith, q)
  | inl q ↦ elim (Bool-cases handled.had_error) [
    | inl had ↦ absurd (ground (arith, q, h had))
    | inr fine ↦ ground (arith, q, fine)
  ]
]

module _ {P : Platform} ⦃e : Eq P.FilePath⦄ (env : Env P) (routed : Routed env.tools) where
  handler-eq :
      (context : Option GuardianContext) (raw_calls : List Fields) (s : Core P)
      → quiet (blocking_handler env context raw_calls) s
        ≡ quiet (async_handler env context raw_calls) s
  unfolding blocking_handler async_handler
  handler-eq context raw_calls s =
      let run = handle_tool_calls env context raw_calls s in
      runs-eq run (ahandle_tool_calls env context raw_calls s)
        (λ handled. return (handled.messages, reported handled))
        (λ handled. return (handled.messages, handled.failure))
        (handle_tool_calls-ahandle_tool_calls env context raw_calls s routed)
        (λ handled q.
          rw
            (reported-failure handled
              (handle_tool_calls-AreAnswers env context raw_calls s handled q).1)
            refl)

  next_round-eq :
      (f g : StepState → Gen (Core P) AgentEvent StepDone) (next : Next) (t : Core P)
      → ((st : StepState) (u : Core P) → quiet (f st) u ≡ quiet (g st) u)
      → quiet (next_round env f next) t ≡ quiet (next_round env g next) t
  next_round-eq f g (again st) t h = h st t
  next_round-eq f g (finished d) t h = refl

  module _ (task : Text) (plan : TaskPlan) (step : PlanStep) (transcript : List ModelMessage) where
    abbrev blocking : Handler P
    blocking = blocking_handler env

    abbrev asynchronous : Handler P
    asynchronous = async_handler env

    call_tools-eq :
        (result : GenerationResult) (st : StepState) (s : Core P)
        → quiet (call_tools env blocking task step transcript result st) s
          ≡ quiet (call_tools env asynchronous task step transcript result st) s
    unfolding call_tools
    call_tools-eq result st s =
        let asked = with_calls result st in
        let context = some (step_context task step transcript asked) in
        runs-eq (blocking context result.tool_calls s) (asynchronous context result.tool_calls s)
          (after_calls env step asked) (after_calls env step asked)
          (handler-eq context result.tool_calls s) (λ answer _. refl)

    after_answer-eq :
        (st : StepState) (result : GenerationResult) (s : Core P)
        → quiet (after_answer env blocking task step transcript st result) s
          ≡ quiet (after_answer env asynchronous task step transcript st result) s
    unfolding after_answer
    after_answer-eq st result s = ground (arith, call_tools-eq result st s)

    round-eq :
        (st : StepState) (s : Core P)
        → quiet (round env blocking task plan step transcript st) s
          ≡ quiet (round env asynchronous task plan step transcript st) s
    unfolding round is_stopped generate_answer
    round-eq st s =
        let stopped = is_stopped env s in
        resume-eq stopped.0.0
          (λ b.
            if b
            then return (finished (done none "" st))
            else (returned (get_tool_definitions env.numbers (some env.model_info) env.tools)
                >>= generate_answer env (build_messages task plan step transcript st.conversation)
                >>= after_answer env blocking task step transcript st))
          (λ b.
            if b
            then return (finished (done none "" st))
            else (returned (get_tool_definitions env.numbers (some env.model_info) env.tools)
                >>= generate_answer env (build_messages task plan step transcript st.conversation)
                >>= after_answer env asynchronous task step transcript st))
          stopped.0.1 stopped.1
          (λ b _. elim (Bool-cases b) [
            | inl p ↦ rw p refl
            | inr p ↦ rw p (
                let definitions =
                  returned (get_tool_definitions env.numbers (some env.model_info) env.tools)
                  >>= generate_answer env
                      (build_messages task plan step transcript st.conversation) in
                resume-eq (definitions stopped.0.1).0.0
                  (after_answer env blocking task step transcript st)
                  (after_answer env asynchronous task step transcript st)
                  (definitions stopped.0.1).0.1 (definitions stopped.0.1).1
                  (λ result _. after_answer-eq st result (definitions stopped.0.1).0.1))
          ])

    run_rounds-eq :
        (n : ℕ) (st : StepState) (s : Core P)
        → quiet (run_rounds env blocking task plan step transcript n st) s
          ≡ quiet (run_rounds env asynchronous task plan step transcript n st) s
    unfolding run_rounds
    run_rounds-eq zero st s = refl
    run_rounds-eq (suc n) st s =
        runs-eq (round env blocking task plan step transcript st s)
          (round env asynchronous task plan step transcript st s)
          (next_round env (run_rounds env blocking task plan step transcript n))
          (next_round env (run_rounds env asynchronous task plan step transcript n)) (round-eq st s)
          (λ next _.
            next_round-eq (run_rounds env blocking task plan step transcript n)
              (run_rounds env asynchronous task plan step transcript n) next
              (round env blocking task plan step transcript st s).0.1
              (λ st' t. run_rounds-eq n st' t))

-- In a router made by registrations: the asynchronous step returns or raises what the blocking step
-- does, and leaves the same state, whatever the model, the guardian and the user answer.
pub run_step-arun_step :
    {P : Platform} ⦃e : Eq P.FilePath⦄ (env : Env P) (task : Text) (plan : TaskPlan)
    (step : PlanStep) (transcript : List ModelMessage) (s : Core P)
    → Routed env.tools
    → quiet (run_step env task plan step transcript) s
      ≡ quiet (arun_step env task plan step transcript) s
unfolding run_step arun_step
run_step-arun_step env task plan step transcript s routed =
    run_rounds-eq env routed task plan step transcript env.max_step_rounds first_state s
