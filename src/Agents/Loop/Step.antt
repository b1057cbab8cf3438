-- ===== src/Agents/Loop/Step.antt =====
-- localagentcli/agents/loop.py: one step of the plan, in rounds of a model's answer and its calls. The
-- loop is taken without a session: its budget of tokens and its context are not kept.
mod Outcome
unfoldable pub use Outcome.*
use local_agent_cli.Base.{
  Bool, Eq, List, Option, String, [], if◌then◌else◌, leb, list_eq, min, nat_eq, none, some,
  string_eq, suc, zero, ℕ, ◌++◌, ◌+◌, ◌==◌, ◌∷◌,
}
use local_agent_cli.Base.Text.{Text, codes, strip, whitespace}
use local_agent_cli.Base.Decimal.{decimal}
use local_agent_cli.Base.Dict.{Dict}
use local_agent_cli.Base.Result.{ok}
use local_agent_cli.Base.Gen.{Gen, emit, return, returned, ◌>>=◌, ◌>>◌}
use local_agent_cli.Base.Json.{Json}
use local_agent_cli.Platform.{Platform}
use local_agent_cli.Models.{GenerationResult, ModelMessage}
use local_agent_cli.Tools.Registry.{get_tool_definitions}
use local_agent_cli.Agents.Events.{AgentEvent, reasoning_output, step_phase}
use local_agent_cli.Agents.Plan.{PlanStep, TaskPlan}
use local_agent_cli.Agents.Recovery.{
  FailureBudgetState, FailureContext, classify_model_failure, context, failure_class_label,
  update_failure_counters,
}
use local_agent_cli.Agents.Loop.Base.{Core, Env}
use local_agent_cli.Agents.Loop.Sequential.{Handled}
use local_agent_cli.Agents.Loop.Prompt.{build_messages}
use local_agent_cli.Agents.Loop.Batch.{ahandle_tool_calls, handle_tool_calls}
use local_agent_cli.Base.Result.{message}

module _ {P : Platform} ⦃e : Eq P.FilePath⦄ (env : Env P) where
  unfoldable pub blocking_handler : Handler P
  unfolding handle_tool_calls
  blocking_handler context raw_calls = handle_tool_calls env context raw_calls >>= λ handled.
      return (handled.messages, reported handled)

  unfoldable pub async_handler : Handler P
  unfolding ahandle_tool_calls
  async_handler context raw_calls = ahandle_tool_calls env context raw_calls >>= λ handled.
      return (handled.messages, handled.failure)

  abbrev pub retry_summary : PlanStep → FailureBudgetState → ℕ → Text
  retry_summary step budget_state retry_budget =
      codes "Retrying step "
      ++ (decimal step.index
          ++ (codes " after "
              ++ (failure_class_label budget_state.failure_class
                  ++ (codes " ("
                      ++ (decimal budget_state.attempt
                          ++ (codes "/" ++ (decimal retry_budget ++ codes ").")))))))

  -- A failure is counted; the step ends if the budget of its class, or the loop's, is used up.
  unfoldable pub count_failure :
      PlanStep → String → FailureContext → StepState → Gen (Core P) AgentEvent Next
  unfolding update_failure_counters
  count_failure step kind failure st =
      let (budget_state, counters) = update_failure_counters st.failure_counters failure in
      let retry_budget = min budget_state.retry_budget env.max_consecutive_errors in
      let counted = record st {
        failure_counters = counters;
        last_attempt_count = budget_state.attempt;
        failure_context = some failure;
      } in
      if leb retry_budget budget_state.attempt
      then return (finished (done none kind counted))
      else (emit (step_phase "retrying" (retry_summary step budget_state retry_budget) step)
          >> return (again counted))

  -- The model's answer is an error.
  unfoldable pub model_failed :
      PlanStep → GenerationResult → StepState → Gen (Core P) AgentEvent Next
  unfolding after_error count_failure
  model_failed step result st =
      count_failure step "model_retry_budget_exhausted"
        (classify_model_failure env.texts.lower (some (after_error result st).last_model_error))
        (after_error result st)

  -- After the calls of an answer: a failure is counted, and without one all counts start again.
  abbrev pub after_calls :
      PlanStep
      → StepState
      → List ModelMessage × Option FailureContext
      → Gen (Core P) AgentEvent Next
  after_calls step st (messages, some failure) =
      count_failure step "tool_retry_budget_exhausted" failure
        (record st { conversation = st.conversation ++ messages })
  after_calls step st (messages, none) = return (
      again (record st {
        conversation = st.conversation ++ messages;
        failure_counters = [];
        last_attempt_count = 0;
        failure_context = none;
      }))

  unfoldable pub call_tools :
      Handler P
      → Text
      → PlanStep
      → List ModelMessage
      → GenerationResult
      → StepState
      → Gen (Core P) AgentEvent Next
  unfolding count_failure
  call_tools handler task step transcript result st =
      let asked = with_calls result st in
      handler (some (step_context task step transcript asked)) result.tool_calls
      >>= after_calls step asked

  -- The model's answer to the messages and the definitions of the tools.
  unfoldable pub generate_answer :
      List ModelMessage → List Json → Gen (Core P) AgentEvent GenerationResult
  generate_answer messages definitions core = (
    (
      ok (env.generate core.generations messages definitions),
      record core { generations = core.generations + 1 },
    ),
    [],
  )

  -- `self._stop_requested`
  unfoldable pub is_stopped : Gen (Core P) AgentEvent Bool
  is_stopped core =
      ((ok (env.stop_requested core.checks), record core { checks = core.checks + 1 }), [])

  unfoldable pub after_answer :
      Handler P
      → Text
      → PlanStep
      → List ModelMessage
      → StepState
      → GenerationResult
      → Gen (Core P) AgentEvent Next
  unfolding model_failed call_tools answer_text
  after_answer handler task step transcript st result =
      let reasoning = strip whitespace result.reasoning in
      let reason = if reasoning == [] then return tt else emit (reasoning_output reasoning) in
      if result.finish_reason == "error"
      then model_failed step result st
      else elim result.tool_calls [
        | [] ↦ reason >> return (answer_text result st)
        | call ∷ rest ↦ reason >> call_tools handler task step transcript result st
      ]

  unfoldable pub round :
      Handler P
      → Text
      → TaskPlan
      → PlanStep
      → List ModelMessage
      → StepState
      → Gen (Core P) AgentEvent Next
  unfolding is_stopped generate_answer after_answer
  round handler task plan step transcript st = is_stopped >>= λ stopped.
      if stopped
      then return (finished (done none "" st))
      else (returned (get_tool_definitions env.numbers (some env.model_info) env.tools)
          >>= generate_answer (build_messages task plan step transcript st.conversation)
          >>= after_answer handler task step transcript st)

  -- `for _ in range(self._max_step_rounds)`
  abbrev pub next_round :
      (StepState → Gen (Core P) AgentEvent StepDone) → Next → Gen (Core P) AgentEvent StepDone
  next_round rounds (again st) = rounds st
  next_round rounds (finished d) = return d

  unfoldable pub run_rounds :
      Handler P
      → Text
      → TaskPlan
      → PlanStep
      → List ModelMessage
      → ℕ
      → StepState
      → Gen (Core P) AgentEvent StepDone
  unfolding round
  run_rounds handler task plan step transcript zero st =
      return (done none "round_budget_exhausted" st)
  run_rounds handler task plan step transcript (suc n) st =
      round handler task plan step transcript st
      >>= next_round (run_rounds handler task plan step transcript n)

  unfoldable pub run_step :
      Text → TaskPlan → PlanStep → List ModelMessage → Gen (Core P) AgentEvent StepDone
  unfolding run_rounds blocking_handler
  run_step task plan step transcript =
      run_rounds blocking_handler task plan step transcript env.max_step_rounds first_state

  unfoldable pub arun_step :
      Text → TaskPlan → PlanStep → List ModelMessage → Gen (Core P) AgentEvent StepDone
  unfolding run_rounds async_handler
  arun_step task plan step transcript =
      run_rounds async_handler task plan step transcript env.max_step_rounds first_state
