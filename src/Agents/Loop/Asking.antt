-- ===== src/Agents/Loop/Asking.antt =====
-- localagentcli/agents/loop.py: how often what follows an answer asks the model, for reviews.
use local_agent_cli.Base.{
  Bool, Bool-cases, Eq, List, Option, String, [], arith, if◌then◌else◌, inl, inr, length, list_eq,
  nat_eq, none, refl, some, string_eq, ℕ, ◌++◌, ◌+◌, ◌==◌, ◌∙◌, ◌∷◌, ◌≡◌,
}
use local_agent_cli.Base.Text.{Text}
use local_agent_cli.Base.Gen.{return, ◌>>=◌}
use local_agent_cli.Base.Json.{Fields}
use local_agent_cli.Platform.{Platform}
use local_agent_cli.Models.{GenerationResult, ModelMessage}
use local_agent_cli.Tools.Base.{ToolResult}
use local_agent_cli.Agents.Plan.{PlanStep, TaskPlan}
use local_agent_cli.Agents.Recovery.{FailureContext, classify_model_failure, context}
use local_agent_cli.Agents.Loop.Base.{Core, Env, GuardianContext}
use local_agent_cli.Agents.Loop.Calls.{execute}
use local_agent_cli.Agents.Loop.Sequential.{
  async_finish, handle_tool_calls_sequential, handled_first,
}
use local_agent_cli.Agents.Loop.Batch.{
  Prepared, execute_all, execute_batch, finish_batch, handle_tool_calls,
  handle_tool_calls_parallel_read_only, parallel_read_only_batch_eligible, prepare_call,
  prepare_calls,
}
use local_agent_cli.Agents.Loop.Step.{
  StepState, after_answer, after_calls, after_error, blocking_handler, call_tools, count_failure,
  model_failed, reported, step_context, with_calls,
}
use local_agent_cli.Agents.Loop.Rounds.{
  Asked, Asked-more, async_finish-Asked, execute-Asked, prepare_call-state, resume-all,
  sequential-Asked,
}

module _ {P : Platform} ⦃e : Eq P.FilePath⦄ (env : Env P) where
  prepare_calls-state :
      (raw_calls : List Fields) (s : Core P) → (prepare_calls env raw_calls s).0.1 ≡ s
  unfolding prepare_calls
  prepare_calls-state [] s = refl
  prepare_calls-state (raw_call ∷ rest) s =
      let run = prepare_call env raw_call s in
      resume-all (λ t. t ≡ s) run.0.0
        (λ first. prepare_calls env rest >>= λ others. return (first ∷ others)) run.0.1 run.1
        (prepare_call-state env raw_call s)
        (λ first.
          let more = prepare_calls env rest run.0.1 in
          let k = prepare_calls-state rest run.0.1 ∙ prepare_call-state env raw_call s in
          resume-all (λ t. t ≡ s) more.0.0 (λ others. return (first ∷ others)) more.0.1 more.1 k
            (λ others. k))

  module _ (looks least : ℕ) where
    execute_all-Asked :
        {most : ℕ} (prepared : List (Prepared env)) (s : Core P)
        → Asked env looks least most s
        → Asked env looks least most (execute_all env prepared s).1
    unfolding execute_all
    execute_all-Asked [] s h = h
    execute_all-Asked (p ∷ rest) s h =
        execute_all-Asked rest (execute env p.entry p.call.arguments s).0.1
          (execute-Asked env looks least p.entry p.call.arguments s h)

    finish_batch-Asked :
        {most : ℕ} (results : List (Prepared env × ToolResult)) (s : Core P)
        → Asked env looks least most s
        → Asked env looks least most (finish_batch env results s).0.1
    unfolding finish_batch
    finish_batch-Asked [] s h = h
    finish_batch-Asked {most} ((p, result) ∷ rest) s h =
        let run = async_finish env p.call p.entry.tool result s in
        let k = async_finish-Asked env looks least p.call p.entry.tool result s h in
        resume-all (Asked env looks least most) run.0.0
          (λ first. finish_batch env rest >>= λ others. return (handled_first first others)) run.0.1
          run.1 k
          (λ first.
            let more = finish_batch env rest run.0.1 in
            resume-all (Asked env looks least most) more.0.0
              (λ others. return (handled_first first others)) more.0.1 more.1
              (finish_batch-Asked rest run.0.1 k) (λ others. finish_batch-Asked rest run.0.1 k))

    parallel-Asked :
        {most : ℕ} (raw_calls : List Fields) (s : Core P)
        → Asked env looks least most s
        → Asked env looks least most (handle_tool_calls_parallel_read_only env raw_calls s).0.1
    unfolding handle_tool_calls_parallel_read_only execute_batch
    parallel-Asked {most} raw_calls s h =
        let run = prepare_calls env raw_calls s in
        let k : Asked env looks least most run.0.1 = rw (prepare_calls-state raw_calls s) h in
        resume-all (Asked env looks least most) run.0.0
          (λ prepared. execute_batch env prepared >>= finish_batch env) run.0.1 run.1 k
          (λ prepared.
            let ran = execute_batch env prepared run.0.1 in
            let l = execute_all-Asked prepared run.0.1 k in
            resume-all (Asked env looks least most) ran.0.0 (finish_batch env) ran.0.1 ran.1 l
              (λ results. finish_batch-Asked results ran.0.1 l))

    -- Each call is reviewed once at most.
    handler-Asked :
        {most : ℕ} (context : Option GuardianContext) (raw_calls : List Fields) (s : Core P)
        → Asked env looks least most s
        → Asked env looks least
            (most + length raw_calls)
            (blocking_handler env context raw_calls s).0.1
    unfolding blocking_handler handle_tool_calls
    handler-Asked {most} context raw_calls s h =
        let batch = parallel_read_only_batch_eligible env s.safety.world.disk raw_calls in
        let handle = λ (together : Bool).
          if together
          then handle_tool_calls_parallel_read_only env raw_calls
          else handle_tool_calls_sequential env context raw_calls in
        let run = handle_tool_calls env context raw_calls s in
        let all = most + length raw_calls in
        let more = λ (t : Core P) (g : Asked env looks least most t).
          Asked-more env looks least most all t g (omega arith) in
        let k : Asked env looks least all run.0.1 =
          resume-all (Asked env looks least all) batch handle s [] (more s h) (λ together.
            elim (Bool-cases together) [
              | inl p ↦ rw p (more _ (parallel-Asked raw_calls s h))
              | inr p ↦ rw p (sequential-Asked env looks least context raw_calls s h)
            ]) in
        resume-all (Asked env looks least all) run.0.0
          (λ handled. return (handled.messages, reported handled)) run.0.1 run.1 k (λ handled. k)

    count_failure-Asked :
        {most : ℕ} (step : PlanStep) (kind : String) (failure : FailureContext) (st : StepState)
        (s : Core P)
        → Asked env looks least most s
        → Asked env looks least most (count_failure env step kind failure st s).0.1
    unfolding count_failure
    count_failure-Asked step kind failure st s h = record {
      looked = ground (arith, h.looked);
      enough = ground (arith, h.enough);
      bounded = ground (arith, h.bounded);
    }

    after_calls-Asked :
        {most : ℕ} (step : PlanStep) (st : StepState) (messages : List ModelMessage)
        (failure : Option FailureContext) (s : Core P)
        → Asked env looks least most s
        → Asked env looks least most (after_calls env step st (messages, failure) s).0.1
    after_calls-Asked step st messages (some failure) s h =
        count_failure-Asked step "tool_retry_budget_exhausted" failure
          (record st { conversation = st.conversation ++ messages }) s h
    after_calls-Asked step st messages none s h = h

    module _ (task : Text) (plan : TaskPlan) (step : PlanStep)
        (transcript : List ModelMessage) where
      call_tools-Asked :
          {most : ℕ} (result : GenerationResult) (st : StepState) (s : Core P)
          → Asked env looks least most s
          → Asked env looks least
              (most + length result.tool_calls)
              (call_tools env (blocking_handler env) task step transcript result st s).0.1
      unfolding call_tools
      call_tools-Asked {most} result st s h =
          let asked = with_calls result st in
          let context = some (step_context task step transcript asked) in
          let run = blocking_handler env context result.tool_calls s in
          let k = handler-Asked context result.tool_calls s h in
          resume-all (Asked env looks least (most + length result.tool_calls)) run.0.0
            (after_calls env step asked) run.0.1 run.1 k
            (λ answer. after_calls-Asked step asked answer.0 answer.1 run.0.1 k)

      pub after_answer-Asked :
          {most : ℕ} (st : StepState) (result : GenerationResult) (s : Core P)
          → Asked env looks least most s
          → Asked env looks least
              (most + length result.tool_calls)
              (after_answer env (blocking_handler env) task step transcript st result s).0.1
      unfolding after_answer model_failed
      after_answer-Asked {most} st result s h =
          let more =
            Asked-more env looks least most (most + length result.tool_calls) s h (omega arith) in
          elim (Bool-cases (result.finish_reason == "error")) [
            | inl q ↦ rw q (
                count_failure-Asked step "model_retry_budget_exhausted"
                  (classify_model_failure env.texts.lower
                    (some (after_error result st).last_model_error))
                  (after_error result st) s more)
            | inr q ↦ ground (arith, q, more, call_tools-Asked result st s h)
          ]
