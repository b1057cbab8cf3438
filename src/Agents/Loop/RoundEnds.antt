-- ===== src/Agents/Loop/RoundEnds.antt =====
-- localagentcli/agents/loop.py: how a round of a step ends.
use local_agent_cli.Base.{
  Bool-cases, Eq, List, Option, String, [], arith, if◌then◌else◌, inl, inr, list_eq, min, nat_eq,
  none, not, refl, some, string_eq, subst, true, ℕ, ◌==◌, ◌∷◌, ◌≡◌, ◌≤◌, ◌⊎◌,
}
use local_agent_cli.Base.Text.{Text, strip, whitespace}
use local_agent_cli.Base.Result.{ok}
use local_agent_cli.Base.Gen.{return, returned, ◌>>=◌}
use local_agent_cli.Platform.{Platform}
use local_agent_cli.Models.{GenerationResult, ModelMessage}
use local_agent_cli.Tools.Registry.{get_tool_definitions}
use local_agent_cli.Agents.Plan.{PlanStep, TaskPlan}
use local_agent_cli.Agents.Recovery.{
  FailureContext, retry_budget_for_failure, update_failure_counters,
}
use local_agent_cli.Agents.Loop.Base.{Core, Env}
use local_agent_cli.Agents.Loop.Prompt.{build_messages}
use local_agent_cli.Agents.Loop.Messages.{resume-ok}
use local_agent_cli.Agents.Loop.Step.{
  Handler, Next, StepDone, StepState, after_answer, after_calls, after_error, again, answer_text,
  call_tools, count_failure, done, finished, generate_answer, is_empty, is_stopped, model_failed,
  round, step_context, with_calls,
}

-- The ways in which a step ends in a round: with a text; stopped, as the look at the stop flag of this
-- number found; or with a failure that was met as often as its class, or the loop, allows.
pub data IsRoundEnd {P : Platform} (env : Env P) (check : ℕ) (d : StepDone) : Type 0 where
  answered : (text : Text) → d.summary ≡ some text → d.failure_kind ≡ "" → IsRoundEnd env check d
  stopped :
      env.stop_requested check ≡ true
      → d.summary ≡ none
      → d.failure_kind ≡ ""
      → IsRoundEnd env check d
  exhausted :
      (failure : FailureContext)
      → d.summary ≡ none
      → (d.failure_kind ≡ "model_retry_budget_exhausted")
        ⊎ (d.failure_kind ≡ "tool_retry_budget_exhausted")
      → d.failure_context ≡ some failure
      → min (retry_budget_for_failure failure.failure_class) env.max_consecutive_errors ≤ d.errors
      → IsRoundEnd env check d

List-cases : {A : Type 0} (xs : List A) → (xs ≡ []) ⊎ ((x : A) × (rest : List A) × (xs ≡ x ∷ rest))
List-cases [] = inl refl
List-cases (x ∷ rest) = inr (x, rest, refl)

module _ {P : Platform} ⦃e : Eq P.FilePath⦄ (env : Env P) (look : ℕ) where
  abbrev pub Ends : Next → Type 0
  Ends (again st) = Unit
  Ends (finished d) = IsRoundEnd env look d

  count_failure-Ends :
      (step : PlanStep) (kind : String) (failure : FailureContext) (st : StepState) (s : Core P)
      → (kind ≡ "model_retry_budget_exhausted") ⊎ (kind ≡ "tool_retry_budget_exhausted")
      → (next : Next) → (count_failure env step kind failure st s).0.0 ≡ ok next
      → Ends next
  unfolding count_failure update_failure_counters
  count_failure-Ends step kind failure st s k (again st') h = tt
  count_failure-Ends step kind failure st s k (finished d) h =
      exhausted failure (ground (arith, h)) (ground (arith, h, k)) (ground (arith, h))
        (ground (arith, h))

  answer_text-Ends : (result : GenerationResult) (st : StepState) → Ends (answer_text result st)
  unfolding answer_text
  answer_text-Ends result st = elim (Bool-cases (not (strip whitespace result.text == []))) [
    | inl t ↦ rw t (answered _ refl refl)
    | inr t ↦ rw t (elim (Bool-cases (not (is_empty st.conversation))) [
      | inl c ↦ rw c (answered _ refl refl)
      | inr c ↦ rw c tt
    ])
  ]

  model_failed-Ends :
      (step : PlanStep) (result : GenerationResult) (st : StepState) (s : Core P) (next : Next)
      → (model_failed env step result st s).0.0 ≡ ok next
      → Ends next
  unfolding model_failed
  model_failed-Ends step result st s next h =
      count_failure-Ends step "model_retry_budget_exhausted" _ (after_error result st) s (inl refl)
        next h

  after_calls-Ends :
      (step : PlanStep) (st : StepState) (messages : List ModelMessage)
      (failure : Option FailureContext) (s : Core P) (next : Next)
      → (after_calls env step st (messages, failure) s).0.0 ≡ ok next
      → Ends next
  after_calls-Ends step st messages (some failure) s next h =
      count_failure-Ends step "tool_retry_budget_exhausted" failure _ s (inr refl) next h
  after_calls-Ends step st messages none s (again st') h = tt
  after_calls-Ends step st messages none s (finished d) h = absurd (ground (arith, h))

  module _ (handler : Handler P) (task : Text) (plan : TaskPlan) (step : PlanStep)
      (transcript : List ModelMessage) where
    call_tools-Ends :
        (result : GenerationResult) (st : StepState) (s : Core P) (next : Next)
        → (call_tools env handler task step transcript result st s).0.0 ≡ ok next
        → Ends next
    unfolding call_tools
    call_tools-Ends result st s =
        let asked = with_calls result st in
        let run = handler (some (step_context task step transcript asked)) result.tool_calls s in
        resume-ok Ends run.0.0 (after_calls env step asked) run.0.1 run.1
          (λ answer _. after_calls-Ends step asked answer.0 answer.1 run.0.1)

    after_answer-Ends :
        (st : StepState) (result : GenerationResult) (s : Core P) (next : Next)
        → (after_answer env handler task step transcript st result s).0.0 ≡ ok next
        → Ends next
    unfolding after_answer
    after_answer-Ends st result s next h = elim (Bool-cases (result.finish_reason == "error")) [
      | inl q ↦ model_failed-Ends step result st s next (ground (arith, q, h))
      | inr q ↦ elim (List-cases result.tool_calls) [
        | inl r ↦
            subst Ends {x = answer_text result st} {y = next} (ground (arith, q, r, h))
              (answer_text-Ends result st)
        | inr (call, rest, r) ↦ call_tools-Ends result st s next (ground (arith, q, r, h))
      ]
    ]

    pub round-Ends :
        (st : StepState) (s : Core P) (next : Next)
        → s.checks ≡ look
        → (round env handler task plan step transcript st s).0.0 ≡ ok next
        → Ends next
    unfolding round is_stopped
    round-Ends st s next here =
        let check = is_stopped env s in
        resume-ok Ends check.0.0
          (λ b.
            if b
            then return (finished (done none "" st))
            else (returned (get_tool_definitions env.numbers (some env.model_info) env.tools)
                >>= generate_answer env (build_messages task plan step transcript st.conversation)
                >>= after_answer env handler task step transcript st))
          check.0.1 check.1
          (λ b looked next. elim (Bool-cases b) [
            | inl p ↦ λ h.
                subst Ends {x = finished (done none "" st)} {y = next} (ground (arith, p, h))
                  (stopped (ground (arith, p, looked, here)) refl refl)
            | inr p ↦ λ h.
                let definitions =
                  returned (get_tool_definitions env.numbers (some env.model_info) env.tools)
                  >>= generate_answer env
                      (build_messages task plan step transcript st.conversation) in
                let run = definitions check.0.1 in
                resume-ok Ends run.0.0 (after_answer env handler task step transcript st) run.0.1
                  run.1 (λ result _. after_answer-Ends st result run.0.1) next
                  (ground (arith, p, h))
          ])
          next
