-- ===== src/Agents/Loop/Budget.antt =====
-- localagentcli/agents/loop.py: how often a step asks the model, for answers and for reviews.
use local_agent_cli.Base.{
  Bool, Bool-cases, Eq, List, arith, false, inl, inr, length, list_eq, nat_eq, none, refl, some,
  string_eq, suc, true, zero, ℕ, ◌*◌, ◌+◌, ◌≡◌, ◌≤◌,
}
use local_agent_cli.Base.Text.{Text}
use local_agent_cli.Base.Result.{Error, Result, Result-cases, err, ok}
use local_agent_cli.Base.Json.{Json}
use local_agent_cli.Platform.{Platform}
use local_agent_cli.Models.{GenerationResult, ModelMessage}
use local_agent_cli.Tools.Registry.{get_tool_definitions}
use local_agent_cli.Agents.Plan.{PlanStep, TaskPlan}
use local_agent_cli.Agents.Loop.Base.{Core, Env}
use local_agent_cli.Agents.Loop.Prompt.{build_messages}
use local_agent_cli.Agents.Loop.Step.{
  Next, StepState, again, blocking_handler, done, finished, first_state, generate_answer,
  is_stopped, next_round, round, run_rounds, run_step,
}
use local_agent_cli.Agents.Loop.Rounds.{Asked, resume-all}
use local_agent_cli.Agents.Loop.Asking.{after_answer-Asked}

module _ {P : Platform} ⦃e : Eq P.FilePath⦄ (env : Env P) where
  -- The calls that an answer may hold are so many at most.
  abbrev pub AsksAtMost : ℕ → Type 0
  AsksAtMost calls =
      (n : ℕ) (messages : List ModelMessage) (definitions : List Json)
      → length (env.generate n messages definitions).tool_calls ≤ calls

  abbrev pub is_again : Next → Bool
  is_again (again st) = true
  is_again (finished d) = false

  module _ (task : Text) (plan : TaskPlan) (step : PlanStep) (transcript : List ModelMessage) where
    abbrev offered : Result (List Json)
    offered = get_tool_definitions env.numbers (some env.model_info) env.tools

    abbrev result_of : StepState → List Json → Core P → GenerationResult
    result_of st definitions s =
        env.generate s.generations (build_messages task plan step transcript st.conversation)
          definitions

    abbrev after_round : StepState → Core P → Result Next × Core P
    after_round st s = (round env (blocking_handler env) task plan step transcript st s).0

    -- A round that is not stopped and can show the tools asks for one answer, and for one review of
    -- each of its calls at most.
    round-answered :
        (st : StepState) (s : Core P) (definitions : List Json)
        → env.stop_requested s.checks ≡ false
        → offered ≡ ok definitions
        → Asked env
            (s.checks + 1)
            (s.generations + 1)
            (s.generations + 1 + length (result_of st definitions s).tool_calls)
            (after_round st s).1
    unfolding round is_stopped generate_answer
    round-answered st s definitions p q =
        let asked = record s { generations = s.generations + 1; checks = s.checks + 1 } in
        rw (after_round, p, q)
          (after_answer-Asked env (s.checks + 1) (s.generations + 1) task plan step transcript st
            (result_of st definitions s) asked
            (record { looked = refl; enough = omega arith; bounded = omega arith }))

    round-stopped :
        (st : StepState) (s : Core P)
        → env.stop_requested s.checks ≡ true
        → after_round st s ≡ (ok (finished (done none "" st)), record s { checks = s.checks + 1 })
    unfolding round is_stopped
    round-stopped st s p = ground (arith, p)

    round-raised :
        (st : StepState) (s : Core P) (raised : Error)
        → env.stop_requested s.checks ≡ false
        → offered ≡ err raised
        → after_round st s ≡ (err raised, record s { checks = s.checks + 1 })
    unfolding round is_stopped
    round-raised st s raised p q = ground (arith, p, q)

    -- Every round looks once whether a stop was requested.
    pub round-checks : (st : StepState) (s : Core P) → (after_round st s).1.checks ≡ s.checks + 1
    round-checks st s = elim (Bool-cases (env.stop_requested s.checks)) [
      | inl p ↦ rw (round-stopped st s p) refl
      | inr p ↦ elim (Result-cases offered) [
        | inr (raised, q) ↦ rw (round-raised st s raised p q) refl
        | inl (definitions, q) ↦ (round-answered st s definitions p q).looked
      ]
    ]

    -- Where another round follows, the model was asked.
    pub round-asks :
        (st : StepState) (s : Core P) (next : Next)
        → (after_round st s).0 ≡ ok next
        → is_again next ≡ true
        → s.generations + 1 ≤ (after_round st s).1.generations
    round-asks st s next h more = elim (Bool-cases (env.stop_requested s.checks)) [
      | inl p ↦ absurd (ground (arith, h, more, round-stopped st s p))
      | inr p ↦ elim (Result-cases offered) [
        | inr (raised, q) ↦ absurd (ground (arith, h, round-raised st s raised p q))
        | inl (definitions, q) ↦ (round-answered st s definitions p q).enough
      ]
    ]

    round-generations :
        (calls : ℕ) (st : StepState) (s : Core P)
        → AsksAtMost calls
        → (after_round st s).1.generations ≤ s.generations + (1 + calls)
    round-generations calls st s few = elim (Bool-cases (env.stop_requested s.checks)) [
      | inl p ↦ rw (round-stopped st s p) (omega arith)
      | inr p ↦ elim (Result-cases offered) [
        | inr (raised, q) ↦ rw (round-raised st s raised p q) (omega arith)
        | inl (definitions, q) ↦ omega (
          arith,
          (round-answered st s definitions p q).bounded,
          few s.generations (build_messages task plan step transcript st.conversation) definitions,
        )
      ]
    ]

    run_rounds-generations :
        (calls n : ℕ) (st : StepState) (s : Core P)
        → AsksAtMost calls
        → (run_rounds env (blocking_handler env) task plan step transcript n st s).0.1.generations
          ≤ s.generations + n * (1 + calls)
    unfolding run_rounds
    run_rounds-generations calls zero st s few = omega arith
    run_rounds-generations calls (suc n) st s few =
        let run = round env (blocking_handler env) task plan step transcript st s in
        let k = round-generations calls st s few in
        let rounds = run_rounds env (blocking_handler env) task plan step transcript n in
        let most = s.generations + suc n * (1 + calls) in
        let step_up : suc n * (1 + calls) ≡ (1 + calls) + n * (1 + calls) = omega arith in
        resume-all (λ t. t.generations ≤ most) run.0.0 (next_round env rounds) run.0.1 run.1
          (omega (arith, k, step_up))
          (λ next.
            elim next as (λ (x : Next). (next_round env rounds x run.0.1).0.1.generations ≤ most) [
              | again st' ↦
                  omega (arith, k, step_up, run_rounds-generations calls n st' run.0.1 few)
              | finished d ↦ omega (arith, k, step_up)
            ])

-- Where an answer of the model never holds more than so many calls, a blocking step asks the model, for
-- answers and for the guardian's reviews together, at most once for each round it may have and once
-- for each call of each of these rounds, however it ends.
pub run_step-generations :
    {P : Platform} ⦃e : Eq P.FilePath⦄ (env : Env P) (task : Text) (plan : TaskPlan)
    (step : PlanStep) (transcript : List ModelMessage) (s : Core P) (calls : ℕ)
    → AsksAtMost env calls
    → (run_step env task plan step transcript s).0.1.generations
      ≤ s.generations + env.max_step_rounds * (1 + calls)
unfolding run_step
run_step-generations env task plan step transcript s calls few =
    run_rounds-generations env task plan step transcript calls env.max_step_rounds first_state s few
