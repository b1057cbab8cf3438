-- ===== src/Agents/Loop/Messages.antt =====
-- localagentcli/agents/loop.py: what the calls of an answer add to the conversation, one by one.
use local_agent_cli.Base.{
  Bool, Bool-cases, Eq, List, Option, [], arith, false, inl, inr, list_eq, map, nat_eq, none, not,
  refl, some, string_eq, subst, sym, true, ◌==◌, ◌∷◌, ◌≡◌,
}
use local_agent_cli.Base.Text.{Text, codes}
use local_agent_cli.Base.Result.{Result, Result-cases, err, message, ok}
use local_agent_cli.Base.Gen.{Gen, resume, return, returned, ◌>>=◌}
use local_agent_cli.Base.Json.{Fields, Json, get, str}
use local_agent_cli.Platform.{Platform}
use local_agent_cli.Models.{ModelMessage}
use local_agent_cli.Tools.Base.{Tool, ToolResult}
use local_agent_cli.Tools.Registry.{Registered}
use local_agent_cli.Safety.Layer.{ApprovalResult}
use local_agent_cli.Agents.Recovery.{FailureContext, classify_tool_failure, context}
use local_agent_cli.Agents.Loop.Base.{
  Core, Env, GuardianContext, Implementation, NormalizedCall, call_id_of, function_of,
  name_or_unknown, normalize_tool_call, tool_message, tool_of,
}
use local_agent_cli.Agents.Loop.Calls.{Answered, blocked_tool, consent, decide, is_blocked}
use local_agent_cli.Agents.Loop.Sequential.{
  Handled, answered, async_finish, blocked_answer, handle_tool_calls_sequential, handled_first,
  nothing_handled, run_if, sequential_answer, sequential_call, sequential_decided,
  sequential_finish,
}

-- A run that returns has a first part that returns.
pub resume-ok :
    {S E A B : Type 0} (Q : B → Type 0) (r : Result A) (next : A → Gen S E B) (s : S)
    (events : List E)
    → ((a : A) → r ≡ ok a → (b : B) → (next a s).0.0 ≡ ok b → Q b)
    → (b : B) → (resume r next s events).0.0 ≡ ok b
    → Q b
resume-ok Q (ok a) next s events h b q = h a refl b q
resume-ok Q (err raised) next s events h b q = cc

-- The call that a message answers.
abbrev pub answers_to : ModelMessage → Option Json
answers_to message = get "tool_call_id" message.metadata

abbrev pub has_failure : Option FailureContext → Bool
has_failure none = false
has_failure (some failure) = true

classify_tool_failure-has_failure :
    (lower : Text → Text) (result : ToolResult)
    → has_failure (classify_tool_failure lower result) ≡ not (result.status == "success")
unfolding classify_tool_failure
classify_tool_failure-has_failure lower result = ground arith

-- A message that answers the call, and a failure wherever there was an error.
abbrev pub IsAnswer : Text → Answered → Type 0
IsAnswer call_id a =
    (answers_to a.message ≡ some (str call_id)) × (a.errored ≡ true → has_failure a.failure ≡ true)

abbrev pub AreAnswers : List Text → Handled → Type 0
AreAnswers call_ids handled =
    (map answers_to handled.messages ≡ map (λ t. some (str t)) call_ids)
    × (handled.had_error ≡ true → has_failure handled.failure ≡ true)

pub handled_first-AreAnswers :
    (call_id : Text) (call_ids : List Text) (a : Answered) (rest : Handled)
    → IsAnswer call_id a
    → AreAnswers call_ids rest
    → AreAnswers (call_id ∷ call_ids) (handled_first a rest)
handled_first-AreAnswers call_id call_ids a rest (m, f) (ms, fs) = (
  ground (arith, m, ms),
  λ h. elim (Bool-cases a.errored) [
    | inl errored ↦ ground (arith, f errored)
    | inr fine ↦ ground (arith, fs (ground (arith, h, fine)))
  ],
)

module _ {P : Platform} ⦃e : Eq P.FilePath⦄ (env : Env P) where
  tool_message-answers_to :
      (call_id : Text) (name : Json) (result : ToolResult)
      → answers_to (tool_message env call_id name result) ≡ some (str call_id)
  unfolding tool_message get
  tool_message-answers_to call_id name result = ground arith

  answered-IsAnswer :
      (call : NormalizedCall) (name : Json) (result : ToolResult)
      → IsAnswer call.call_id (answered env call name result (not (result.status == "success")))
  answered-IsAnswer call name result = (
    tool_message-answers_to call.call_id name result,
    λ h. ground (arith, h, classify_tool_failure-has_failure env.texts.lower result),
  )

  sequential_finish-IsAnswer :
      (call : NormalizedCall) (result : ToolResult) (s : Core P) (a : Answered)
      → (sequential_finish env call result s).0.0 ≡ ok a
      → IsAnswer call.call_id a
  unfolding sequential_finish
  sequential_finish-IsAnswer call result s a h =
      subst (IsAnswer call.call_id)
        {x = answered env call (name_or_unknown call.tool_name) result
          (not (result.status == "success"))}
        {y = a} (ground (arith, h)) (answered-IsAnswer call (name_or_unknown call.tool_name) result)

  pub async_finish-IsAnswer :
      (call : NormalizedCall) (tool : Tool) (result : ToolResult) (s : Core P) (a : Answered)
      → (async_finish env call tool result s).0.0 ≡ ok a
      → IsAnswer call.call_id a
  unfolding async_finish
  async_finish-IsAnswer call tool result s a h =
      subst (IsAnswer call.call_id)
        {x = answered env call (str (codes tool.name)) result (not (result.status == "success"))}
        {y = a} (ground (arith, h)) (answered-IsAnswer call (str (codes tool.name)) result)

  blocked_answer-IsAnswer :
      (call : NormalizedCall) (tool : Tool) (reason : Option Text) (s : Core P) (a : Answered)
      → (blocked_answer env call tool reason s).0.0 ≡ ok a
      → IsAnswer call.call_id a
  blocked_answer-IsAnswer call tool reason s a h =
      let result = blocked_tool tool.name reason in
      subst (IsAnswer call.call_id) {x = answered env call (str (codes tool.name)) result false}
        {y = a} (ground (arith, h))
        (
          tool_message-answers_to call.call_id (str (codes tool.name)) result,
          λ q. absurd (ground (arith, q)),
        )

  decided-IsAnswer :
      (context : Option GuardianContext) (call : NormalizedCall)
      (entry : Registered (Implementation P)) (decision : ApprovalResult) (s : Core P)
      (a : Answered)
      → (sequential_decided env context call entry decision s).0.0 ≡ ok a
      → IsAnswer call.call_id a
  decided-IsAnswer context call entry decision s a h =
      elim (Bool-cases (is_blocked decision.status)) [
        | inl b ↦ blocked_answer-IsAnswer call entry.tool decision.reason s a (ground (arith, b, h))
        | inr b ↦
            let run =
              (consent env context entry.tool call.arguments decision >>= run_if env call entry)
                s in
            resume-ok (IsAnswer call.call_id) run.0.0 (sequential_finish env call) run.0.1 run.1
              (λ result _ answer. sequential_finish-IsAnswer call result run.0.1 answer) a
              (ground (arith, b, h))
      ]

  sequential_answer-IsAnswer :
      (context : Option GuardianContext) (call : NormalizedCall)
      (entry : Option (Registered (Implementation P))) (parse_error : Option Text) (s : Core P)
      (a : Answered)
      → (sequential_answer env context call entry parse_error s).0.0 ≡ ok a
      → IsAnswer call.call_id a
  sequential_answer-IsAnswer context call none parse_error s a h =
      sequential_finish-IsAnswer call _ s a h
  sequential_answer-IsAnswer context call (some entry) (some parse_error) s a h =
      sequential_finish-IsAnswer call _ s a h
  sequential_answer-IsAnswer context call (some entry) none s a h =
      let run = decide env entry.tool call.arguments s in
      resume-ok (IsAnswer call.call_id) run.0.0 (sequential_decided env context call entry) run.0.1
        run.1 (λ decision _ answer. decided-IsAnswer context call entry decision run.0.1 answer) a h

  pub normalize_tool_call-call_id :
      (raw_call : Fields) (call : NormalizedCall)
      → normalize_tool_call env.texts raw_call ≡ ok call
      → call.call_id ≡ call_id_of env.texts raw_call
  unfolding normalize_tool_call
  normalize_tool_call-call_id raw_call call h =
      elim (Result-cases (function_of raw_call (get "function" raw_call))) [
        | inl (function, q) ↦ ground (arith, h, q)
        | inr (raised, q) ↦ absurd (ground (arith, h, q))
      ]

  sequential_call-IsAnswer :
      (context : Option GuardianContext) (raw_call : Fields) (s : Core P) (a : Answered)
      → (sequential_call env context raw_call s).0.0 ≡ ok a
      → IsAnswer (call_id_of env.texts raw_call) a
  unfolding sequential_call
  sequential_call-IsAnswer context raw_call s =
      resume-ok (IsAnswer (call_id_of env.texts raw_call)) (normalize_tool_call env.texts raw_call)
        (λ call. returned (tool_of call.tool_name env.tools) >>= λ entry.
          sequential_answer env context call entry call.parse_error)
        s []
        (λ call h. rw (sym (normalize_tool_call-call_id raw_call call h)) (
          resume-ok (IsAnswer call.call_id) (tool_of call.tool_name env.tools)
            (λ entry. sequential_answer env context call entry call.parse_error) s []
            (λ entry _. sequential_answer-IsAnswer context call entry call.parse_error s)))

  abbrev pub call_ids : List Fields → List Text
  call_ids raw_calls = map (call_id_of env.texts) raw_calls

  pub sequential-AreAnswers :
      (context : Option GuardianContext) (raw_calls : List Fields) (s : Core P) (handled : Handled)
      → (handle_tool_calls_sequential env context raw_calls s).0.0 ≡ ok handled
      → AreAnswers (call_ids raw_calls) handled
  unfolding handle_tool_calls_sequential
  sequential-AreAnswers context [] s handled h =
      subst (AreAnswers []) {x = nothing_handled} {y = handled} (ground (arith, h)) (refl, λ q. cc)
  sequential-AreAnswers context (raw_call ∷ rest) s handled h =
      let run = sequential_call env context raw_call s in
      resume-ok (AreAnswers (call_ids (raw_call ∷ rest))) run.0.0
        (λ first. handle_tool_calls_sequential env context rest >>= λ others.
          return (handled_first first others))
        run.0.1 run.1
        (λ first q.
          let more = handle_tool_calls_sequential env context rest run.0.1 in
          resume-ok (AreAnswers (call_ids (raw_call ∷ rest))) more.0.0
            (λ others. return (handled_first first others)) more.0.1 more.1
            (λ others r last q'.
              subst (AreAnswers (call_ids (raw_call ∷ rest))) {x = handled_first first others}
                {y = last} (ground (arith, q'))
                (handled_first-AreAnswers (call_id_of env.texts raw_call) (call_ids rest) first
                  others (sequential_call-IsAnswer context raw_call s first q)
                  (sequential-AreAnswers context rest run.0.1 others r))))
        handled h
