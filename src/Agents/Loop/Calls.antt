-- ===== src/Agents/Loop/Calls.antt =====
-- localagentcli/agents/loop.py: the parts that the handlers of tool calls have in common.
use local_agent_cli.Base.{
  Bool, Eq, List, Option, String, [], contains, false, if◌then◌else◌, length, list_eq, nat_eq, none,
  some, string_eq, true, ℕ, ◌++◌, ◌+◌, ◌∷◌,
}
use local_agent_cli.Base.Text.{Text, codes}
use local_agent_cli.Base.Result.{ok}
use local_agent_cli.Base.Gen.{Gen, emit, performed, return, ◌>>=◌, ◌>>◌}
use local_agent_cli.Base.Json.{Fields, Items, arr, cons, end, field, nil, num, obj, str}
use local_agent_cli.Platform.{Platform}
use local_agent_cli.Models.{ModelMessage, last_items}
use local_agent_cli.Tools.Base.{Tool, ToolResult, denied, error_result}
use local_agent_cli.Tools.Registry.{Registered}
use local_agent_cli.Safety.Approval.{risk_value}
use local_agent_cli.Safety.Layer.{
  ApprovalResult, Status, approved, blocked, check_and_approve, execute_tool_safely, needs_asking,
}
use local_agent_cli.Guardian.{
  Evidence, GuardianReviewRequest, GuardianReviewResult, action_summary, review_with_guardian,
}
use local_agent_cli.Agents.Recovery.{FailureContext, context}
use local_agent_cli.Agents.Events.{
  AgentEvent, guardian_review_completed, guardian_review_started, phase, tool_call_requested,
  tool_call_result,
}
use local_agent_cli.Agents.Loop.Base.{
  Core, Env, GuardianContext, Implementation, should_route_approval_to_guardian,
}

-- What one call adds to the conversation.
pub record Answered : Type 0 where
  pub message : ModelMessage
  pub errored : Bool
  pub failure : Option FailureContext

abbrev pub text_or : Option Text → Text → Text
text_or (some []) fallback = fallback
text_or (some (c ∷ t)) fallback = c ∷ t
text_or none fallback = fallback

abbrev pub or_empty : Option Text → Text
or_empty reason = text_or reason []

-- `decision.approved`, `decision.requires_approval`
abbrev pub is_approved : Status → Bool
is_approved approved = true
is_approved _ = false

abbrev pub is_asking : Status → Bool
is_asking needs_asking = true
is_asking _ = false

abbrev pub is_blocked : Status → Bool
is_blocked blocked = true
is_blocked _ = false

abbrev pub context_request :
    Tool → Fields → ApprovalResult → Option GuardianContext → GuardianReviewRequest
context_request tool arguments decision none = record {
  tool_name = tool.name;
  arguments = arguments;
  risk_level = risk_value decision.risk_level;
  risk_reason = or_empty decision.risk_reason;
  warnings = decision.warnings;
  task = [];
  step_index = none;
  step_description = [];
  transcript_tail = [];
}
context_request tool arguments decision (some context) = record {
  tool_name = tool.name;
  arguments = arguments;
  risk_level = risk_value decision.risk_level;
  risk_reason = or_empty decision.risk_reason;
  warnings = decision.warnings;
  task = context.task;
  step_index = some context.step_index;
  step_description = context.step_description;
  transcript_tail = last_items 8 (context.transcript ++ context.conversation);
}

unfoldable pub build_guardian_request :
    Tool → Fields → ApprovalResult → Option GuardianContext → GuardianReviewRequest
build_guardian_request tool arguments decision context =
    context_request tool arguments decision context

unfoldable pub unknown_tool : Text → Option Text → ToolResult
unknown_tool name parse_error =
    error_result (codes "Unknown tool '" ++ (name ++ codes "'"))
      (text_or parse_error (codes "The requested tool is not registered.")) [] none []

unfoldable pub invalid_arguments : Text → Text → ToolResult
invalid_arguments name parse_error =
    error_result (codes "Invalid arguments for tool '" ++ (name ++ codes "'")) parse_error [] none
      []

unfoldable pub blocked_tool : String → Option Text → ToolResult
blocked_tool name reason =
    error_result (codes "Blocked tool '" ++ (codes name ++ codes "'"))
      (text_or reason (codes "The requested action violated a safety rule.")) [] none []

abbrev pub evidence_json : List Evidence → Items
evidence_json [] = nil
evidence_json (e ∷ rest) =
    cons (obj (field "fact" (str e.fact) (field "source" (str e.source) end))) (evidence_json rest)

module _ {P : Platform} ⦃e : Eq P.FilePath⦄ (env : Env P) where
  -- A denial by the reviewer, or by the user, who is shown the name that the model gave.
  unfoldable pub denied_tool : Tool → Text → Fields → Option GuardianReviewResult → ToolResult
  denied_tool tool name arguments (some review) =
      denied (codes "Guardian denied tool '" ++ (codes tool.name ++ codes "'")) (
        env.dumps (
          obj (
            field "tool_name" (str (codes tool.name)) (
              field "risk_level" (str review.risk_level) (
                field "risk_score" (num review.risk_score) (
                  field "rationale" (str review.rationale) (
                    field "evidence" (arr (evidence_json review.evidence))
                      (field "failure" (str review.failure) end))))))))
  denied_tool tool name arguments none =
      denied (codes "User denied tool '" ++ (name ++ codes "'")) (env.dumps_sorted arguments)

  -- `len(self._safety.rollback.get_history())`
  abbrev pub rollback_entries : Core P → ℕ
  rollback_entries core = length core.safety.world.entries

  abbrev pub result_event : Text → ToolResult → Gen (Core P) AgentEvent (Unit {0})
  result_event name result core =
      ((ok tt, core), tool_call_result name result (rollback_entries core) ∷ [])

  abbrev pub recovering : Text → Text → Gen (Core P) AgentEvent (Unit {0})
  recovering status name = emit (
      phase "recovering"
        (codes "Recovering after " ++ (status ++ (codes " tool result: " ++ (name ++ codes ".")))))

  -- After a call that was denied, failed or took too long.
  abbrev pub recover_from : ToolResult → Text → Gen (Core P) AgentEvent (Unit {0})
  recover_from result name =
      if contains ("denied" ∷ "error" ∷ "timeout" ∷ []) result.status
      then recovering (codes result.status) name
      else return tt

  -- `_execute_tool_safely`
  unfoldable pub execute :
      Registered (Implementation P) → Fields → Gen (Core P) AgentEvent ToolResult
  execute entry arguments = performed (λ core.
      let ran =
        execute_tool_safely P env.layer env.dumps_key (env.now core.executions) entry.tool arguments
          (entry.implementation arguments) core.safety in
      (ran.0, record core { safety = ran.1; executions = core.executions + 1 }))

  -- `self._safety.check_and_approve(tool, arguments)`
  unfoldable pub decide : Tool → Fields → Gen (Core P) AgentEvent ApprovalResult
  decide tool arguments core = (
    (check_and_approve P env.py env.shell env.layer core.safety.world.disk tool arguments, core),
    [],
  )

  abbrev pub request_event : Tool → Fields → ApprovalResult → Bool → AgentEvent
  request_event tool arguments decision asks = tool_call_requested (record {
    tool_name = codes tool.name;
    arguments = arguments;
    requires_approval = asks;
    risk_level = risk_value decision.risk_level;
    warnings = decision.warnings;
    risk_reason = decision.risk_reason;
    rollback_summary = decision.rollback_summary;
  })

  -- The model's review of the request, in the context of the step.
  unfoldable pub review :
      Option GuardianContext
      → Tool
      → Fields
      → ApprovalResult
      → Gen (Core P) AgentEvent GuardianReviewResult
  review context tool arguments decision core =
      let request = build_guardian_request tool arguments decision context in
      let result =
        review_with_guardian env.texts env.guardian_prompt env.deny_threshold
          (env.review_answer core.generations) request in
      (
        (ok result, record core { generations = core.generations + 1 }),
        guardian_review_started (codes tool.name) (action_summary request)
            ∷ guardian_review_completed (record {
              tool_name = codes tool.name;
              approved = result.approved;
              risk_level = result.risk_level;
              risk_score = result.risk_score;
              rationale = result.rationale;
              evidence = result.evidence;
              failure = result.failure;
            })
            ∷ [],
      )

  -- What the user answers to a request; no answer is a refusal.
  abbrev pub next_answer : List Bool → Bool
  next_answer [] = false
  next_answer (answer ∷ rest) = answer

  abbrev pub later_answers : List Bool → List Bool
  later_answers [] = []
  later_answers (answer ∷ rest) = rest

  unfoldable pub ask : Gen (Core P) AgentEvent Bool
  ask core =
      ((ok (next_answer core.answers), record core { answers = later_answers core.answers }), [])

  -- Whether the call may run: a request that the reviewer or the user judges, or that needs no one.
  unfoldable pub consent :
      Option GuardianContext
      → Tool
      → Fields
      → ApprovalResult
      → Gen (Core P) AgentEvent (Bool × Option GuardianReviewResult)
  unfolding review ask
  consent context tool arguments decision =
      let asks = is_asking decision.status in
      let routed = should_route_approval_to_guardian env tool.name asks in
      if routed
      then (emit (
            phase "waiting_approval"
              (codes "Guardian reviewing action: " ++ (codes tool.name ++ codes ".")))
          >> emit (request_event tool arguments decision false)
          >> (review context tool arguments decision >>= λ result.
              return (result.approved, some result)))
      else if asks
      then (emit (
            phase "waiting_approval"
              (codes "Waiting for approval: " ++ (codes tool.name ++ codes ".")))
          >> emit (request_event tool arguments decision true)
          >> (ask >>= λ answer. return (answer, none)))
      else (emit (request_event tool arguments decision false) >> return (true, none))
