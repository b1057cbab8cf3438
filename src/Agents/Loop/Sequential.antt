-- ===== src/Agents/Loop/Sequential.antt =====
-- localagentcli/agents/loop.py: the calls of one answer, one after the other, in the blocking loop and
-- in the asynchronous one.
use local_agent_cli.Base.{
  Bool, Eq, List, Option, [], false, if◌then◌else◌, list_eq, nat_eq, none, not, some, string_eq,
  true, ◌++◌, ◌==◌, ◌||◌, ◌∷◌,
}
use local_agent_cli.Base.Text.{Text, codes}
use local_agent_cli.Base.Gen.{Gen, emit, return, returned, ◌>>=◌, ◌>>◌}
use local_agent_cli.Base.Json.{Fields, Json, str}
use local_agent_cli.Platform.{Platform}
use local_agent_cli.Models.{ModelMessage}
use local_agent_cli.Tools.Base.{Tool, ToolResult}
use local_agent_cli.Tools.Registry.{Registered}
use local_agent_cli.Safety.Layer.{ApprovalResult}
use local_agent_cli.Guardian.{GuardianReviewResult, later}
use local_agent_cli.Agents.Recovery.{FailureContext, classify_tool_failure, context}
use local_agent_cli.Agents.Events.{AgentEvent, phase}
use local_agent_cli.Agents.Loop.Base.{
  Core, Env, GuardianContext, Implementation, NormalizedCall, name_or_unknown, normalize_tool_call,
  tool_message, tool_of,
}
use local_agent_cli.Agents.Loop.Calls.{
  Answered, blocked_tool, consent, decide, denied_tool, execute, invalid_arguments, is_blocked,
  recover_from, result_event, review, unknown_tool,
}

-- What a list of calls adds to the conversation.
pub record Handled : Type 0 where
  pub messages : List ModelMessage
  pub had_error : Bool
  pub failure : Option FailureContext

abbrev pub first_failure : Option FailureContext → Option FailureContext → Option FailureContext
first_failure (some failure) later = some failure
first_failure none later = later

-- The first call's failure counts.
abbrev pub handled_first : Answered → Handled → Handled
handled_first answered rest = record {
  messages = answered.message ∷ rest.messages;
  had_error = answered.errored || rest.had_error;
  failure = first_failure answered.failure rest.failure;
}

abbrev pub nothing_handled : Handled
nothing_handled = record { messages = []; had_error = false; failure = none }

module _ {P : Platform} ⦃e : Eq P.FilePath⦄ (env : Env P) where
  abbrev pub shown : Json → Text
  shown name = env.texts.str_of (name_or_unknown name)

  abbrev pub answered : NormalizedCall → Json → ToolResult → Bool → Answered
  answered call name result errored = record {
    message = tool_message env call.call_id name result;
    errored = errored;
    failure = classify_tool_failure env.texts.lower result;
  }

  -- The end of the loop's body: the call is reported by the name that the model gave.
  unfoldable pub sequential_finish : NormalizedCall → ToolResult → Gen (Core P) AgentEvent Answered
  sequential_finish call result =
      result_event env (shown call.tool_name) result
      >> recover_from env result (shown call.tool_name)
      >> return
          (answered call (name_or_unknown call.tool_name) result (not (result.status == "success")))

  abbrev pub blocked_answer : NormalizedCall → Tool → Option Text → Gen (Core P) AgentEvent Answered
  blocked_answer call tool reason =
      let result = blocked_tool tool.name reason in
      result_event env (codes tool.name) result
      >> emit (
          phase "recovering"
            (codes "Recovering after blocked tool call: " ++ (codes tool.name ++ codes ".")))
      >> return (answered call (str (codes tool.name)) result false)

  -- The tool runs if the call was let through.
  abbrev pub run_if :
      NormalizedCall
      → Registered (Implementation P)
      → Bool × Option GuardianReviewResult
      → Gen (Core P) AgentEvent ToolResult
  run_if call entry (true, review) = execute env entry call.arguments
  run_if call entry (false, review) =
      return (denied_tool env entry.tool (env.texts.str_of call.tool_name) call.arguments review)

  abbrev pub sequential_decided :
      Option GuardianContext
      → NormalizedCall
      → Registered (Implementation P)
      → ApprovalResult
      → Gen (Core P) AgentEvent Answered
  sequential_decided context call entry decision =
      if is_blocked decision.status
      then blocked_answer call entry.tool decision.reason
      else ((consent env context entry.tool call.arguments decision >>= run_if call entry)
          >>= sequential_finish call)

  abbrev pub sequential_answer :
      Option GuardianContext
      → NormalizedCall
      → Option (Registered (Implementation P))
      → Option Text
      → Gen (Core P) AgentEvent Answered
  sequential_answer context call none parse_error =
      sequential_finish call (unknown_tool (shown call.tool_name) parse_error)
  sequential_answer context call (some entry) (some parse_error) =
      sequential_finish call (invalid_arguments (env.texts.str_of call.tool_name) parse_error)
  sequential_answer context call (some entry) none =
      decide env entry.tool call.arguments >>= sequential_decided context call entry

  -- The loop's body.
  unfoldable pub sequential_call :
      Option GuardianContext → Fields → Gen (Core P) AgentEvent Answered
  unfolding sequential_finish
  sequential_call context raw_call = do
    call ← returned (normalize_tool_call env.texts raw_call)
    entry ← returned (tool_of call.tool_name env.tools)
    sequential_answer context call entry call.parse_error

  unfoldable pub handle_tool_calls_sequential :
      Option GuardianContext → List Fields → Gen (Core P) AgentEvent Handled
  unfolding sequential_call
  handle_tool_calls_sequential context [] = return nothing_handled
  handle_tool_calls_sequential context (raw_call ∷ rest) = do
    first ← sequential_call context raw_call
    others ← handle_tool_calls_sequential context rest
    return (handled_first first others)

  -- The asynchronous loop: a call that cannot be made is reported without a word of recovery.
  unfoldable pub async_invalid : NormalizedCall → ToolResult → Gen (Core P) AgentEvent Answered
  async_invalid call result =
      result_event env (shown call.tool_name) result
      >> return (answered call (name_or_unknown call.tool_name) result true)

  -- A call that was made or denied is reported by the tool's own name.
  unfoldable pub async_finish :
      NormalizedCall → Tool → ToolResult → Gen (Core P) AgentEvent Answered
  async_finish call tool result =
      result_event env (codes tool.name) result
      >> recover_from env result (codes tool.name)
      >> return (answered call (str (codes tool.name)) result (not (result.status == "success")))

  abbrev pub async_decided :
      Option GuardianContext
      → NormalizedCall
      → Registered (Implementation P)
      → ApprovalResult
      → Gen (Core P) AgentEvent Answered
  async_decided context call entry decision =
      if is_blocked decision.status
      then blocked_answer call entry.tool decision.reason
      else ((consent env context entry.tool call.arguments decision >>= run_if call entry)
          >>= async_finish call entry.tool)

  abbrev pub async_answer :
      Option GuardianContext
      → NormalizedCall
      → Option (Registered (Implementation P))
      → Option Text
      → Gen (Core P) AgentEvent Answered
  async_answer context call none parse_error =
      async_invalid call (unknown_tool (shown call.tool_name) parse_error)
  async_answer context call (some entry) (some parse_error) =
      async_invalid call (invalid_arguments (env.texts.str_of call.tool_name) parse_error)
  async_answer context call (some entry) none =
      decide env entry.tool call.arguments >>= async_decided context call entry

  unfoldable pub async_call : Option GuardianContext → Fields → Gen (Core P) AgentEvent Answered
  unfolding async_finish async_invalid
  async_call context raw_call = do
    call ← returned (normalize_tool_call env.texts raw_call)
    entry ← returned (tool_of call.tool_name env.tools)
    async_answer context call entry call.parse_error

  unfoldable pub ahandle_sequential :
      Option GuardianContext → List Fields → Gen (Core P) AgentEvent Handled
  unfolding async_call
  ahandle_sequential context [] = return nothing_handled
  ahandle_sequential context (raw_call ∷ rest) = do
    first ← async_call context raw_call
    others ← ahandle_sequential context rest
    return (handled_first first others)
