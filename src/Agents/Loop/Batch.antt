-- ===== src/Agents/Loop/Batch.antt =====
-- localagentcli/agents/loop.py: a batch of read-only calls that need no approval, which are run
-- together, and the choice between a batch and the calls one by one. The threads of a batch are taken
-- to run in the order of the calls.
use local_agent_cli.Base.{
  Bool, Eq, List, Option, [], false, if◌then◌else◌, length, list_eq, ltb, nat_eq, none, some,
  string_eq, true, ◌∷◌,
}
use local_agent_cli.Base.Text.{Text, codes}
use local_agent_cli.Base.Result.{Result, err, ok, runtime_error}
use local_agent_cli.Base.Gen.{Gen, emit, return, returned, ◌>>=◌, ◌>>◌}
use local_agent_cli.Base.Json.{Fields}
use local_agent_cli.Platform.{Platform}
use local_agent_cli.Tools.Base.{ToolResult}
use local_agent_cli.Tools.Registry.{Registered}
use local_agent_cli.Safety.Layer.{ApprovalResult, check_and_approve}
use local_agent_cli.Agents.Recovery.{context}
use local_agent_cli.Agents.Events.{AgentEvent}
use local_agent_cli.Agents.Loop.Base.{
  Core, Env, GuardianContext, Implementation, NormalizedCall, normalize_tool_call, tool_of,
}
use local_agent_cli.Agents.Loop.Calls.{decide, execute, is_approved, request_event}
use local_agent_cli.Agents.Loop.Sequential.{
  Handled, ahandle_sequential, async_finish, handle_tool_calls_sequential, handled_first,
  nothing_handled,
}

module _ {P : Platform} ⦃e : Eq P.FilePath⦄ (env : Env P) where
  abbrev pub eligible_decision : Result ApprovalResult → Result Bool → Result Bool
  eligible_decision (err raised) later = err raised
  eligible_decision (ok decision) later = if is_approved decision.status then later else ok false

  abbrev pub eligible_entry :
      P.Disk → Fields → Result (Option (Registered (Implementation P))) → Result Bool → Result Bool
  eligible_entry disk arguments (err raised) later = err raised
  eligible_entry disk arguments (ok none) later = ok false
  eligible_entry disk arguments (ok (some entry)) later =
      if entry.tool.is_read_only
      then eligible_decision
          (check_and_approve P env.py env.shell env.layer disk entry.tool arguments) later
      else ok false

  abbrev pub eligible_parsed : P.Disk → NormalizedCall → Option Text → Result Bool → Result Bool
  eligible_parsed disk call (some parse_error) later = ok false
  eligible_parsed disk call none later =
      eligible_entry disk call.arguments (tool_of call.tool_name env.tools) later

  abbrev pub eligible_call : P.Disk → Result NormalizedCall → Result Bool → Result Bool
  eligible_call disk (err raised) later = err raised
  eligible_call disk (ok call) later = eligible_parsed disk call call.parse_error later

  unfoldable pub eligible_calls : P.Disk → List Fields → Result Bool
  eligible_calls disk [] = ok true
  eligible_calls disk (raw_call ∷ rest) =
      eligible_call disk (normalize_tool_call env.texts raw_call) (eligible_calls disk rest)

  unfoldable pub parallel_read_only_batch_eligible : P.Disk → List Fields → Result Bool
  unfolding eligible_calls
  parallel_read_only_batch_eligible disk raw_calls =
      if ltb (length raw_calls) 2 then ok false else eligible_calls disk raw_calls

  pub record Prepared : Type 0 where
    pub call : NormalizedCall
    pub entry : Registered (Implementation P)

  abbrev pub violated : Gen (Core P) AgentEvent Prepared
  violated = returned (err (runtime_error (codes "parallel read-only batch invariant violated")))

  abbrev pub prepare_decided :
      NormalizedCall
      → Registered (Implementation P)
      → ApprovalResult
      → Gen (Core P) AgentEvent Prepared
  prepare_decided call entry decision =
      if is_approved decision.status
      then (emit (request_event env entry.tool call.arguments decision false)
          >> return (record { call = call; entry = entry }))
      else violated

  abbrev pub prepare_entry :
      NormalizedCall
      → Option (Registered (Implementation P))
      → Option Text
      → Gen (Core P) AgentEvent Prepared
  prepare_entry call (some entry) none =
      decide env entry.tool call.arguments >>= prepare_decided call entry
  prepare_entry call (some entry) (some parse_error) = violated
  prepare_entry call none parse_error = violated

  unfoldable pub prepare_call : Fields → Gen (Core P) AgentEvent Prepared
  prepare_call raw_call = do
    call ← returned (normalize_tool_call env.texts raw_call)
    entry ← returned (tool_of call.tool_name env.tools)
    prepare_entry call entry call.parse_error

  unfoldable pub prepare_calls : List Fields → Gen (Core P) AgentEvent (List Prepared)
  unfolding prepare_call
  prepare_calls [] = return []
  prepare_calls (raw_call ∷ rest) = do
    first ← prepare_call raw_call
    others ← prepare_calls rest
    return (first ∷ others)

  -- Every thread runs to its end, also where one raises.
  unfoldable pub execute_all : List Prepared → Core P → List (Prepared × Result ToolResult) × Core P
  execute_all [] core = ([], core)
  execute_all (p ∷ rest) core =
      let ((result, core'), events) = execute env p.entry p.call.arguments core in
      let (results, after) = execute_all rest core' in ((p, result) ∷ results, after)

  -- `[f.result() for f in futures]`
  unfoldable pub all_results :
      List (Prepared × Result ToolResult) → Result (List (Prepared × ToolResult))
  all_results [] = ok []
  all_results ((p, err raised) ∷ rest) = err raised
  all_results ((p, ok result) ∷ rest) = elim (all_results rest) [
    | err raised ↦ err raised
    | ok results ↦ ok ((p, result) ∷ results)
  ]

  unfoldable pub execute_batch :
      List Prepared → Gen (Core P) AgentEvent (List (Prepared × ToolResult))
  unfolding execute_all all_results
  execute_batch prepared core =
      let (results, after) = execute_all prepared core in ((all_results results, after), [])

  unfoldable pub finish_batch : List (Prepared × ToolResult) → Gen (Core P) AgentEvent Handled
  finish_batch [] = return nothing_handled
  finish_batch ((p, result) ∷ rest) = do
    first ← async_finish env p.call p.entry.tool result
    others ← finish_batch rest
    return (handled_first first others)

  unfoldable pub handle_tool_calls_parallel_read_only :
      List Fields → Gen (Core P) AgentEvent Handled
  unfolding prepare_calls execute_batch finish_batch
  handle_tool_calls_parallel_read_only raw_calls = do
    prepared ← prepare_calls raw_calls
    results ← execute_batch prepared
    finish_batch results

  -- `self._parallel_read_only_batch_eligible(result)`
  abbrev pub eligible : List Fields → Gen (Core P) AgentEvent Bool
  eligible raw_calls core =
      ((parallel_read_only_batch_eligible core.safety.world.disk raw_calls, core), [])

  unfoldable pub handle_tool_calls :
      Option GuardianContext → List Fields → Gen (Core P) AgentEvent Handled
  unfolding parallel_read_only_batch_eligible handle_tool_calls_parallel_read_only
  handle_tool_calls context raw_calls = eligible raw_calls >>= λ batch.
      if batch
      then handle_tool_calls_parallel_read_only raw_calls
      else handle_tool_calls_sequential env context raw_calls

  unfoldable pub ahandle_tool_calls :
      Option GuardianContext → List Fields → Gen (Core P) AgentEvent Handled
  unfolding parallel_read_only_batch_eligible handle_tool_calls_parallel_read_only
  ahandle_tool_calls context raw_calls = eligible raw_calls >>= λ batch.
      if batch
      then handle_tool_calls_parallel_read_only raw_calls
      else ahandle_sequential env context raw_calls
