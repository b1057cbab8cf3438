-- ===== src/Agents/Loop/Mirror.antt =====
-- localagentcli/agents/loop.py: the asynchronous handling of calls does what the blocking one does.
use local_agent_cli.Base.{
  Bool-cases, Eq, List, Option, [], ap, arith, false, inl, inr, list_eq, literals_differ, nat_eq,
  none, refl, some, string_eq, sym, ◌==◌, ◌∙◌, ◌∷◌, ◌≡◌,
}
use local_agent_cli.Base.Text.{Text, codes}
use local_agent_cli.Base.Result.{Result, err, ok}
use local_agent_cli.Base.Exec.{continue}
use local_agent_cli.Base.Gen.{Gen, quiet, quiet-resume, resume, returned, ◌>>=◌}
use local_agent_cli.Base.Json.{Fields, str}
use local_agent_cli.Platform.{Platform}
use local_agent_cli.Tools.Base.{Tool, ToolResult, error_result}
use local_agent_cli.Tools.Registry.{Registered}
use local_agent_cli.Tools.Registry.Laws.{Routed}
use local_agent_cli.Safety.Layer.{ApprovalResult}
use local_agent_cli.Agents.Loop.Base.{
  Core, Env, GuardianContext, Implementation, NormalizedCall, name_or_unknown, normalize_tool_call,
  tool_of,
}
use local_agent_cli.Agents.Loop.Names.{tool_of-name}
use local_agent_cli.Agents.Loop.Calls.{consent, decide, invalid_arguments, is_blocked, unknown_tool}
use local_agent_cli.Agents.Loop.Sequential.{
  ahandle_sequential, async_answer, async_call, async_decided, async_finish, async_invalid,
  handle_tool_calls_sequential, run_if, sequential_answer, sequential_call, sequential_decided,
  sequential_finish, shown,
}
use local_agent_cli.Agents.Loop.Batch.{ahandle_tool_calls, handle_tool_calls}

-- Two continuations that do the same after a run do the same with the run before them.
pub resume-eq :
    {S E A B : Type 0} (r : Result A) (f g : A → Gen S E B) (s : S) (events : List E)
    → ((a : A) → r ≡ ok a → quiet (f a) s ≡ quiet (g a) s)
    → (resume r f s events).0 ≡ (resume r g s events).0
resume-eq (ok a) f g s events h = h a refl
resume-eq (err raised) f g s events h = refl

-- So do two runs that do the same before them.
pub runs-eq :
    {S E A B : Type 0} (x y : (Result A × S) × List E) (f g : A → Gen S E B)
    → x.0 ≡ y.0
    → ((a : A) → x.0.0 ≡ ok a → quiet (f a) x.0.1 ≡ quiet (g a) x.0.1)
    → (resume x.0.0 f x.0.1 x.1).0 ≡ (resume y.0.0 g y.0.1 y.1).0
runs-eq x y f g p h =
    resume-eq x.0.0 f g x.0.1 x.1 h
    ∙ quiet-resume x.0.0 g x.0.1 x.1
    ∙ ap (λ z. continue z.0 (λ a. quiet (g a)) z.1) p
    ∙ sym (quiet-resume y.0.0 g y.0.1 y.1)

module _ {P : Platform} ⦃e : Eq P.FilePath⦄ (env : Env P) where
  finish-eq :
      (call : NormalizedCall) (tool : Tool) (result : ToolResult) (s : Core P)
      → str (codes tool.name) ≡ name_or_unknown call.tool_name
      → quiet (sequential_finish env call result) s ≡ quiet (async_finish env call tool result) s
  unfolding sequential_finish async_finish
  finish-eq call tool result s h = rw h (ground arith)

  invalid-eq :
      (call : NormalizedCall) (result : ToolResult) (s : Core P)
      → (result.status == "success") ≡ false
      → quiet (sequential_finish env call result) s ≡ quiet (async_invalid env call result) s
  unfolding sequential_finish async_invalid
  invalid-eq call result s h = ground (arith, h)

  decided-eq :
      (context : Option GuardianContext) (call : NormalizedCall)
      (entry : Registered (Implementation P)) (decision : ApprovalResult) (s : Core P)
      → str (codes entry.tool.name) ≡ name_or_unknown call.tool_name
      → quiet (sequential_decided env context call entry decision) s
        ≡ quiet (async_decided env context call entry decision) s
  decided-eq context call entry decision s h = elim (Bool-cases (is_blocked decision.status)) [
    | inl b ↦ rw b refl
    | inr b ↦ rw b (
        let run =
          (consent env context entry.tool call.arguments decision >>= run_if env call entry) in
        resume-eq (run s).0.0 (sequential_finish env call) (async_finish env call entry.tool)
          (run s).0.1 (run s).1 (λ result _. finish-eq call entry.tool result (run s).0.1 h))
  ]

  answer-eq :
      (context : Option GuardianContext) (call : NormalizedCall)
      (entry : Option (Registered (Implementation P))) (parse_error : Option Text) (s : Core P)
      → Routed env.tools
      → tool_of call.tool_name env.tools ≡ ok entry
      → quiet (sequential_answer env context call entry parse_error) s
        ≡ quiet (async_answer env context call entry parse_error) s
  unfolding unknown_tool invalid_arguments error_result
  answer-eq context call none parse_error s routed h =
      invalid-eq call (unknown_tool (shown env call.tool_name) parse_error) s
        (ground (arith, literals_differ "error" "success" refl))
  answer-eq context call (some entry) (some parse_error) s routed h =
      invalid-eq call (invalid_arguments (env.texts.str_of call.tool_name) parse_error) s
        (ground (arith, literals_differ "error" "success" refl))
  answer-eq context call (some entry) none s routed h =
      let run = decide env entry.tool call.arguments in
      resume-eq (run s).0.0 (sequential_decided env context call entry)
        (async_decided env context call entry) (run s).0.1 (run s).1
        (λ decision _.
          decided-eq context call entry decision (run s).0.1
            (tool_of-name env.tools call.tool_name entry routed h))

  sequential_call-eq :
      (context : Option GuardianContext) (raw_call : Fields) (s : Core P)
      → Routed env.tools
      → quiet (sequential_call env context raw_call) s ≡ quiet (async_call env context raw_call) s
  unfolding sequential_call async_call
  sequential_call-eq context raw_call s routed =
      resume-eq (normalize_tool_call env.texts raw_call)
        (λ call. returned (tool_of call.tool_name env.tools) >>= λ entry.
          sequential_answer env context call entry call.parse_error)
        (λ call. returned (tool_of call.tool_name env.tools) >>= λ entry.
          async_answer env context call entry call.parse_error)
        s []
        (λ call _.
          resume-eq (tool_of call.tool_name env.tools)
            (λ entry. sequential_answer env context call entry call.parse_error)
            (λ entry. async_answer env context call entry call.parse_error) s []
            (λ entry found. answer-eq context call entry call.parse_error s routed found))

  handle_sequential-eq :
      (context : Option GuardianContext) (raw_calls : List Fields) (s : Core P)
      → Routed env.tools
      → quiet (handle_tool_calls_sequential env context raw_calls) s
        ≡ quiet (ahandle_sequential env context raw_calls) s
  unfolding handle_tool_calls_sequential ahandle_sequential
  handle_sequential-eq context [] s routed = refl
  handle_sequential-eq context (raw_call ∷ rest) s routed =
      let one = sequential_call env context raw_call in
      let other = async_call env context raw_call in
      ground (
        arith,
        sequential_call-eq context raw_call s routed,
        handle_sequential-eq context rest (one s).0.1 routed,
      )

  -- In a router made by registrations: the asynchronous handling of an answer's calls returns or raises
  -- what the blocking one does, and leaves the same state.
  pub handle_tool_calls-ahandle_tool_calls :
      (context : Option GuardianContext) (raw_calls : List Fields) (s : Core P)
      → Routed env.tools
      → quiet (handle_tool_calls env context raw_calls) s
        ≡ quiet (ahandle_tool_calls env context raw_calls) s
  unfolding handle_tool_calls ahandle_tool_calls
  handle_tool_calls-ahandle_tool_calls context raw_calls s routed =
      ground (arith, handle_sequential-eq context raw_calls s routed)
