-- ===== src/Agents/Loop/Rounds.antt =====
-- localagentcli/agents/loop.py: how often the handling of calls asks the model, for the guardian's
-- reviews, and that it never looks whether a stop was requested.
use local_agent_cli.Base.{
  Bool, Bool-cases, Eq, List, Option, [], arith, false, inl, inr, length, list_eq, nat_eq, none,
  some, string_eq, true, ℕ, ◌+◌, ◌∷◌, ◌≡◌, ◌≤◌,
}
use local_agent_cli.Base.Text.{Text}
use local_agent_cli.Base.Result.{Result, err, ok}
use local_agent_cli.Base.Gen.{Gen, resume, return, returned, ◌>>=◌}
use local_agent_cli.Base.Json.{Fields}
use local_agent_cli.Platform.{Platform}
use local_agent_cli.Tools.Base.{Tool, ToolResult}
use local_agent_cli.Tools.Registry.{Registered}
use local_agent_cli.Guardian.{GuardianReviewResult, later}
use local_agent_cli.Safety.Layer.{ApprovalResult}
use local_agent_cli.Agents.Recovery.{context}
use local_agent_cli.Agents.Loop.Base.{
  Core, Env, GuardianContext, Implementation, NormalizedCall, normalize_tool_call, tool_of,
}
use local_agent_cli.Agents.Loop.Calls.{ask, consent, decide, execute, is_blocked, review}
use local_agent_cli.Agents.Loop.Sequential.{
  async_finish, handle_tool_calls_sequential, handled_first, run_if, sequential_answer,
  sequential_call, sequential_decided, sequential_finish,
}
use local_agent_cli.Agents.Loop.Batch.{prepare_call}

-- A run that starts well goes well if what follows its first part does.
pub resume-all :
    {S E A B : Type 0} (Q : S → Type 0) (r : Result A) (next : A → Gen S E B) (s : S)
    (events : List E)
    → Q s
    → ((a : A) → Q (next a s).0.1)
    → Q (resume r next s events).0.1
resume-all Q (ok a) next s events k h = h a
resume-all Q (err raised) next s events k h = k

module _ {P : Platform} ⦃e : Eq P.FilePath⦄ (env : Env P) (looks least : ℕ) where
  -- A stop was looked for so often, and the model asked at least and at most so often.
  pub record Asked (most : ℕ) (s : Core P) : Type 0 where
    pub looked : s.checks ≡ looks
    pub enough : least ≤ s.generations
    pub bounded : s.generations ≤ most

  pub Asked-more : (most later : ℕ) (s : Core P) → Asked most s → most ≤ later → Asked later s
  Asked-more most later s h le = record {
    looked = h.looked;
    enough = h.enough;
    bounded = omega (arith, h.bounded, le);
  }

  pub execute-Asked :
      {most : ℕ} (entry : Registered (Implementation P)) (arguments : Fields) (s : Core P)
      → Asked most s
      → Asked most (execute env entry arguments s).0.1
  unfolding execute
  execute-Asked entry arguments s h = record {
    looked = h.looked;
    enough = h.enough;
    bounded = h.bounded;
  }

  -- The guardian's review asks the model once.
  consent-Asked :
      {most : ℕ} (context : Option GuardianContext) (tool : Tool) (arguments : Fields)
      (decision : ApprovalResult) (s : Core P)
      → Asked most s
      → Asked (most + 1) (consent env context tool arguments decision s).0.1
  unfolding consent review ask
  consent-Asked context tool arguments decision s h = record {
    looked = ground (arith, h.looked);
    enough = ground (arith, h.enough);
    bounded = ground (arith, h.bounded);
  }

  sequential_finish-Asked :
      {most : ℕ} (call : NormalizedCall) (result : ToolResult) (s : Core P)
      → Asked most s
      → Asked most (sequential_finish env call result s).0.1
  unfolding sequential_finish
  sequential_finish-Asked call result s h = record {
    looked = ground (arith, h.looked);
    enough = ground (arith, h.enough);
    bounded = ground (arith, h.bounded);
  }

  pub async_finish-Asked :
      {most : ℕ} (call : NormalizedCall) (tool : Tool) (result : ToolResult) (s : Core P)
      → Asked most s
      → Asked most (async_finish env call tool result s).0.1
  unfolding async_finish
  async_finish-Asked call tool result s h = record {
    looked = ground (arith, h.looked);
    enough = ground (arith, h.enough);
    bounded = ground (arith, h.bounded);
  }

  run_if-Asked :
      {most : ℕ} (call : NormalizedCall) (entry : Registered (Implementation P)) (answer : Bool)
      (verdict : Option GuardianReviewResult) (s : Core P)
      → Asked most s
      → Asked most (run_if env call entry (answer, verdict) s).0.1
  run_if-Asked call entry true verdict s h = execute-Asked entry call.arguments s h
  run_if-Asked call entry false verdict s h = h

  decided-Asked :
      {most : ℕ} (context : Option GuardianContext) (call : NormalizedCall)
      (entry : Registered (Implementation P)) (decision : ApprovalResult) (s : Core P)
      → Asked most s
      → Asked (most + 1) (sequential_decided env context call entry decision s).0.1
  decided-Asked {most} context call entry decision s h =
      elim (Bool-cases (is_blocked decision.status)) [
        | inl b ↦ rw b (Asked-more most (most + 1) s h (omega arith))
        | inr b ↦ rw b (
            let asked = consent env context entry.tool call.arguments decision s in
            let run =
              (consent env context entry.tool call.arguments decision >>= run_if env call entry)
                s in
            let agreed = consent-Asked context entry.tool call.arguments decision s h in
            let k =
              resume-all (Asked (most + 1)) asked.0.0 (run_if env call entry) asked.0.1 asked.1
                agreed (λ verdict. run_if-Asked call entry verdict.0 verdict.1 asked.0.1 agreed) in
            resume-all (Asked (most + 1)) run.0.0 (sequential_finish env call) run.0.1 run.1 k
              (λ result. sequential_finish-Asked call result run.0.1 k))
      ]

  answer-Asked :
      {most : ℕ} (context : Option GuardianContext) (call : NormalizedCall)
      (entry : Option (Registered (Implementation P))) (parse_error : Option Text) (s : Core P)
      → Asked most s
      → Asked (most + 1) (sequential_answer env context call entry parse_error s).0.1
  unfolding decide
  answer-Asked {most} context call none parse_error s h =
      sequential_finish-Asked call _ s (Asked-more most (most + 1) s h (omega arith))
  answer-Asked {most} context call (some entry) (some parse_error) s h =
      sequential_finish-Asked call _ s (Asked-more most (most + 1) s h (omega arith))
  answer-Asked {most} context call (some entry) none s h =
      let run = decide env entry.tool call.arguments s in
      resume-all (Asked (most + 1)) run.0.0 (sequential_decided env context call entry) run.0.1
        run.1 (Asked-more most (most + 1) s h (omega arith))
        (λ decision. decided-Asked context call entry decision s h)

  sequential_call-Asked :
      {most : ℕ} (context : Option GuardianContext) (raw_call : Fields) (s : Core P)
      → Asked most s
      → Asked (most + 1) (sequential_call env context raw_call s).0.1
  unfolding sequential_call
  sequential_call-Asked {most} context raw_call s h =
      let more = Asked-more most (most + 1) s h (omega arith) in
      resume-all (Asked (most + 1)) (normalize_tool_call env.texts raw_call)
        (λ call. returned (tool_of call.tool_name env.tools) >>= λ entry.
          sequential_answer env context call entry call.parse_error)
        s [] more
        (λ call.
          resume-all (Asked (most + 1)) (tool_of call.tool_name env.tools)
            (λ entry. sequential_answer env context call entry call.parse_error) s [] more
            (λ entry. answer-Asked context call entry call.parse_error s h))

  pub sequential-Asked :
      (context : Option GuardianContext) (raw_calls : List Fields) {most : ℕ} (s : Core P)
      → Asked most s
      → Asked (most + length raw_calls) (handle_tool_calls_sequential env context raw_calls s).0.1
  unfolding handle_tool_calls_sequential
  sequential-Asked context [] {most} s h = Asked-more most (most + 0) s h (omega arith)
  sequential-Asked context (raw_call ∷ rest) {most} s h =
      let all = most + length (raw_call ∷ rest) in
      let run = sequential_call env context raw_call s in
      let k = sequential_call-Asked context raw_call s h in
      let more = handle_tool_calls_sequential env context rest run.0.1 in
      let l =
        Asked-more (most + 1 + length rest) all more.0.1 (sequential-Asked context rest run.0.1 k)
          (omega arith) in
      resume-all (Asked all) run.0.0
        (λ first. handle_tool_calls_sequential env context rest >>= λ others.
          return (handled_first first others))
        run.0.1 run.1 (Asked-more (most + 1) all run.0.1 k (omega arith))
        (λ first.
          resume-all (Asked all) more.0.0 (λ others. return (handled_first first others)) more.0.1
            more.1 l (λ others. l))

pub prepare_call-state :
    {P : Platform} ⦃e : Eq P.FilePath⦄ (env : Env P) (raw_call : Fields) (s : Core P)
    → (prepare_call env raw_call s).0.1 ≡ s
unfolding prepare_call decide
prepare_call-state env raw_call s = ground arith
