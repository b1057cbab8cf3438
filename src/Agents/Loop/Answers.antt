-- ===== src/Agents/Loop/Answers.antt =====
-- localagentcli/agents/loop.py: what the calls of an answer add to the conversation, in a batch too.
use local_agent_cli.Base.{
  Bool-cases, Eq, List, Option, [], arith, if◌then◌else◌, inl, inr, list_eq, map, nat_eq, none,
  refl, some, string_eq, subst, sym, true, ◌∙◌, ◌∷◌, ◌≡◌,
}
use local_agent_cli.Base.Text.{Text}
use local_agent_cli.Base.Result.{Result-cases, ok}
use local_agent_cli.Base.Gen.{return, returned, ◌>>=◌}
use local_agent_cli.Base.Json.{Fields, str}
use local_agent_cli.Platform.{Platform}
use local_agent_cli.Tools.Base.{ToolResult}
use local_agent_cli.Tools.Registry.{Registered}
use local_agent_cli.Agents.Recovery.{context}
use local_agent_cli.Agents.Loop.Base.{
  Core, Env, GuardianContext, Implementation, NormalizedCall, call_id_of, normalize_tool_call,
  tool_of,
}
use local_agent_cli.Agents.Loop.Calls.{decide, execute, is_approved}
use local_agent_cli.Agents.Loop.Sequential.{
  Handled, async_finish, handle_tool_calls_sequential, handled_first, nothing_handled,
}
use local_agent_cli.Agents.Loop.Batch.{
  Prepared, all_results, execute_all, execute_batch, finish_batch, handle_tool_calls,
  handle_tool_calls_parallel_read_only, parallel_read_only_batch_eligible, prepare_call,
  prepare_calls, prepare_decided, prepare_entry,
}
use local_agent_cli.Agents.Loop.Messages.{
  AreAnswers, answers_to, async_finish-IsAnswer, call_ids, handled_first-AreAnswers, has_failure,
  normalize_tool_call-call_id, resume-ok, sequential-AreAnswers,
}

module _ {P : Platform} ⦃e : Eq P.FilePath⦄ (env : Env P) where
  -- The batch: the calls that are prepared, run and reported are those of the answer.
  abbrev prepared_ids : List (Prepared env) → List Text
  prepared_ids prepared = map (λ p. p.call.call_id) prepared

  prepare_entry-call :
      (call : NormalizedCall) (entry : Option (Registered (Implementation P)))
      (parse_error : Option Text) (s : Core P) (p : Prepared env)
      → (prepare_entry env call entry parse_error s).0.0 ≡ ok p
      → p.call.call_id ≡ call.call_id
  prepare_entry-call call none parse_error s p h = cc
  prepare_entry-call call (some entry) (some parse_error) s p h = cc
  prepare_entry-call call (some entry) none s p h =
      let run = decide env entry.tool call.arguments s in
      resume-ok (λ q. q.call.call_id ≡ call.call_id) run.0.0 (prepare_decided env call entry)
        run.0.1 run.1
        (λ decision _ q k. elim (Bool-cases (is_approved decision.status)) [
          | inl granted ↦ ground (arith, granted, k)
          | inr refused ↦ absurd (ground (arith, refused, k))
        ])
        p h

  prepare_call-call :
      (raw_call : Fields) (s : Core P) (p : Prepared env)
      → (prepare_call env raw_call s).0.0 ≡ ok p
      → p.call.call_id ≡ call_id_of env.texts raw_call
  unfolding prepare_call
  prepare_call-call raw_call s =
      resume-ok (λ p. p.call.call_id ≡ call_id_of env.texts raw_call)
        (normalize_tool_call env.texts raw_call)
        (λ call. returned (tool_of call.tool_name env.tools) >>= λ entry.
          prepare_entry env call entry call.parse_error)
        s []
        (λ call h. rw (sym (normalize_tool_call-call_id env raw_call call h)) (
          resume-ok (λ p. p.call.call_id ≡ call.call_id) (tool_of call.tool_name env.tools)
            (λ entry. prepare_entry env call entry call.parse_error) s []
            (λ entry _. prepare_entry-call call entry call.parse_error s)))

  prepare_calls-ids :
      (raw_calls : List Fields) (s : Core P) (prepared : List (Prepared env))
      → (prepare_calls env raw_calls s).0.0 ≡ ok prepared
      → prepared_ids prepared ≡ call_ids env raw_calls
  unfolding prepare_calls
  prepare_calls-ids [] s prepared h = ground (arith, h)
  prepare_calls-ids (raw_call ∷ rest) s prepared h =
      let run = prepare_call env raw_call s in
      resume-ok (λ ps. prepared_ids ps ≡ call_ids env (raw_call ∷ rest)) run.0.0
        (λ first. prepare_calls env rest >>= λ others. return (first ∷ others)) run.0.1 run.1
        (λ first q.
          let more = prepare_calls env rest run.0.1 in
          resume-ok (λ ps. prepared_ids ps ≡ call_ids env (raw_call ∷ rest)) more.0.0
            (λ others. return (first ∷ others)) more.0.1 more.1
            (λ others r ps k. ground (
              arith,
              k,
              prepare_call-call raw_call s first q,
              prepare_calls-ids rest run.0.1 others r,
            )))
        prepared h

  abbrev result_ids : List (Prepared env × ToolResult) → List Text
  result_ids results = map (λ r. r.0.call.call_id) results

  execute_all-ids :
      (prepared : List (Prepared env)) (s : Core P) (results : List (Prepared env × ToolResult))
      → all_results env (execute_all env prepared s).0 ≡ ok results
      → result_ids results ≡ prepared_ids prepared
  unfolding execute_all all_results
  execute_all-ids [] s results h = ground (arith, h)
  execute_all-ids (p ∷ rest) s results h =
      let run = execute env p.entry p.call.arguments s in
      elim (Result-cases run.0.0) [
        | inr (raised, q) ↦ absurd (ground (arith, h, q))
        | inl (result, q) ↦ elim (Result-cases (all_results env (execute_all env rest run.0.1).0)) [
          | inr (raised, r) ↦ absurd (ground (arith, h, q, r))
          | inl (others, r) ↦ ground (arith, h, q, r, execute_all-ids rest run.0.1 others r)
        ]
      ]

  finish_batch-AreAnswers :
      (results : List (Prepared env × ToolResult)) (s : Core P) (handled : Handled)
      → (finish_batch env results s).0.0 ≡ ok handled
      → AreAnswers (result_ids results) handled
  unfolding finish_batch
  finish_batch-AreAnswers [] s handled h =
      subst (AreAnswers []) {x = nothing_handled} {y = handled} (ground (arith, h)) (refl, λ q. cc)
  finish_batch-AreAnswers ((p, result) ∷ rest) s handled h =
      let run = async_finish env p.call p.entry.tool result s in
      resume-ok (AreAnswers (result_ids ((p, result) ∷ rest))) run.0.0
        (λ first. finish_batch env rest >>= λ others. return (handled_first first others)) run.0.1
        run.1
        (λ first q.
          let more = finish_batch env rest run.0.1 in
          resume-ok (AreAnswers (result_ids ((p, result) ∷ rest))) more.0.0
            (λ others. return (handled_first first others)) more.0.1 more.1
            (λ others r last k.
              subst (AreAnswers (result_ids ((p, result) ∷ rest))) {x = handled_first first others}
                {y = last} (ground (arith, k))
                (handled_first-AreAnswers p.call.call_id (result_ids rest) first others
                  (async_finish-IsAnswer env p.call p.entry.tool result s first q)
                  (finish_batch-AreAnswers rest run.0.1 others r))))
        handled h

  parallel-AreAnswers :
      (raw_calls : List Fields) (s : Core P) (handled : Handled)
      → (handle_tool_calls_parallel_read_only env raw_calls s).0.0 ≡ ok handled
      → AreAnswers (call_ids env raw_calls) handled
  unfolding handle_tool_calls_parallel_read_only execute_batch
  parallel-AreAnswers raw_calls s =
      let run = prepare_calls env raw_calls s in
      resume-ok (AreAnswers (call_ids env raw_calls)) run.0.0
        (λ prepared. execute_batch env prepared >>= finish_batch env) run.0.1 run.1
        (λ prepared q.
          let ran = execute_batch env prepared run.0.1 in
          resume-ok (AreAnswers (call_ids env raw_calls)) ran.0.0 (finish_batch env) ran.0.1 ran.1
            (λ results r last k.
              subst (λ ids. AreAnswers ids last) {y = call_ids env raw_calls}
                (execute_all-ids prepared run.0.1 results r
                  ∙ prepare_calls-ids raw_calls s prepared q)
                (finish_batch-AreAnswers results ran.0.1 last k)))

  -- The calls of an answer that are handled without a raise, in a batch or one by one, add exactly one
  -- message for each call, in their order and with the call's own id, and a failure is reported
  -- wherever there was an error.
  pub handle_tool_calls-AreAnswers :
      (context : Option GuardianContext) (raw_calls : List Fields) (s : Core P) (handled : Handled)
      → (handle_tool_calls env context raw_calls s).0.0 ≡ ok handled
      → (map answers_to handled.messages ≡ map (λ t. some (str t)) (call_ids env raw_calls))
        × (handled.had_error ≡ true → has_failure handled.failure ≡ true)
  unfolding handle_tool_calls
  handle_tool_calls-AreAnswers context raw_calls s =
      let batch = parallel_read_only_batch_eligible env s.safety.world.disk raw_calls in
      resume-ok (AreAnswers (call_ids env raw_calls)) batch
        (λ together.
          if together
          then handle_tool_calls_parallel_read_only env raw_calls
          else handle_tool_calls_sequential env context raw_calls)
        s []
        (λ together _ last k. elim (Bool-cases together) [
          | inl both ↦ parallel-AreAnswers raw_calls s last (ground (arith, k, both))
          | inr single ↦
              sequential-AreAnswers env context raw_calls s last (ground (arith, k, single))
        ])
