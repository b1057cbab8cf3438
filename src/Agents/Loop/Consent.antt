-- ===== src/Agents/Loop/Consent.antt =====
-- localagentcli/agents/loop.py: when a call may change anything.
use local_agent_cli.Base.{
  Bool, Bool-cases, Eq, List, Option, [], arith, false, inl, inr, list_eq, nat_eq, none, refl, some,
  string_eq, sym, true, ◌≡◌, ◌⊎◌,
}
use local_agent_cli.Base.Text.{Text}
use local_agent_cli.Base.Result.{Result, err, ok}
use local_agent_cli.Base.Gen.{Gen, resume, returned, ◌>>=◌}
use local_agent_cli.Base.Json.{Fields}
use local_agent_cli.Platform.{Platform}
use local_agent_cli.Tools.Base.{Tool, ToolResult}
use local_agent_cli.Tools.Registry.{Registered}
use local_agent_cli.Safety.Layer.{ApprovalResult, check_and_approve}
use local_agent_cli.Guardian.{GuardianReviewResult, review_with_guardian}
use local_agent_cli.Agents.Loop.Base.{
  Core, Env, GuardianContext, Implementation, NormalizedCall, normalize_tool_call,
  should_route_approval_to_guardian, tool_of,
}
use local_agent_cli.Agents.Loop.Calls.{
  ask, build_guardian_request, consent, decide, is_asking, is_blocked, next_answer, review,
}
use local_agent_cli.Agents.Loop.Sequential.{
  run_if, sequential_answer, sequential_call, sequential_decided, sequential_finish,
}

-- A run keeps what both its parts keep, unless the second part's reason for a change holds.
resume-keeps :
    {S E A B : Type 0} (Keeps : S → Type 0) (Reason : Type 0) (r : Result A) (next : A → Gen S E B)
    (s : S) (events : List E)
    → Keeps s
    → ((a : A) → r ≡ ok a → Keeps (next a s).0.1 ⊎ Reason)
    → Keeps (resume r next s events).0.1 ⊎ Reason
resume-keeps Keeps Reason (ok a) next s events k h = h a refl
resume-keeps Keeps Reason (err raised) next s events k h = inl k

module _ {P : Platform} ⦃e : Eq P.FilePath⦄ (env : Env P) where
  -- The layer does not ask; or the guardian is asked and approves; or the user is asked and agrees.
  abbrev pub IsConsented : Option GuardianContext → Tool → Fields → ApprovalResult → Core P → Type 0
  IsConsented context tool arguments decision core =
      let asks = is_asking decision.status in
      let routed = should_route_approval_to_guardian env tool.name asks in
      (asks ≡ false)
      ⊎ ((routed ≡ true)
          × ((review_with_guardian env.texts env.guardian_prompt env.deny_threshold
                (env.review_answer core.generations)
                (build_guardian_request tool arguments decision context)).approved
              ≡ true))
      ⊎ ((routed ≡ false) × (next_answer env core.answers ≡ true))

  -- A call of a registered tool, with arguments, that the layer does not block and that is consented.
  pub record IsAllowed (context : Option GuardianContext) (raw_call : Fields) (core : Core P)
      : Type 0 where
    pub call : NormalizedCall
    pub entry : Registered (Implementation P)
    pub decision : ApprovalResult
    pub normalized : normalize_tool_call env.texts raw_call ≡ ok call
    pub parsed : call.parse_error ≡ none
    pub found : tool_of call.tool_name env.tools ≡ ok (some entry)
    pub decided :
        check_and_approve P env.py env.shell env.layer core.safety.world.disk entry.tool
          call.arguments
        ≡ ok decision
    pub unblocked : is_blocked decision.status ≡ false
    pub consented : IsConsented context entry.tool call.arguments decision core

  consent-safety :
      (context : Option GuardianContext) (tool : Tool) (arguments : Fields)
      (decision : ApprovalResult) (s : Core P)
      → (consent env context tool arguments decision s).0.1.safety ≡ s.safety
  unfolding consent review ask
  consent-safety context tool arguments decision s = ground arith

  consent-IsConsented :
      (context : Option GuardianContext) (tool : Tool) (arguments : Fields)
      (decision : ApprovalResult) (s : Core P) (verdict : Option GuardianReviewResult)
      → (consent env context tool arguments decision s).0.0 ≡ ok (true, verdict)
      → IsConsented context tool arguments decision s
  unfolding consent review ask
  consent-IsConsented context tool arguments decision s verdict h =
      let asks = is_asking decision.status in
      elim (Bool-cases asks) [
        | inr quietly ↦ inl quietly
        | inl asked ↦ elim (Bool-cases (should_route_approval_to_guardian env tool.name asks)) [
          | inl routed ↦ inr (inl (routed, ground (arith, asked, routed)))
          | inr direct ↦ inr (inr (direct, ground (arith, asked, direct)))
        ]
      ]

  finish-state :
      (call : NormalizedCall) (result : ToolResult) (s : Core P)
      → (sequential_finish env call result s).0.1 ≡ s
  unfolding sequential_finish
  finish-state call result s = ground arith

  module _ (context : Option GuardianContext) (raw_call : Fields) (s : Core P) where
    abbrev Keeps : Core P → Type 0
    Keeps t = t.safety ≡ s.safety

    abbrev Reason : Type 0
    Reason = IsAllowed context raw_call s

    finish-Keeps :
        (call : NormalizedCall) (result : ToolResult) (t : Core P)
        → Keeps t
        → Keeps (sequential_finish env call result t).0.1
    finish-Keeps call result t k = rw (finish-state call result t) k

    run_if-Keeps :
        (call : NormalizedCall) (entry : Registered (Implementation P)) (answer : Bool)
        (verdict : Option GuardianReviewResult) (t : Core P)
        → Keeps t
        → (answer ≡ true → Reason)
        → Keeps (run_if env call entry (answer, verdict) t).0.1 ⊎ Reason
    run_if-Keeps call entry true verdict t k h = inr (h refl)
    run_if-Keeps call entry false verdict t k h = inl k

    module _ (call : NormalizedCall) (entry : Registered (Implementation P))
        (decision : ApprovalResult)
        (allow : is_blocked decision.status ≡ false
          → IsConsented context entry.tool call.arguments decision s
          → Reason) where
      granted-Keeps :
          is_blocked decision.status ≡ false
          → Keeps
              (((consent env context entry.tool call.arguments decision >>= run_if env call entry))
                s).0.1
            ⊎ Reason
      granted-Keeps unblocked =
          let run = consent env context entry.tool call.arguments decision s in
          resume-keeps Keeps Reason run.0.0 (run_if env call entry) run.0.1 run.1
            (consent-safety context entry.tool call.arguments decision s)
            (λ verdict q.
              run_if-Keeps call entry verdict.0 verdict.1 run.0.1
                (consent-safety context entry.tool call.arguments decision s)
                (λ yes_said. allow unblocked (
                  consent-IsConsented context entry.tool call.arguments decision s verdict.1
                    (rw (sym yes_said) q))))

      decided-Keeps : Keeps (sequential_decided env context call entry decision s).0.1 ⊎ Reason
      decided-Keeps = elim (Bool-cases (is_blocked decision.status)) [
        | inl b ↦ rw b (inl refl)
        | inr b ↦ rw b (
            let run =
              (consent env context entry.tool call.arguments decision >>= run_if env call entry)
                s in
            elim (granted-Keeps b) [
              | inr reason ↦ inr reason
              | inl k ↦
                  resume-keeps Keeps Reason run.0.0 (sequential_finish env call) run.0.1 run.1 k
                    (λ result _. inl (finish-Keeps call result run.0.1 k))
            ])
      ]

    answer-Keeps :
        (call : NormalizedCall) (entry : Option (Registered (Implementation P)))
        (parse_error : Option Text)
        → normalize_tool_call env.texts raw_call ≡ ok call
        → call.parse_error ≡ parse_error
        → tool_of call.tool_name env.tools ≡ ok entry
        → Keeps (sequential_answer env context call entry parse_error s).0.1 ⊎ Reason
    unfolding decide
    answer-Keeps call none parse_error h p q = inl (finish-Keeps call _ s refl)
    answer-Keeps call (some entry) (some parse_error) h p q = inl (finish-Keeps call _ s refl)
    answer-Keeps call (some entry) none h p q =
        let run = decide env entry.tool call.arguments s in
        resume-keeps Keeps Reason run.0.0 (sequential_decided env context call entry) run.0.1 run.1
          refl
          (λ decision d. decided-Keeps call entry decision (λ unblocked consented. record {
            call = call;
            entry = entry;
            decision = decision;
            normalized = h;
            parsed = p;
            found = q;
            decided = d;
            unblocked = unblocked;
            consented = consented;
          }))

    -- A call leaves the layer's state as it is, the disk and the rollback log included, unless it is
    -- a call of a registered tool with arguments that were read, which the safety layer does not
    -- block, and which needs no consent, or has that of the guardian where the request goes to the
    -- guardian, or that of the user where it does not.
    pub sequential_call-IsAllowed :
        ((sequential_call env context raw_call s).0.1.safety ≡ s.safety)
        ⊎ IsAllowed context raw_call s
    unfolding sequential_call
    sequential_call-IsAllowed =
        resume-keeps Keeps Reason (normalize_tool_call env.texts raw_call)
          (λ call. returned (tool_of call.tool_name env.tools) >>= λ entry.
            sequential_answer env context call entry call.parse_error)
          s [] refl
          (λ call h.
            resume-keeps Keeps Reason (tool_of call.tool_name env.tools)
              (λ entry. sequential_answer env context call entry call.parse_error) s [] refl
              (λ entry q. answer-Keeps call entry call.parse_error h refl q))
