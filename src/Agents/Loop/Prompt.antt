-- ===== src/Agents/Loop/Prompt.antt =====
-- localagentcli/agents/loop.py: what the model is told of a step. The loop is taken without a session,
-- whose instructions and environment would be told too.
use local_agent_cli.Base.{
  Bool, List, [], keep, list_eq, map, nat_eq, not, string_eq, take, ◌++◌, ◌==◌, ◌∷◌,
}
use local_agent_cli.Base.Text.{Text, codes, join, strip, whitespace}
use local_agent_cli.Base.Decimal.{decimal}
use local_agent_cli.Models.{ModelMessage, plain_message}
use local_agent_cli.Agents.Plan.{PlanStep, TaskPlan}
use local_agent_cli.Base.Result.{message}

unfoldable pub step_prompt : Text
step_prompt =
    codes
      "You are LocalAgentCLI operating in agent mode.\n\nExecution rules:\n- Work on the current step only; do not skip ahead.\n- Use available tools whenever inspection, edits, or verification is needed.\n- Never guess file contents, command output, or test outcomes.\n- Prefer minimal, reversible, repository-consistent changes.\n- If a tool call is denied, fails, or times out, adapt and continue when possible.\n\nOutput contract:\n- If more execution is needed, continue by using tools.\n- When the current step is complete, return a concise plain-text summary of\n    the result (no markdown fences, no JSON object wrapper).\n"

abbrev pub lines_between : Text → Text → Text
lines_between a b = a ++ (10 ∷ 10 ∷ b)

unfoldable pub plan_line : PlanStep → Text
plan_line step =
    decimal step.index ++ (codes ". [" ++ (codes step.status ++ (codes "] " ++ step.description)))

unfoldable pub step_content : Text → TaskPlan → PlanStep → Text
unfolding plan_line
step_content task plan step =
    step_prompt
    ++ (codes "\nTask objective:\n"
        ++ (task
            ++ (codes "\n\nPlan status:\n"
                ++ (join (10 ∷ []) (map plan_line plan.steps)
                    ++ (codes "\n\nCurrent step focus:\n"
                        ++ (decimal step.index ++ (codes ". " ++ step.description)))))))

abbrev pub is_system : ModelMessage → Bool
is_system message = message.role == "system"

-- The texts of the transcript's system messages that are not blank.
unfoldable pub transcript_system : List ModelMessage → List Text
transcript_system transcript =
    keep (λ text. not (text == []))
      (map (λ message. strip whitespace message.content) (keep is_system transcript))

abbrev pub system_text : Text → List Text → Text
system_text content [] = content
system_text content (first ∷ rest) =
    lines_between content (
      codes "Session instructions and environment context:\n" ++ join (10 ∷ 10 ∷ []) (first ∷ rest))

unfoldable pub build_messages :
    Text → TaskPlan → PlanStep → List ModelMessage → List ModelMessage → List ModelMessage
unfolding step_content transcript_system
build_messages task plan step transcript conversation =
    plain_message "system"
      (system_text (step_content task plan step) (transcript_system transcript))
    ∷ (keep (λ message. not (is_system message)) transcript ++ conversation)

abbrev pub last_content : Text → List ModelMessage → Text
last_content latest [] = latest
last_content latest (message ∷ rest) = last_content message.content rest

abbrev pub observed : List ModelMessage → Text
observed [] = codes "Step completed."
observed (message ∷ rest) =
    codes "Step completed after tool execution. Latest observation: "
    ++ take 240 (last_content message.content rest)

unfoldable pub summarize_observations : List ModelMessage → Text
summarize_observations conversation =
    observed (keep (λ message. message.role == "tool") conversation)
