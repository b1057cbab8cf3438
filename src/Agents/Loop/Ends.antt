-- ===== src/Agents/Loop/Ends.antt =====
-- localagentcli/agents/loop.py: how a step ends.
use local_agent_cli.Base.{list_eq, nat_eq, none, string_eq, ℕ, ◌+◌, ◌<◌, ◌≡◌, ◌≤◌}
use local_agent_cli.Base.Text.{Text}
use local_agent_cli.Base.Result.{Result}
use local_agent_cli.Base.Gen.{Gen}
use local_agent_cli.Platform.{Platform}
use local_agent_cli.Agents.Loop.Base.{Core, Env}
use local_agent_cli.Agents.Loop.Step.{StepDone}
use local_agent_cli.Agents.Loop.RoundEnds.{IsRoundEnd}

-- The ways in which so many rounds end. Every round looks once at the stop flag: they end in the round
-- of the last look, or after all of them, each with an answer of the model.
pub data IsEnd {P : Platform} (env : Env P) (rounds : ℕ) (before after : Core P) (d : StepDone)
    : Type 0 where
  in_round :
      (check : ℕ)
      → before.checks ≤ check
      → check < before.checks + rounds
      → after.checks ≡ check + 1
      → IsRoundEnd env check d
      → IsEnd env rounds before after d
  out_of_rounds :
      after.checks ≡ before.checks + rounds
      → before.generations + rounds ≤ after.generations
      → d.summary ≡ none
      → d.failure_kind ≡ "round_budget_exhausted"
      → IsEnd env rounds before after d
