-- ===== src/Tests/Work.antt =====
-- Runs of features, plans, failure budgets, truncation and the table of sub-agents.
use local_agent_cli.Base.{
  List, [], false, leb, length, list_eq, min, nat_eq, none, refl, some, string_eq, true, ◌+◌, ◌∷◌,
  ◌≡◌,
}
use local_agent_cli.Base.Text.{codes}
use local_agent_cli.Features.{
  FeatureSpec, feature_registry, is_enabled, is_enabled-feature_registry, stable,
}
use local_agent_cli.Agents.AgentPath.{nobody, root}
use local_agent_cli.Agents.Recovery.{
  FailureContext, context, exhausted, failure_eq, retry_budget_for_failure, tool_error,
  tool_timeout, update_failure_counters,
}
use local_agent_cli.Agents.Recovery.Laws.{count_failures, exhausted-count_failures, occurrences}
use local_agent_cli.Agents.Truncation.{length-truncate_middle, truncate_middle}
use local_agent_cli.Agents.Plan.{
  TaskPlan, add_step, find, get_step, new_step, remove_step, update_first, update_step,
}
use local_agent_cli.Agents.Plan.Laws.{
  Edited-IsNumberedFrom, IsNumberedFrom, numbered, over, step_added, step_removed, step_updated,
  unedited,
}
use local_agent_cli.Agents.MultiAgent.{
  ManagedAgent, Manager, is_closed, managed_agent, manager_for, raised, returned,
  shutdown_agent_unlocked, spawn_agent, start_agent_thread, thread_step, working,
}
use local_agent_cli.Agents.MultiAgent.Filed.{IsManaged}
use local_agent_cli.Agents.MultiAgent.Laws.{Reachable-IsManaged, made, spawned, stepped}
use local_agent_cli.Agents.MultiAgent.Closing.{
  run_threads, shutdown_agent_unlocked-is_closed, thread_step-superseded,
}

abbrev two_timeouts : List FailureContext
two_timeouts = context tool_timeout [] ∷ context tool_error [] ∷ context tool_timeout [] ∷ []

exhausted-count_failures_example :
    let state =
      (update_failure_counters (count_failures two_timeouts []) (context tool_timeout [])).0 in
    (state.attempt ≡ occurrences tool_timeout two_timeouts + 1)
    × (exhausted state
        ≡ leb (retry_budget_for_failure tool_timeout) (occurrences tool_timeout two_timeouts + 1))
exhausted-count_failures_example = exhausted-count_failures two_timeouts (context tool_timeout [])

length-truncate_middle_example :
    (length (truncate_middle (codes "0123456789") 4).text ≡ min 4 (length (codes "0123456789")))
    × ((truncate_middle (codes "0123456789") 4).retained_chars
        ≡ length (truncate_middle (codes "0123456789") 4).text)
length-truncate_middle_example = length-truncate_middle (codes "0123456789") 4

abbrev plan : TaskPlan
plan = record {
  task = [];
  steps =
      record (new_step (codes "look")) { index = 1 }
      ∷ record (new_step (codes "fix")) { index = 2 }
      ∷ [];
  status = "planning";
}

abbrev looked : TaskPlan
looked = record plan {
  steps =
      record (new_step (codes "look")) { index = 1; status = "completed" }
      ∷ record (new_step (codes "fix")) { index = 2 }
      ∷ [];
}

Edited-IsNumberedFrom_example :
    IsNumberedFrom 1 (remove_step 2 (add_step (codes "test") (some 1) looked)).steps
unfolding update_step get_step find update_first nat_eq
Edited-IsNumberedFrom_example =
    Edited-IsNumberedFrom plan (remove_step 2 (add_step (codes "test") (some 1) looked))
      (numbered refl (numbered refl over))
      (step_removed 2
        (step_added (codes "test") (some 1) (step_updated 1 "completed" none unedited refl)))

abbrev spawned_one : Manager
spawned_one = (spawn_agent (codes "work") nobody none none none (manager_for 2)).1

Reachable-IsManaged_example : IsManaged spawned_one
Reachable-IsManaged_example =
    Reachable-IsManaged 2 spawned_one (stepped made (spawned (codes "work") nobody none none none))

abbrev worker : ManagedAgent
worker = start_agent_thread (managed_agent root none none)

shutdown_agent_unlocked-is_closed_example :
    is_closed (
      run_threads
        ((raised (codes "e"), 0) ∷ (returned (codes "r"), 0) ∷ [])
        (shutdown_agent_unlocked worker))
    ≡ true
shutdown_agent_unlocked-is_closed_example =
    shutdown_agent_unlocked-is_closed worker
      ((raised (codes "e"), 0) ∷ (returned (codes "r"), 0) ∷ [])

thread_step-superseded_example :
    let after = (thread_step (returned (codes "r")) 0 (working (codes "p")) worker).1 in
    (after.status ≡ worker.status)
    × (after.last_output ≡ worker.last_output)
    × (after.last_error ≡ worker.last_error)
    × (after.task_count ≡ worker.task_count)
unfolding start_agent_thread managed_agent nat_eq
thread_step-superseded_example =
    thread_step-superseded (returned (codes "r")) 0 (working (codes "p")) worker refl

abbrev one_feature : List FeatureSpec
one_feature = record { id = "known"; stage = stable; default_enabled = true; description = [] } ∷ []

is_enabled-feature_registry_example :
    is_enabled "other" (feature_registry (("other", true) ∷ []) (some one_feature)) ≡ false
unfolding string_eq
is_enabled-feature_registry_example =
    is_enabled-feature_registry "other" (("other", true) ∷ []) one_feature refl
