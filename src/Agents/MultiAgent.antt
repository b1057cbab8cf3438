-- ===== src/Agents/MultiAgent.antt =====
-- localagentcli/agents/multi_agent.py: sub-agents by path. The clock's texts are left out, since
-- nothing decides by them, and so is `load_snapshot`.
mod Agent
mod Threads
pub mod Filed
mod Operations
mod Spawning
pub mod Laws
pub mod Closing
unfoldable pub use Agent.*
unfoldable pub use Threads.*
use local_agent_cli.Base.{
  Bool, List, Option, [], false, if◌then◌else◌, length, list_eq, ltb, nat_eq, none, not, some, true,
  ℕ, ◌++◌, ◌+◌, ◌==◌, ◌∷◌,
}
use local_agent_cli.Base.Text.{Text, codes, strip, whitespace}
use local_agent_cli.Base.Decimal.{decimal}
use local_agent_cli.Base.Dict.{Dict, insert, lookup}
use local_agent_cli.Base.Result.{Result, err, ok, value_error}
use local_agent_cli.Base.Exec.{Exec, pure, ◌>>=◌, ◌>>◌}
use local_agent_cli.Agents.AgentPath.{
  AgentPath, Caller, current_path, join_name, resolve_agent_reference,
}

pub record Manager : Type 0 where
  pub max_agents : ℕ
  pub agents : Dict Text ManagedAgent
  pub generated_name_counter : ℕ

-- `max(1, max_agents)`
unfoldable pub manager_for : ℕ → Manager
manager_for max_agents = record {
  max_agents = if max_agents == 0 then 1 else max_agents;
  agents = [];
  generated_name_counter = 0;
}

-- A result that does not touch the manager.
abbrev given : {A : Type 0} → Result A → Exec Manager A
given r m = (r, m)

abbrev put : Text → ManagedAgent → Exec Manager ManagedAgent
put key agent m = (ok agent, record m { agents = insert key agent m.agents })

unfoldable pub next_generated_name : Exec Manager Text
next_generated_name m = (
  ok (codes "agent_" ++ decimal (m.generated_name_counter + 1)),
  record m { generated_name_counter = m.generated_name_counter + 1 },
)

-- `task_name.strip()`, or a generated name where that is empty.
unfoldable pub segment_of : Option Text → Exec Manager Text
segment_of none = next_generated_name
segment_of (some task_name) =
    if strip whitespace task_name == []
    then next_generated_name
    else pure (strip whitespace task_name)

-- What follows the choice of the path.
unfoldable pub spawn_at : Text → Option Text → Option Text → AgentPath → Exec Manager ManagedAgent
spawn_at cleaned nickname role path m = elim (lookup path.value m.agents) [
  | some _ ↦
      (err (value_error (codes "agent path `" ++ (path.value ++ codes "` already exists"))), m)
  | none ↦
      put path.value
        (submit_input_unlocked cleaned (start_agent_thread (managed_agent path nickname role))) m
]

unfoldable pub spawn_agent :
    Text → Caller → Option Text → Option Text → Option Text → Exec Manager ManagedAgent
spawn_agent task caller task_name role nickname m =
    if strip whitespace task == []
    then (err (value_error (codes "message must not be empty")), m)
    else if not (ltb (length m.agents) m.max_agents)
    then (
      err (value_error (codes "agent limit reached (" ++ (decimal m.max_agents ++ codes ")"))),
      m,
    )
    else (do
      parent ← given (current_path caller)
      segment ← segment_of task_name
      path ← given (join_name parent segment)
      spawn_at (strip whitespace task) nickname role path)
        m

-- An operation on the agent that is there, or the error where none is.
abbrev pub at_found :
    {A : Type 0}
    → AgentPath
    → (Text → ManagedAgent → Exec Manager A)
    → Option ManagedAgent
    → Exec Manager A
at_found path then_do none m =
    (err (value_error (codes "live agent path `" ++ (path.value ++ codes "` not found"))), m)
at_found path then_do (some agent) m = then_do path.value agent m

-- An operation on the agent that a reference resolves to.
abbrev pub at_target :
    {A : Type 0} → Caller → Text → (Text → ManagedAgent → Exec Manager A) → Exec Manager A
at_target caller target then_do = do
  path ← given (resolve_agent_reference caller target false)
  λ m. at_found path then_do (lookup path.value m.agents) m

unfoldable pub send_to : Text → Text → ManagedAgent → Exec Manager ManagedAgent
send_to cleaned key agent m =
    if is_closed agent
    then (err (value_error (codes "agent path `" ++ (key ++ codes "` is closed"))), m)
    else put key (submit_input_unlocked cleaned agent) m

unfoldable pub send_input : Text → Text → Caller → Exec Manager ManagedAgent
send_input target input caller m =
    if strip whitespace input == []
    then (err (value_error (codes "input_text must not be empty")), m)
    else at_target caller target (send_to (strip whitespace input)) m

abbrev pub close_found : Text → ManagedAgent → Exec Manager (ManagedAgent × AgentStatus)
close_found key agent m = (
  ok (shutdown_agent_unlocked agent, agent.status),
  record m { agents = insert key (shutdown_agent_unlocked agent) m.agents },
)

unfoldable pub close_agent : Text → Caller → Exec Manager (ManagedAgent × AgentStatus)
close_agent target caller = at_target caller target close_found

-- The restart is kept also where the input is refused.
unfoldable pub resume_found : Option Text → Text → ManagedAgent → Exec Manager ManagedAgent
resume_found none key agent m = put key (restarted agent) m
resume_found (some input) key agent m =
    if strip whitespace input == []
    then (
      err (value_error (codes "input_override must not be empty")),
      record m { agents = insert key (restarted agent) m.agents },
    )
    else put key (submit_input_unlocked (strip whitespace input) (restarted agent)) m

unfoldable pub resume_agent : Text → Caller → Option Text → Exec Manager ManagedAgent
resume_agent target caller input_override = at_target caller target (resume_found input_override)

unfoldable pub shutdown_all : Dict Text ManagedAgent → Dict Text ManagedAgent
shutdown_all [] = []
shutdown_all ((key, agent) ∷ rest) = (key, shutdown_agent_unlocked agent) ∷ shutdown_all rest

unfoldable pub shutdown : Manager → Manager
shutdown m = record m { agents = shutdown_all m.agents }

unfoldable pub clear : Manager → ℕ × Manager
clear m = (length m.agents, record m { agents = [] })

-- One look of `wait_for_targets` at the agents, under the lock, on what is `found` so far.
unfoldable pub found_of :
    Dict Text ManagedAgent → Dict Text AgentStatus → List AgentPath → Dict Text AgentStatus
found_of agents found [] = found
found_of agents found (path ∷ rest) = elim (lookup path.value agents) [
  | none ↦ found_of agents (insert path.value not_found found) rest
  | some agent ↦
      (if is_final agent.status
        then found_of agents (insert path.value agent.status found) rest
        else found_of agents found rest)
]

-- The looks until the deadline, each at what the agents are by then.
unfoldable pub wait_loop :
    List AgentPath → List (Dict Text ManagedAgent) → Dict Text AgentStatus × Bool
wait_loop paths [] = ([], true)
wait_loop paths (agents ∷ later) = elim (found_of agents [] paths) [
  | [] ↦ wait_loop paths later
  | entry ∷ more ↦ (entry ∷ more, false)
]

unfoldable pub resolve_targets : Caller → List Text → Result (List AgentPath)
resolve_targets caller [] = ok []
resolve_targets caller (target ∷ rest) = elim (resolve_agent_reference caller target false) [
  | err e ↦ err e
  | ok path ↦ elim (resolve_targets caller rest) [ ok paths ↦ ok (path ∷ paths) | err e ↦ err e ]
]

-- `looks` is what the agents are at each look until the deadline, the first at once.
unfoldable pub wait_for_targets :
    List Text → Caller → ℕ → List (Dict Text ManagedAgent) → Result (Dict Text AgentStatus × Bool)
wait_for_targets targets caller timeout_ms looks =
    if targets == []
    then err (value_error (codes "target_paths must be non-empty"))
    else if timeout_ms == 0
    then err (value_error (codes "timeout_ms must be greater than zero"))
    else elim (resolve_targets caller targets) [
      | err e ↦ err e
      | ok paths ↦ ok (wait_loop paths looks)
    ]
