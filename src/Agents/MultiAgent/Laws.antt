-- ===== src/Agents/MultiAgent/Laws.antt =====
-- localagentcli/agents/multi_agent.py: what holds of the agents after any operations and any steps of
-- their threads.
use local_agent_cli.Base.{Option, arith, list_eq, nat_eq, some, ℕ, ◌≡◌}
use local_agent_cli.Base.Text.{Text}
use local_agent_cli.Base.Dict.{insert, lookup}
use local_agent_cli.Agents.AgentPath.{Caller}
use local_agent_cli.Agents.MultiAgent.{
  ManagedAgent, Manager, Outcome, agent_step, clear, close_agent, manager_for, resume_agent,
  send_input, shutdown, spawn_agent,
}
use local_agent_cli.Agents.MultiAgent.Filed.{IsManaged, insert-IsManaged}
use local_agent_cli.Agents.MultiAgent.Operations.{
  close_agent-IsManaged, resume_agent-IsManaged, send_input-IsManaged, shutdown_all-IsFiled,
  step_at-agent_path,
}
use local_agent_cli.Agents.MultiAgent.Spawning.{spawn_agent-IsManaged}

-- What the outside and the threads do to a manager.
pub data Step (m : Manager) : Manager → Type 0 where
  spawned :
      (task : Text) (caller : Caller) (task_name role nickname : Option Text)
      → Step m (spawn_agent task caller task_name role nickname m).1
  sent : (target input : Text) (caller : Caller) → Step m (send_input target input caller m).1
  closed : (target : Text) (caller : Caller) → Step m (close_agent target caller m).1
  resumed :
      (target : Text) (caller : Caller) (input : Option Text)
      → Step m (resume_agent target caller input m).1
  stopped : Step m (shutdown m)
  cleared : Step m (clear m).1
  worked :
      (key : Text) (agent : ManagedAgent) (outcome : Outcome) (n : ℕ)
      → lookup key m.agents ≡ some agent
      → Step m (record m { agents = insert key (agent_step outcome n agent) m.agents })

pub data Reachable (limit : ℕ) : Manager → Type 0 where
  made : Reachable limit (manager_for limit)
  stepped : {m n : Manager} → Reachable limit m → Step m n → Reachable limit n

Step-IsManaged : {m n : Manager} → Step m n → IsManaged m → IsManaged n
unfolding shutdown clear agent_step
Step-IsManaged {m} (spawned task caller task_name role nickname) i =
    spawn_agent-IsManaged task caller task_name role nickname m i
Step-IsManaged {m} (sent target input caller) i = send_input-IsManaged target input caller m i
Step-IsManaged {m} (closed target caller) i = close_agent-IsManaged target caller m i
Step-IsManaged {m} (resumed target caller input) i = resume_agent-IsManaged target caller input m i
Step-IsManaged {m} stopped i =
    let (f, l) = shutdown_all-IsFiled m.agents i.filed in
    record { filed = f; bounded = ground (arith, l, i.bounded) }
Step-IsManaged {m} cleared i = record { filed = tt; bounded = ground arith }
Step-IsManaged {m} (worked key agent outcome n there) i =
    insert-IsManaged m key agent _ there (step_at-agent_path outcome n agent.threads agent) i

-- Whatever is spawned, sent, closed, resumed, shut down or cleared, in any order and with any steps
-- of the threads in between: every agent is kept under its own path, which is valid, and there are
-- never more agents than the limit.
pub Reachable-IsManaged : (limit : ℕ) (m : Manager) → Reachable limit m → IsManaged m
unfolding manager_for
Reachable-IsManaged limit m made = record { filed = tt; bounded = omega arith }
Reachable-IsManaged limit n (stepped {m} r s) = Step-IsManaged s (Reachable-IsManaged limit m r)
