-- ===== src/Agents/MultiAgent/Spawning.antt =====
-- localagentcli/agents/multi_agent.py: spawning an agent keeps the table and its limit.
use local_agent_cli.Base.{
  Bool-cases, Option, Option-cases, [], arith, inl, inr, length, list_eq, ltb, nat_eq, none, refl,
  some, ℕ, ◌<◌, ◌==◌, ◌≡◌,
}
use local_agent_cli.Base.Text.{Text, strip, whitespace}
use local_agent_cli.Base.Result.{Result-cases, ok}
use local_agent_cli.Base.Exec.{continue}
use local_agent_cli.Base.Dict.{lookup}
use local_agent_cli.Agents.AgentPath.{AgentPath, Caller, current_path, from_string, join_name}
use local_agent_cli.Agents.AgentPath.Laws.{IsValid}
use local_agent_cli.Agents.MultiAgent.{
  Manager, managed_agent, next_generated_name, segment_of, spawn_agent, spawn_at,
  start_agent_thread, submit_input_unlocked,
}
use local_agent_cli.Agents.MultiAgent.Filed.{All-insert, IsManaged, length-insert}

-- A generated name changes nothing but the counter.
record_counter-IsManaged :
    (m : Manager) (n : ℕ) → IsManaged m → IsManaged (record m { generated_name_counter = n })
record_counter-IsManaged m n i = record { filed = i.filed; bounded = i.bounded }

spawn_at-IsManaged :
    (cleaned : Text) (nickname role : Option Text) (path : AgentPath) (m : Manager)
    → IsValid path
    → length m.agents < m.max_agents
    → IsManaged m
    → IsManaged (spawn_at cleaned nickname role path m).1
unfolding spawn_at submit_input_unlocked start_agent_thread managed_agent
spawn_at-IsManaged cleaned nickname role path m v room i =
    elim (Option-cases (lookup path.value m.agents)) [
      | inr (agent, there) ↦ rw (there, spawn_at) i
      | inl free ↦
          rw (free, spawn_at)
            (record {
              filed = All-insert path.value _ m.agents (refl, v) i.filed;
              bounded = omega (
                arith,
                room,
                length-insert path.value
                    (submit_input_unlocked cleaned
                      (start_agent_thread (managed_agent path nickname role)))
                    m.agents,
              );
            })
    ]

join_name-IsValid :
    (parent path : AgentPath) (segment : Text) → join_name parent segment ≡ ok path → IsValid path
unfolding join_name from_string
join_name-IsValid parent path segment h = ground arith

-- What `spawn_agent` does once the name is chosen.
spawn_named-IsManaged :
    (cleaned : Text) (nickname role : Option Text) (parent : AgentPath) (segment : Text)
    (m : Manager)
    → length m.agents < m.max_agents
    → IsManaged m
    → IsManaged (continue (join_name parent segment) (spawn_at cleaned nickname role) m).1
spawn_named-IsManaged cleaned nickname role parent segment m room i =
    elim (Result-cases (join_name parent segment)) [
      | inr (x, q) ↦ rw q i
      | inl (path, q) ↦ rw q (
          spawn_at-IsManaged cleaned nickname role path m (join_name-IsValid parent path segment q)
            room i)
    ]

spawn_below-IsManaged :
    (cleaned : Text) (task_name nickname role : Option Text) (parent : AgentPath) (m : Manager)
    → length m.agents < m.max_agents
    → IsManaged m
    → IsManaged
        (continue
          (segment_of task_name m).0
          (λ segment. continue (join_name parent segment) (spawn_at cleaned nickname role))
          (segment_of task_name m).1).1
unfolding segment_of next_generated_name
spawn_below-IsManaged cleaned none nickname role parent m room i =
    spawn_named-IsManaged cleaned nickname role parent _ _ room (record_counter-IsManaged m _ i)
spawn_below-IsManaged cleaned (some task_name) nickname role parent m room i =
    elim (Bool-cases (strip whitespace task_name == [])) [
      | inl empty ↦ rw empty (
          spawn_named-IsManaged cleaned nickname role parent _ _ room
            (record_counter-IsManaged m _ i))
      | inr full ↦ rw full (spawn_named-IsManaged cleaned nickname role parent _ m room i)
    ]

pub spawn_agent-IsManaged :
    (task : Text) (caller : Caller) (task_name role nickname : Option Text) (m : Manager)
    → IsManaged m
    → IsManaged (spawn_agent task caller task_name role nickname m).1
unfolding spawn_agent
spawn_agent-IsManaged task caller task_name role nickname m i =
    elim (Bool-cases (strip whitespace task == [])) [
      | inl empty ↦ rw empty i
      | inr full ↦ elim (Bool-cases (ltb (length m.agents) m.max_agents)) [
        | inr no_room ↦ rw (full, no_room) i
        | inl room ↦ elim (Result-cases (current_path caller)) [
          | inr (x, q) ↦ rw (full, room, q) i
          | inl (parent, q) ↦
              rw (full, room, q)
                (spawn_below-IsManaged (strip whitespace task) task_name nickname role parent m
                  (ground (arith, room)) i)
        ]
      ]
    ]
