-- ===== src/Agents/MultiAgent/Agent.antt =====
-- localagentcli/agents/multi_agent.py: one sub-agent, and what is done to it under the lock.
use local_agent_cli.Base.{
  Bool, List, Option, [], false, if◌then◌else◌, list_eq, nat_eq, none, not, some, true, ℕ, ◌++◌,
  ◌+◌, ◌||◌, ◌∷◌,
}
use local_agent_cli.Base.Text.{Text}
use local_agent_cli.Agents.AgentPath.{AgentPath}

pub data AgentStatus : Type 0 where
  pending_init running waiting_input completed failed timed_out shut_down not_found : AgentStatus

-- `_FINAL_STATUSES`
unfoldable pub is_final : AgentStatus → Bool
is_final completed = true
is_final failed = true
is_final shut_down = true
is_final not_found = true
is_final _ = false

unfoldable pub is_shut_down : AgentStatus → Bool
is_shut_down shut_down = true
is_shut_down _ = false

unfoldable pub is_failed : AgentStatus → Bool
is_failed failed = true
is_failed _ = false

-- Where `run_loop` stands: at its check, at `get`, with a payload, in the worker, after the loop.
pub data Phase : Type 0 where
  checking fetching closing ended : Phase
  holding working : Text → Phase

pub record WorkerThread : Type 0 where
  pub generation : ℕ
  pub phase : Phase

-- The threads that were started for an agent, the newest first: it is `_thread`.
pub record ManagedAgent : Type 0 where
  pub agent_path : AgentPath
  pub nickname : Option Text
  pub role : Option Text
  pub status : AgentStatus
  pub last_input : Text
  pub last_output : Text
  pub last_error : Text
  pub task_count : ℕ
  pub queue : List (Option Text)
  pub stop_event : Bool
  pub generation : ℕ
  pub threads : List WorkerThread

unfoldable pub submit_input_unlocked : Text → ManagedAgent → ManagedAgent
submit_input_unlocked input agent = record agent {
  status = pending_init;
  last_input = input;
  queue = agent.queue ++ some input ∷ [];
}

unfoldable pub start_agent_thread : ManagedAgent → ManagedAgent
start_agent_thread agent = record agent {
  generation = agent.generation + 1;
  threads = record { generation = agent.generation + 1; phase = checking } ∷ agent.threads;
}

-- The thread is joined for two seconds at most; it cannot take the lock in that time.
unfoldable pub shutdown_agent_unlocked : ManagedAgent → ManagedAgent
shutdown_agent_unlocked agent = record agent {
  stop_event = true;
  queue = agent.queue ++ none ∷ [];
  status = shut_down;
}

abbrev is_ended : Phase → Bool
is_ended ended = true
is_ended _ = false

-- `agent._thread is not None and agent._thread.is_alive()`
abbrev pub is_alive : List WorkerThread → Bool
is_alive [] = false
is_alive (thread ∷ older) = not (is_ended thread.phase)

-- `ManagedAgent(path, worker, nickname, role)`
unfoldable pub managed_agent : AgentPath → Option Text → Option Text → ManagedAgent
managed_agent path nickname role = record {
  agent_path = path;
  nickname = nickname;
  role = role;
  status = pending_init;
  last_input = [];
  last_output = [];
  last_error = [];
  task_count = 0;
  queue = [];
  stop_event = false;
  generation = 0;
  threads = [];
}

unfoldable pub is_closed : ManagedAgent → Bool
is_closed agent = agent.stop_event || is_shut_down agent.status || not (is_alive agent.threads)

-- A closed agent gets a new queue, event and thread.
unfoldable pub restarted : ManagedAgent → ManagedAgent
restarted agent =
    if is_closed agent
    then start_agent_thread
        (record agent { stop_event = false; queue = []; status = waiting_input })
    else agent
