-- ===== src/Agents/MultiAgent/Threads.antt =====
-- localagentcli/agents/multi_agent.py: `run_loop`, the thread that works for an agent. What runs
-- under the lock is one step, and so is one `get` of the queue.
use local_agent_cli.Agents.MultiAgent.Agent.{
  ManagedAgent, Phase, WorkerThread, checking, closing, completed, ended, failed, fetching, holding,
  is_failed, running, shut_down, working,
}
use local_agent_cli.Base.{
  List, Option, [], if◌then◌else◌, list_eq, nat_eq, none, not, some, suc, zero, ℕ, ◌+◌, ◌==◌, ◌∷◌,
}
use local_agent_cli.Base.Text.{Text}

-- What the worker returns or raises.
pub data Outcome : Type 0 where
  returned raised : Text → Outcome

-- After the worker, under the lock.
unfoldable pub finish_task : Outcome → ManagedAgent → ManagedAgent
finish_task (returned output) agent = record agent {
  last_output = output;
  last_error = [];
  task_count = agent.task_count + 1;
  status = completed;
}
finish_task (raised error) agent = record agent { last_error = error; status = failed }

-- `agent._queue.get(timeout=0.1)`: none is the sentinel, and an empty queue is `Empty`.
unfoldable pub get_payload : List (Option Text) → Phase × List (Option Text)
get_payload [] = (checking, [])
get_payload (none ∷ queue) = (closing, queue)
get_payload (some payload ∷ queue) = (holding payload, queue)

-- One step of `run_loop` in the thread of a generation.
unfoldable pub thread_step : Outcome → ℕ → Phase → ManagedAgent → Phase × ManagedAgent
thread_step outcome generation checking agent = (
  if not (agent.generation == generation)
      then ended
      else if agent.stop_event
      then closing
      else fetching,
  agent,
)
thread_step outcome generation fetching agent =
    let (phase, queue) = get_payload agent.queue in (phase, record agent { queue = queue })
thread_step outcome generation (holding payload) agent =
    if not (agent.generation == generation)
    then (ended, agent)
    else (working payload, record agent { status = running })
thread_step outcome generation (working payload) agent =
    if not (agent.generation == generation)
    then (ended, agent)
    else (checking, finish_task outcome agent)
thread_step outcome generation closing agent =
    if not (agent.generation == generation)
    then (ended, agent)
    else (ended, (if is_failed agent.status then agent else record agent { status = shut_down }))
thread_step outcome generation ended agent = (ended, agent)

-- The thread at a place of the list takes a step.
unfoldable pub step_at :
    Outcome → ℕ → List WorkerThread → ManagedAgent → List WorkerThread × ManagedAgent
step_at outcome n [] agent = ([], agent)
step_at outcome zero (thread ∷ older) agent =
    let (phase, agent') = thread_step outcome thread.generation thread.phase agent in
    (record thread { phase = phase } ∷ older, agent')
step_at outcome (suc n) (thread ∷ older) agent =
    let (older', agent') = step_at outcome n older agent in (thread ∷ older', agent')

unfoldable pub agent_step : Outcome → ℕ → ManagedAgent → ManagedAgent
agent_step outcome n agent =
    let (threads, agent') = step_at outcome n agent.threads agent in
    record agent' { threads = threads }
