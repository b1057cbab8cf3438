-- ===== src/Agents/MultiAgent/Closing.antt =====
-- localagentcli/agents/multi_agent.py: what the threads can and cannot do to an agent that was closed
-- or restarted.
use local_agent_cli.Base.{
  List, [], arith, false, nat_eq, refl, suc, true, zero, ℕ, ◌==◌, ◌∙◌, ◌∷◌, ◌≡◌,
}
use local_agent_cli.Agents.MultiAgent.{
  ManagedAgent, Outcome, Phase, WorkerThread, agent_step, checking, closing, ended, fetching,
  finish_task, holding, is_closed, raised, returned, shutdown_agent_unlocked, step_at, thread_step,
  working,
}

-- Steps of the agent's threads, each with what the worker would give.
unfoldable pub run_threads : List (Outcome × ℕ) → ManagedAgent → ManagedAgent
run_threads [] agent = agent
run_threads ((outcome, n) ∷ steps) agent = run_threads steps (agent_step outcome n agent)

thread_step-stop_event :
    (outcome : Outcome) (g : ℕ) (phase : Phase) (agent : ManagedAgent)
    → (thread_step outcome g phase agent).1.stop_event ≡ agent.stop_event
unfolding thread_step finish_task
thread_step-stop_event outcome g checking agent = refl
thread_step-stop_event outcome g fetching agent = refl
thread_step-stop_event outcome g (holding payload) agent = ground arith
thread_step-stop_event (returned output) g (working payload) agent = ground arith
thread_step-stop_event (raised error) g (working payload) agent = ground arith
thread_step-stop_event outcome g closing agent = ground arith
thread_step-stop_event outcome g ended agent = refl

step_at-stop_event :
    (outcome : Outcome) (n : ℕ) (threads : List WorkerThread) (agent : ManagedAgent)
    → (step_at outcome n threads agent).1.stop_event ≡ agent.stop_event
unfolding step_at
step_at-stop_event outcome n [] agent = refl
step_at-stop_event outcome zero (thread ∷ older) agent =
    thread_step-stop_event outcome thread.generation thread.phase agent
step_at-stop_event outcome (suc n) (thread ∷ older) agent = step_at-stop_event outcome n older agent

stopped-is_closed :
    (steps : List (Outcome × ℕ)) (agent : ManagedAgent)
    → agent.stop_event ≡ true
    → is_closed (run_threads steps agent) ≡ true
unfolding run_threads is_closed agent_step
stopped-is_closed [] agent h = ground arith
stopped-is_closed ((outcome, n) ∷ steps) agent h =
    stopped-is_closed steps (agent_step outcome n agent)
      (step_at-stop_event outcome n agent.threads agent ∙ h)

-- After an agent is closed, `send_input` finds it closed whatever steps its threads take and whatever
-- their workers return or raise.
pub shutdown_agent_unlocked-is_closed :
    (agent : ManagedAgent) (steps : List (Outcome × ℕ))
    → is_closed (run_threads steps (shutdown_agent_unlocked agent)) ≡ true
unfolding shutdown_agent_unlocked
shutdown_agent_unlocked-is_closed agent steps = stopped-is_closed steps _ refl

-- A thread of an earlier generation never changes an agent's status, output, error or task count.
pub thread_step-superseded :
    (outcome : Outcome) (g : ℕ) (phase : Phase) (agent : ManagedAgent)
    → (agent.generation == g) ≡ false
    → let after = (thread_step outcome g phase agent).1 in
      (after.status ≡ agent.status)
      × (after.last_output ≡ agent.last_output)
      × (after.last_error ≡ agent.last_error)
      × (after.task_count ≡ agent.task_count)
unfolding thread_step
thread_step-superseded outcome g checking agent old = (refl, refl, refl, refl)
thread_step-superseded outcome g fetching agent old = (refl, refl, refl, refl)
thread_step-superseded outcome g (holding payload) agent old = rw old (refl, refl, refl, refl)
thread_step-superseded outcome g (working payload) agent old = rw old (refl, refl, refl, refl)
thread_step-superseded outcome g closing agent old = rw old (refl, refl, refl, refl)
thread_step-superseded outcome g ended agent old = (refl, refl, refl, refl)
