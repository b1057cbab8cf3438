-- ===== src/Agents/MultiAgent/Operations.antt =====
-- localagentcli/agents/multi_agent.py: the operations on an agent that is there keep the table.
use local_agent_cli.Base.{
  All, Bool-cases, List, Option, [], arith, false, inl, inr, length, list_eq, nat_eq, none, refl,
  some, suc, zero, ℕ, ◌==◌, ◌∷◌, ◌≡◌,
}
use local_agent_cli.Base.Text.{Text, strip, whitespace}
use local_agent_cli.Base.Result.{Result, err, ok}
use local_agent_cli.Base.Exec.{Exec, continue}
use local_agent_cli.Base.Dict.{Dict, lookup}
use local_agent_cli.Agents.AgentPath.{AgentPath, Caller, resolve_agent_reference}
use local_agent_cli.Agents.MultiAgent.{
  ManagedAgent, Manager, Outcome, Phase, WorkerThread, at_found, at_target, checking, close_agent,
  close_found, closing, ended, fetching, finish_task, holding, is_closed, raised, restarted,
  resume_agent, resume_found, returned, send_input, send_to, shutdown_agent_unlocked, shutdown_all,
  start_agent_thread, step_at, submit_input_unlocked, thread_step, working,
}
use local_agent_cli.Agents.MultiAgent.Filed.{IsFiled, IsManaged, insert-IsManaged}

continue-IsManaged :
    {A B : Type 0} (r : Result A) (f : A → Exec Manager B) (m : Manager)
    → IsManaged m
    → ((a : A) → IsManaged (f a m).1)
    → IsManaged (continue r f m).1
continue-IsManaged (ok a) f m i h = h a
continue-IsManaged (err e) f m i h = i

at_found-IsManaged :
    {A : Type 0} (path : AgentPath) (then_do : Text → ManagedAgent → Exec Manager A)
    (found : Option ManagedAgent) (m : Manager)
    → IsManaged m
    → ((agent : ManagedAgent) → found ≡ some agent → IsManaged (then_do path.value agent m).1)
    → IsManaged (at_found path then_do found m).1
at_found-IsManaged path then_do none m i h = i
at_found-IsManaged path then_do (some agent) m i h = h agent refl

at_target-IsManaged :
    {A : Type 0} (caller : Caller) (target : Text) (then_do : Text → ManagedAgent → Exec Manager A)
    (m : Manager)
    → IsManaged m
    → ((key : Text) (agent : ManagedAgent)
        → lookup key m.agents ≡ some agent
        → IsManaged (then_do key agent m).1)
    → IsManaged (at_target caller target then_do m).1
at_target-IsManaged caller target then_do m i h =
    continue-IsManaged (resolve_agent_reference caller target false)
      (λ path m'. at_found path then_do (lookup path.value m'.agents) m') m i
      (λ path. at_found-IsManaged path then_do (lookup path.value m.agents) m i (h path.value))

restarted-agent_path : (agent : ManagedAgent) → (restarted agent).agent_path ≡ agent.agent_path
unfolding restarted start_agent_thread
restarted-agent_path agent = ground arith

send_to-IsManaged :
    (cleaned : Text) (m : Manager)
    → IsManaged m
    → (key : Text) (agent : ManagedAgent) → lookup key m.agents ≡ some agent
    → IsManaged (send_to cleaned key agent m).1
unfolding send_to submit_input_unlocked
send_to-IsManaged cleaned m i key agent there = elim (Bool-cases (is_closed agent)) [
  | inl c ↦ rw c i
  | inr o ↦ rw o (insert-IsManaged m key agent (submit_input_unlocked cleaned agent) there refl i)
]

pub send_input-IsManaged :
    (target input : Text) (caller : Caller) (m : Manager)
    → IsManaged m
    → IsManaged (send_input target input caller m).1
unfolding send_input
send_input-IsManaged target input caller m i = elim (Bool-cases (strip whitespace input == [])) [
  | inl empty ↦ rw empty i
  | inr full ↦ rw full (
      at_target-IsManaged caller target (send_to (strip whitespace input)) m i
        (send_to-IsManaged (strip whitespace input) m i))
]

pub close_agent-IsManaged :
    (target : Text) (caller : Caller) (m : Manager)
    → IsManaged m
    → IsManaged (close_agent target caller m).1
unfolding close_agent shutdown_agent_unlocked
close_agent-IsManaged target caller m i =
    at_target-IsManaged caller target close_found m i
      (λ key agent there. insert-IsManaged m key agent (shutdown_agent_unlocked agent) there refl i)

resume_found-IsManaged :
    (input : Option Text) (m : Manager)
    → IsManaged m
    → (key : Text) (agent : ManagedAgent) → lookup key m.agents ≡ some agent
    → IsManaged (resume_found input key agent m).1
unfolding resume_found submit_input_unlocked
resume_found-IsManaged none m i key agent there =
    insert-IsManaged m key agent (restarted agent) there (restarted-agent_path agent) i
resume_found-IsManaged (some input) m i key agent there =
    elim (Bool-cases (strip whitespace input == [])) [
      | inl empty ↦
          rw empty
            (insert-IsManaged m key agent (restarted agent) there (restarted-agent_path agent) i)
      | inr full ↦ rw full (
          insert-IsManaged m key agent
            (submit_input_unlocked (strip whitespace input) (restarted agent)) there
            (restarted-agent_path agent) i)
    ]

pub resume_agent-IsManaged :
    (target : Text) (caller : Caller) (input : Option Text) (m : Manager)
    → IsManaged m
    → IsManaged (resume_agent target caller input m).1
unfolding resume_agent
resume_agent-IsManaged target caller input m i =
    at_target-IsManaged caller target (resume_found input) m i (resume_found-IsManaged input m i)

pub shutdown_all-IsFiled :
    (d : Dict Text ManagedAgent)
    → All IsFiled d
    → All IsFiled (shutdown_all d) × (length (shutdown_all d) ≡ length d)
unfolding shutdown_all shutdown_agent_unlocked
shutdown_all-IsFiled [] f = (tt, refl)
shutdown_all-IsFiled ((k, a) ∷ d) (g, f) =
    let (h, l) = shutdown_all-IsFiled d f in ((g, h), ground (arith, l))

thread_step-agent_path :
    (outcome : Outcome) (g : ℕ) (phase : Phase) (agent : ManagedAgent)
    → (thread_step outcome g phase agent).1.agent_path ≡ agent.agent_path
unfolding thread_step finish_task
thread_step-agent_path outcome g checking agent = refl
thread_step-agent_path outcome g fetching agent = refl
thread_step-agent_path outcome g (holding payload) agent = ground arith
thread_step-agent_path (returned output) g (working payload) agent = ground arith
thread_step-agent_path (raised error) g (working payload) agent = ground arith
thread_step-agent_path outcome g closing agent = ground arith
thread_step-agent_path outcome g ended agent = refl

pub step_at-agent_path :
    (outcome : Outcome) (n : ℕ) (threads : List WorkerThread) (agent : ManagedAgent)
    → (step_at outcome n threads agent).1.agent_path ≡ agent.agent_path
unfolding step_at
step_at-agent_path outcome n [] agent = refl
step_at-agent_path outcome zero (thread ∷ older) agent =
    thread_step-agent_path outcome thread.generation thread.phase agent
step_at-agent_path outcome (suc n) (thread ∷ older) agent = step_at-agent_path outcome n older agent
