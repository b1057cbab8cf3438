-- ===== src/Agents.antt =====
-- localagentcli/agents: the agent loop, agent paths, sub-agents and their threads, failures, plans, triage.
pub mod AgentPath
pub mod MultiAgent
pub mod Recovery
pub mod Truncation
pub mod Plan
pub mod Events
pub mod Loop
pub mod ContextWindow
pub mod Triage
