-- ===== src/Lib.antt =====
-- A verification library for LocalAgentCLI, a command-line agent that lets a language model call
-- tools in a workspace. Every tool call goes through the safety layer, which decides whether it may
-- run, backs up what it changes, and can undo it; sub-agents are addressed by paths and work in
-- threads; failures are classified and counted against budgets. The agent loop ties these together.
--
-- The files and the code that they model, all paths from the repository's root:
--
--   Base            `==` and `in` (Equality), lists (Lists), `str` as code points (Text), decimal
--                   numbers (Decimal), dictionaries in insertion order (Dict), JSON values (Json),
--                   exceptions as values (Result), methods that change a state and may raise
--                   (Exec: what was written before a raise stays written), and generators (Gen: an
--                   Exec with the events that it yields)
--   Platform        what is used of pathlib, shutil and the disk: a parameter, with the documented
--                   laws that the theorems rely on as records. `expanduser` raises where a home is
--                   unknown: Safety.Layer.Risk models this, and validate_path cannot meet it, since it
--                   expands absolute paths; Safety.Policy is about paths whose home is known.
--                   `resolve` is as in Python 3.13 and later, where a circle of links does not raise.
--                   The laws on files hold where each file has one spelling among the paths in use
--   Tools.Base      localagentcli/tools/base.py: a tool's properties and the results of calls
--   Tools.Schema, Tools.Adaptation, Tools.Registry
--                   localagentcli/tools/schema.py, adaptation.py, registry.py and router.py: which
--                   tools there are, and which definitions a model is shown
--   Safety.Posture, Safety.Policy, Safety.Approval
--                   localagentcli/safety/posture.py, policy.py, approval.py, exec_policy.py
--   Safety.Boundary localagentcli/safety/boundary.py: the check of a path against the workspace root.
--                   The walk over the parents runs on fuel, one more than the number of the path's
--                   parts; it is enough where a parent has fewer parts than its child
--   Safety.Rollback localagentcli/safety/rollback.py: Entry is one entry and its JSON form, Views the
--                   specification of undo, Rounds and Undo that recording and undoing meet it, Log and
--                   Names the log on disk and the names of backups
--   Safety.Layer    localagentcli/safety/layer.py: Risk and Check decide on a call, Actions are the
--                   hooks before and after it with `_execute_tool_safely` of agents/loop.py, Decision
--                   and Deciding are about the decision, LocalCall and Session about calls
--   Agents.AgentPath, Agents.MultiAgent, Agents.Recovery, Agents.Plan, Agents.Truncation
--                   localagentcli/agents/agent_path.py, multi_agent.py, recovery.py, planner.py and
--                   truncation.py. A sub-agent's threads are an interleaving of steps, each of which is
--                   what runs under the lock, or one `get` of the queue
--   Tools.PatchApply
--                   localagentcli/tools/patch_apply.py: Parse reads a patch, Match applies it to lines
--   Agents.ContextWindow, Agents.Events, Agents.Triage
--                   localagentcli/agents/context_window.py, events.py and triage.py
--   Agents.Loop     localagentcli/agents/loop.py. Base, Calls, Sequential and Batch handle the calls of
--                   an answer, Prompt and Step are a step in its rounds, Replan, Run and Turns the run
--                   of a plan. A method that yields events is a generator; the answers of the user are
--                   part of the state. A step's rounds are the loop's own bound. A run takes fuel for
--                   its turns, since replanning is unbounded; one more than the pending steps is enough
--                   where nothing is replanned. The blocking and the asynchronous loop share what their
--                   code shares word for word, and differ where it differs
--   Models, Guardian
--                   localagentcli/models/backends/base.py (the data only) and
--                   localagentcli/guardian/reviewer.py
--   Session.Usage   localagentcli/session/usage.py
--   Features        localagentcli/features/registry.py: the feature flags
--   Tests           runs on small inputs, and witnesses on small platforms
--
-- Other numbers than those from zero on are kept by their literals, and what `int` and `float` make of
-- them, or raise, is a parameter. The model counts how often it was asked, by the loop and by the
-- guardian together, since both ask the same one.
--
-- Properties and methods of one object become fields and functions of one name; a method that changes
-- the object takes its state and returns it. The clock, regular expressions, `shlex`, `json`, and the
-- tools' own work are parameters. Making a directory is a step on the disk that changes no file's
-- content. The agent loop is modelled without a session, so that no budget of tokens is kept and no context is
-- added; a tool returns its failures as results; the threads of a batch run in the order of the calls.
-- Not modelled: the model backends and providers, the shell, the rest of the session
-- and the commands.
pub mod Base
pub mod Platform
pub mod Tools
pub mod Safety
pub mod Models
pub mod Guardian
pub mod Session
pub mod Agents
pub mod Features
pub mod Tests
