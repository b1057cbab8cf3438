-- ===== src/Agents/Loop.antt =====
-- localagentcli/agents/loop.py: the loop that carries a plan out with the model and the tools.
mod Base
mod Calls
pub mod Sequential
pub mod Batch
pub mod Prompt
pub mod Step
pub mod Replan
pub mod Run
pub mod Turns
pub mod Completion
pub mod Turning
pub mod Completing
pub mod StepLaws
pub mod Ends
pub mod Rounds
pub mod Asking
pub mod RoundEnds
pub mod Budget
pub mod Names
pub mod Mirror
pub mod Consent
pub mod Messages
pub mod Answers
unfoldable pub use Base.*
unfoldable pub use Calls.*
