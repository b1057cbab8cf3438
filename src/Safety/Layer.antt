-- ===== src/Safety/Layer.antt =====
-- localagentcli/safety/layer.py: the gate before and after every tool call.
mod Risk
mod Check
mod Actions
pub mod Decision
pub mod Deciding
pub mod LocalCall
pub mod Session
unfoldable pub use Risk.*
unfoldable pub use Check.*
unfoldable pub use Actions.*
