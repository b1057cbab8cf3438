-- ===== src/Safety.antt =====
-- localagentcli/safety: what may run, where it may write, and how it is undone.
pub mod Posture
pub mod Approval
pub mod Policy
pub mod Boundary
pub mod Rollback
pub mod Layer
