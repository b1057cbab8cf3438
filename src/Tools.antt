-- ===== src/Tools.antt =====
-- localagentcli/tools: the interface of a tool, which tools a model sees, and the application of patches.
pub mod Base
pub mod Schema
pub mod Adaptation
pub mod Registry
pub mod PatchApply
